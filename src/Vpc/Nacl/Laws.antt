-- ===== src/Vpc/Nacl/Laws.antt =====
-- What the verdict of a network ACL means.
use aws_explorer.Prelude.{
  ◌≤◌, ◌≡◌, refl, sym, ap, ◌∙◌, subst, inl, inr, ⊎_elim, ◌↔◌, true, false, Option, none, some, Memᴰ,
  arith, find, filter, Option-cases, find-some, find-none, find-IsSorted, Memᴰ-filter,
  Memᴰ-filter_of, Memᴰ-sort, Memᴰ-sort_of, sort-IsSorted, IsWeakOrder,
}
use aws_explorer.Go.Text.{Text}
use aws_explorer.Go.Number.{ℤ}
use aws_explorer.Go.Net.{Ip}
use aws_explorer.Vpc.Types.{NaclRule, NaclInfo}
use aws_explorer.Vpc.Nacl.{
  has_direction, lower_number, rules_for_dir, rule_matches, is_allow, nacl_allows,
}

pub lower_number-IsWeakOrder : IsWeakOrder lower_number
unfolding lower_number
lower_number-IsWeakOrder = record {
  asym = λ r s h. ground arith;
  trans = λ r s t h k. ground arith;
}

le-of_not_lower : (r s : NaclRule) → lower_number s r ≡ false → r.rule_number ≤ s.rule_number
unfolding lower_number
le-of_not_lower r s h = ground arith

-- A rule of the direction that applies, as no rule with a lower number does.
pub record IsFirstMatch (nacl : NaclInfo) (dir proto : Text) (port : ℤ) (ip : Option Ip)
    (r : NaclRule) : Type 0 where
  pub listed : Memᴰ r nacl.rules
  pub direction : has_direction dir r ≡ true
  pub applies : rule_matches proto port ip r ≡ true
  pub lowest :
      (s : NaclRule)
      → Memᴰ s nacl.rules
      → has_direction dir s ≡ true
      → rule_matches proto port ip s ≡ true
      → r.rule_number ≤ s.rule_number

-- Within a direction a number stands for one rule.
abbrev pub HasUniqueNumbers : NaclInfo → Text → Type 0
HasUniqueNumbers nacl dir =
    (r s : NaclRule)
    → Memᴰ r nacl.rules
    → Memᴰ s nacl.rules
    → has_direction dir r ≡ true
    → has_direction dir s ≡ true
    → r.rule_number ≡ s.rule_number
    → r ≡ s

module _ (nacl : NaclInfo) (dir proto : Text) (port : ℤ) (ip : Option Ip) where
  abbrev pub decides : Option NaclRule
  decides = find (rule_matches proto port ip) (rules_for_dir nacl dir)

  mem-rules_for_dir :
      {r : NaclRule}
      → Memᴰ r nacl.rules
      → has_direction dir r ≡ true
      → Memᴰ r (rules_for_dir nacl dir)
  unfolding rules_for_dir
  mem-rules_for_dir m d =
      Memᴰ-sort_of lower_number _ (Memᴰ-filter_of (has_direction dir) nacl.rules m d)

  decides-IsFirstMatch : (r : NaclRule) → decides ≡ some r → IsFirstMatch nacl dir proto port ip r
  unfolding rules_for_dir
  decides-IsFirstMatch r h =
      let (m, e) = find-some (rule_matches proto port ip) (rules_for_dir nacl dir) h in
      let (m', d) = Memᴰ-filter (has_direction dir) nacl.rules (Memᴰ-sort lower_number _ m) in
      record {
        listed = m';
        direction = d;
        applies = e;
        lowest = λ s ms ds es.
            ⊎_elim (λ q. subst (λ w. r.rule_number ≤ w.rule_number) (sym q) (omega arith))
              (λ l. le-of_not_lower r s l)
              (find-IsSorted lower_number (rule_matches proto port ip) (rules_for_dir nacl dir)
                (sort-IsSorted lower_number lower_number-IsWeakOrder
                  (filter (has_direction dir) nacl.rules))
                h s (mem-rules_for_dir ms ds) es);
      }

  pub nacl_allows-some :
      (r : NaclRule) → decides ≡ some r → (nacl_allows (some nacl) dir proto port ip).0 ≡ is_allow r
  unfolding nacl_allows
  nacl_allows-some r h = rw h (ground arith)

  pub nacl_allows-none : decides ≡ none → (nacl_allows (some nacl) dir proto port ip).0 ≡ false
  unfolding nacl_allows
  nacl_allows-none h = rw h refl

  -- A deciding rule exists as soon as one rule applies.
  no_rule_applies : decides ≡ none → (r : NaclRule) → ¬ IsFirstMatch nacl dir proto port ip r
  no_rule_applies h r f = ground (
    arith,
    find-none (rule_matches proto port ip) (rules_for_dir nacl dir) h r
        (mem-rules_for_dir f.listed f.direction),
    f.applies,
  )

  IsFirstMatch-unique :
      HasUniqueNumbers nacl dir
      → (r s : NaclRule) → IsFirstMatch nacl dir proto port ip r
      → IsFirstMatch nacl dir proto port ip s
      → r ≡ s
  IsFirstMatch-unique u r s f g = u r s f.listed g.listed f.direction g.direction (
      omega (
        arith,
        f.lowest s g.listed g.direction g.applies,
        g.lowest r f.listed f.direction f.applies,
      ))

  -- The verdict is the action of the rule with the lowest number among those that apply.
  pub nacl_allows-first_match :
      HasUniqueNumbers nacl dir
      → (r : NaclRule) → IsFirstMatch nacl dir proto port ip r
      → (nacl_allows (some nacl) dir proto port ip).0 ≡ is_allow r
  nacl_allows-first_match u r f = elim (Option-cases decides) [
    | inl e ↦ absurd (no_rule_applies e r f)
    | inr (s, e) ↦
        nacl_allows-some s e ∙ ap is_allow (IsFirstMatch-unique u s r (decides-IsFirstMatch s e) f)
  ]

  -- Traffic that an ACL lets pass is allowed by a rule that applies, with no lower-numbered rule
  -- that applies.
  pub nacl_allows_sound :
      (nacl_allows (some nacl) dir proto port ip).0 ≡ true
      → (r : NaclRule) × IsFirstMatch nacl dir proto port ip r × (is_allow r ≡ true)
  nacl_allows_sound h = elim (Option-cases decides) [
    | inl e ↦ absurd (ground (arith, nacl_allows-none e))
    | inr (r, e) ↦ (r, decides-IsFirstMatch r e, sym (nacl_allows-some r e) ∙ h)
  ]

  -- An ACL with unique rule numbers lets traffic pass exactly if the lowest-numbered rule of the
  -- direction that applies allows it; with no such rule it is denied.
  pub nacl_allows_iff :
      HasUniqueNumbers nacl dir
      → ((nacl_allows (some nacl) dir proto port ip).0 ≡ true)
        ↔ ((r : NaclRule) × IsFirstMatch nacl dir proto port ip r × (is_allow r ≡ true))
  nacl_allows_iff u = (nacl_allows_sound, λ (r, f, a). nacl_allows-first_match u r f ∙ a)
