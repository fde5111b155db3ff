-- ===== src/Vpc/Effective/Merge.antt =====
-- The loops of `computeEffectiveRules` over the rules of one direction.
use mathlib.Core.List.Memᴰ
use aws_explorer.Prelude.{
  ◌≡◌, refl, sym, ap, subst, ◌∙◌, inl, inr, ⊎_elim, not, Option, none, some, List, [], ◌∷◌, Memᴰ,
  Bool-cases, filter,
}
use aws_explorer.Go.Text.{Text, eq_text, eq_text_refl, eq_text_sound, member, member_iff}
use aws_explorer.Go.Map.{Dict, get, get-put, Memᴰ-get, Memᴰ-put}
use aws_explorer.Vpc.Types.{SgRule}
use aws_explorer.Vpc.Findings.Groups.{is_inbound}
use aws_explorer.Vpc.Effective.{MergedRule, rule_key, merged_with, merge_rule, merge_rules}

-- The loop over the rules of one direction.
unfoldable pub merge_each : List (Text × SgRule) → Dict MergedRule → Dict MergedRule
unfolding merge_rule
merge_each [] d = d
merge_each ((id, r) ∷ rs) d = merge_each rs (merge_rule id r d)

pub merge_rules_lem :
    (rs : List (Text × SgRule)) (i o : Dict MergedRule)
    → merge_rules rs (i, o) ≡ (
      merge_each (filter (λ p. is_inbound p.1) rs) i,
      merge_each (filter (λ p. not (is_inbound p.1)) rs) o,
    )
unfolding merge_rules merge_each filter
merge_rules_lem [] i o = refl
merge_rules_lem ((id, r) ∷ rs) i o = elim (Bool-cases (is_inbound r)) [
  | inl e ↦ rw e (merge_rules_lem rs (merge_rule id r i) o)
  | inr e ↦ rw e (merge_rules_lem rs i (merge_rule id r o))
]

abbrev pub ListsFor : Dict MergedRule → Text → Text → Type 0
ListsFor d k g = (m : MergedRule) × (get k d ≡ some m) × Memᴰ g m.sgs

merged_has : (id : Text) (r : SgRule) (o : Option MergedRule) → Memᴰ id (merged_with id r o).sgs
unfolding merged_with
merged_has id r none = Memᴰ.head refl
merged_has id r (some m) = elim (Bool-cases (member id m.sgs)) [
  | inl e ↦ rw e ((member_iff id m.sgs).0 e)
  | inr e ↦ rw e (Memᴰ.append_right m.sgs (Memᴰ.head refl))
]

merged_keeps :
    (id : Text) (r : SgRule) (m : MergedRule) {g : Text}
    → Memᴰ g m.sgs
    → Memᴰ g (merged_with id r (some m)).sgs
unfolding merged_with
merged_keeps id r m t = elim (Bool-cases (member id m.sgs)) [
  | inl e ↦ rw e t
  | inr e ↦ rw e (Memᴰ.append_left _ t)
]

own_listed :
    (id : Text) (r : SgRule) (d : Dict MergedRule) → ListsFor (merge_rule id r d) (rule_key r) id
unfolding merge_rule
own_listed id r d = (
  merged_with id r (get (rule_key r) d),
  get-put (rule_key r) (rule_key r) _ d ∙ rw (eq_text_refl (rule_key r)) refl,
  merged_has id r (get (rule_key r) d),
)

rule_listed :
    (id : Text) (r : SgRule) (d : Dict MergedRule) (k g : Text)
    → ListsFor d k g
    → ListsFor (merge_rule id r d) k g
unfolding merge_rule
rule_listed id r d k g (m, e, t) = elim (Bool-cases (eq_text (rule_key r) k)) [
  | inl b ↦
      let q = ap (λ j. get j d) (eq_text_sound (rule_key r) k b) ∙ e in
      (
        merged_with id r (some m),
        get-put k (rule_key r) _ d ∙ rw (b, q) refl,
        merged_keeps id r m t,
      )
  | inr b ↦ (m, get-put k (rule_key r) _ d ∙ rw b e, t)
]

loop_listed :
    (rs : List (Text × SgRule)) (d : Dict MergedRule) (k g : Text)
    → ListsFor d k g
    → ListsFor (merge_each rs d) k g
unfolding merge_each
loop_listed [] d k g x = x
loop_listed ((id, r) ∷ rs) d k g x =
    loop_listed rs (merge_rule id r d) k g (rule_listed id r d k g x)

pub each_listed :
    (rs : List (Text × SgRule)) (d : Dict MergedRule) (g : Text) (r : SgRule)
    → Memᴰ (g, r) rs
    → ListsFor (merge_each rs d) (rule_key r) g
unfolding merge_each
each_listed [] d g r m = absurd (Memᴰ.not-nil m)
each_listed ((id, s) ∷ rs) d g r m =
    ⊎_elim
      (λ q. loop_listed rs (merge_rule id s d) (rule_key r) g (
        subst (λ (p : Text × SgRule). ListsFor (merge_rule id s d) (rule_key p.1) p.0) (sym q)
          (own_listed id s d)))
      (each_listed rs (merge_rule id s d) g r) (Memᴰ.cases_cons m)

module _ (Good : Text → Text → Type 0) where
  -- Each entry stands under the key of its rule, and its groups are good.
  pub record IsEntry (k : Text) (m : MergedRule) : Type 0 where
    pub same_key : rule_key m.rule ≡ k
    pub good : (g : Text) → Memᴰ g m.sgs → Good k g

  abbrev pub AllGood : Dict MergedRule → Type 0
  AllGood d = (p : Text × MergedRule) → Memᴰ p d → IsEntry p.0 p.1

  merged_good :
      (id : Text) (r : SgRule) (o : Option MergedRule)
      → ((m : MergedRule) → o ≡ some m → IsEntry (rule_key r) m)
      → Good (rule_key r) id
      → IsEntry (rule_key r) (merged_with id r o)
  unfolding merged_with
  merged_good id r none h x = record {
    same_key = refl;
    good = λ g m. subst (Good (rule_key r)) (sym (Memᴰ.eq_of_singleton m)) x;
  }
  merged_good id r (some m) h x = elim (Bool-cases (member id m.sgs)) [
    | inl e ↦ rw e (h m refl)
    | inr e ↦ rw e (record {
      same_key = (h m refl).same_key;
      good = λ g t.
          ⊎_elim ((h m refl).good g)
            (λ t'. subst (Good (rule_key r)) (sym (Memᴰ.eq_of_singleton t')) x)
            (Memᴰ.append_cases m.sgs t);
    })
  ]

  pub merge_each_good :
      (rs : List (Text × SgRule)) (d : Dict MergedRule)
      → AllGood d
      → ((g : Text) (r : SgRule) → Memᴰ (g, r) rs → Good (rule_key r) g)
      → AllGood (merge_each rs d)
  unfolding merge_each merge_rule
  merge_each_good [] d a h = a
  merge_each_good ((id, r) ∷ rs) d a h =
      merge_each_good rs (merge_rule id r d)
        (λ p t.
          ⊎_elim
            (λ q.
              subst (λ (z : Text × MergedRule). IsEntry z.0 z.1) (sym q)
                (merged_good id r (get (rule_key r) d)
                  (λ m e. a (rule_key r, m) (Memᴰ-get (rule_key r) d e)) (h id r (Memᴰ.head refl))))
            (a p) (Memᴰ-put (rule_key r) (merged_with id r (get (rule_key r) d)) d t))
        (λ g s t. h g s (Memᴰ.tail t))
