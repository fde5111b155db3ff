-- ===== src/Vpc/Effective/Laws.antt =====
-- Which groups `computeEffectiveRules` lists for a rule.
use mathlib.Core.List.Memᴰ
use aws_explorer.Prelude.{
  ◌≡◌, refl, sym, ap, subst, ◌∙◌, ◌↔◌, Bool, true, false, not, Option, none, some, List, [], Memᴰ,
  arith, filter, Memᴰ-filter, Memᴰ-filter_of, Memᴰ-flat_map, Memᴰ-flat_map_of, Memᴰ-sort,
  Memᴰ-sort_of,
}
use aws_explorer.Go.Text.{Text, less_text}
use aws_explorer.Go.Map.{Memᴰ-get}
use aws_explorer.Vpc.Types.{Snapshot, SgRule, SgInfo, EniInfo}
use aws_explorer.Vpc.Lookup.{find_sg, find_eni}
use aws_explorer.Vpc.Findings.Groups.{is_inbound}
use aws_explorer.Vpc.Effective.{
  MergedRule, rule_key, rules_of, attached_rules, less_rule, sorted_groups, sorted_rules,
  compute_effective_rules, effective_of,
}
use aws_explorer.Vpc.Effective.Merge.{merge_each, merge_rules_lem, each_listed, merge_each_good}

-- A rule of the group has the key.
pub record HasKey (snap : Snapshot) (ids : List Text) (inbound : Bool) (k : Text) (id : Text)
    : Type 0 where
  pub group : SgInfo
  pub rule : SgRule
  pub attached : Memᴰ id ids
  pub is_group : find_sg snap id ≡ some group
  pub in_group : Memᴰ rule group.rules
  pub direction : is_inbound rule ≡ inbound
  pub key : rule_key rule ≡ k

of_rules :
    (id : Text) (o : Option SgInfo) {g : Text} {r : SgRule}
    → Memᴰ (g, r) (rules_of id o)
    → (g ≡ id) × ((sg : SgInfo) × (o ≡ some sg) × Memᴰ r sg.rules)
unfolding rules_of
of_rules id none m = absurd (Memᴰ.not-nil m)
of_rules id (some sg) {g} {r} m =
    let (s, t, e) = Memᴰ.of_map (λ s. (id, s)) sg.rules m in
    (sym (ap (λ p. p.0) e), (sg, refl, subst (λ w. Memᴰ w sg.rules) (ap (λ p. p.1) e) t))

-- the rules of the loops that pass a test, and the record above
module _ (snap : Snapshot) (ids : List Text) (inbound : Bool) (test : Text × SgRule → Bool) where
  abbrev Tests : Type 0
  Tests = (g : Text) (r : SgRule) → (test (g, r) ≡ true) ↔ (is_inbound r ≡ inbound)

  to_key :
      Tests
      → (g : Text) (r : SgRule) → Memᴰ (g, r) (filter test (attached_rules snap ids))
      → HasKey snap ids inbound (rule_key r) g
  unfolding attached_rules
  to_key tests g r m =
      let (m', e) = Memᴰ-filter test (attached_rules snap ids) m in
      let (id, a, t) = Memᴰ-flat_map (λ id. rules_of id (find_sg snap id)) ids m' in
      let (q, (sg, f, t')) = of_rules id (find_sg snap id) t in
      record {
        group = sg;
        rule = r;
        attached = subst (λ w. Memᴰ w ids) (sym q) a;
        is_group = ap (find_sg snap) q ∙ f;
        in_group = t';
        direction = (tests g r).0 e;
        key = refl;
      }

  of_key :
      Tests
      → (k g : Text) → (x : HasKey snap ids inbound k g)
      → Memᴰ (g, x.rule) (filter test (attached_rules snap ids))
  unfolding attached_rules rules_of
  of_key tests k g x =
      Memᴰ-filter_of test (attached_rules snap ids)
        (Memᴰ-flat_map_of (λ id. rules_of id (find_sg snap id)) ids x.attached
          (rw x.is_group (Memᴰ.map (λ r. (g, r)) x.in_group)))
        ((tests g x.rule).1 x.direction)

  -- the rules listed after the loops
  abbrev HasMerged : Text → Text → Type 0
  HasMerged k g =
      (m : MergedRule) × Memᴰ m
        (sorted_rules (merge_each (filter test (attached_rules snap ids)) []))
      × (rule_key m.rule ≡ k)
      × Memᴰ g m.sgs

  sorted_rules_iff : Tests → (k g : Text) → HasMerged k g ↔ HasKey snap ids inbound k g
  unfolding sorted_rules sorted_groups
  sorted_rules_iff tests k g =
      let rs = filter test (attached_rules snap ids) in
      let entries =
        merge_each_good (HasKey snap ids inbound) rs [] (λ p t. absurd (Memᴰ.not-nil t))
          (to_key tests) in
      (
        λ (m, t, e, u).
            let ((j, v), t', q) =
              Memᴰ.of_map (λ (p : Text × MergedRule). sorted_groups p.1) (merge_each rs [])
                (Memᴰ-sort less_rule _ t) in
            let x = entries (j, v) t' in
            let u' =
              Memᴰ-sort less_text v.sgs (subst (λ (w : MergedRule). Memᴰ g w.sgs) (sym q) u) in
            subst (λ w. HasKey snap ids inbound w g)
              (sym x.same_key ∙ (ap (λ (w : MergedRule). rule_key w.rule) q ∙ e)) (x.good g u'),
        λ x.
            let (m, e, t) = each_listed rs [] g x.rule (of_key tests k g x) in
            let t' = Memᴰ-get (rule_key x.rule) (merge_each rs []) e in
            (
              sorted_groups m,
              Memᴰ-sort_of less_rule _ (Memᴰ.map (λ (p : Text × MergedRule). sorted_groups p.1) t'),
              (entries (rule_key x.rule, m) t').same_key ∙ x.key,
              Memᴰ-sort_of less_text m.sgs t,
            ),
      )

inbound_test : (b : Bool) → (b ≡ true) ↔ (b ≡ true)
inbound_test b = (λ e. e, λ e. e)

outbound_test : (b : Bool) → (not b ≡ true) ↔ (b ≡ false)
outbound_test b = (λ e. ground arith, λ e. ground arith)

-- A merged rule lists a group of an interface if and only if the group is attached to the interface
-- and has a rule in that direction with the same key.
pub compute_effective_rules_iff :
    (snap : Snapshot) (id : Text) (eni : EniInfo)
    → find_eni snap id ≡ some eni
    → (k g : Text)
    → (((m : MergedRule) × Memᴰ m (compute_effective_rules snap id).inbound
          × (rule_key m.rule ≡ k)
          × Memᴰ g m.sgs)
        ↔ HasKey snap eni.security_groups true k g)
      × (((m : MergedRule) × Memᴰ m (compute_effective_rules snap id).outbound
            × (rule_key m.rule ≡ k)
            × Memᴰ g m.sgs)
          ↔ HasKey snap eni.security_groups false k g)
unfolding compute_effective_rules effective_of
compute_effective_rules_iff snap id eni h k g =
    rw (h, merge_rules_lem (attached_rules snap eni.security_groups) [] [])
      (
        sorted_rules_iff snap eni.security_groups true (λ p. is_inbound p.1)
            (λ g r. inbound_test (is_inbound r)) k g,
        sorted_rules_iff snap eni.security_groups false (λ p. not (is_inbound p.1))
            (λ g r. outbound_test (is_inbound r)) k g,
      )
