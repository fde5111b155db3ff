-- ===== src/Vpc/Findings/Exposed.antt =====
-- Which rules `checkSecurityGroups` reports as exposed.
use mathlib.Core.List.Memᴰ
use aws_explorer.Prelude.{
  ◌≡◌, refl, sym, ap, ◌∙◌, ◌↔◌, ◌⊎◌, inl, inr, ⊎_elim, Bool, true, false, ◌||◌, not, List, [], Memᴰ,
  if◌then◌else◌, arith, Bool-cases, flat_map, Memᴰ-flat_map, Memᴰ-flat_map_of,
}
use aws_explorer.Go.Text.{Text, str, eq_text, equal_fold, has_byte, trim_space, member}
use aws_explorer.Vpc.Types.{Snapshot, SgRule, SgInfo}
use aws_explorer.Vpc.Explain.{
  is_public_source, admin_ports, data_ports, range_includes_sensitive_port, exposure_risk,
}
use aws_explorer.Vpc.Findings.Types.{critical, Finding, when, Memᴰ-when, Memᴰ-when_of}
use aws_explorer.Vpc.Findings.Groups.{
  risk_severity, is_inbound, rule_note, exposure_finding, unknown_group_finding, known_groups,
  check_rule, check_security_groups,
}

-- The ports that a rule opens are sensitive: all of them, an administration or database port, or a
-- range with one of those in it.
abbrev pub is_sensitive : Text → Text → Bool
is_sensitive protocol port_range =
    let proto = trim_space protocol in
    let ports = trim_space port_range in
    (eq_text proto [] || equal_fold proto (str "All") || equal_fold ports (str "All"))
    || (if has_byte b'-' ports
        then range_includes_sensitive_port ports
        else member ports admin_ports || member ports data_ports)

-- An inbound rule opens sensitive ports to the whole internet.
pub record IsExposed (r : SgRule) : Type 0 where
  pub inbound : is_inbound r ≡ true
  pub public : is_public_source r.source ≡ true
  pub sensitive : is_sensitive r.protocol r.port_range ≡ true

-- The branches of `exposureRisk` over the results of its tests and its notes.
pick : Bool → Bool → Bool → Bool → Bool → Bool → Text → Text → Text → Text → Text
pick public all dash admin db range n₁ n₂ n₃ n₄ =
    if not public
    then []
    else if all
    then n₁
    else if not dash
    then if admin then n₂ else if db then n₃ else []
    else if range
    then n₄
    else []

pick-elim :
    (P : Text → Type 0) (public all dash admin db range : Bool) (n₁ n₂ n₃ n₄ : Text)
    → P []
    → P n₁
    → P n₂
    → P n₃
    → P n₄
    → P (pick public all dash admin db range n₁ n₂ n₃ n₄)
unfolding pick
pick-elim P false all dash admin db range n₁ n₂ n₃ n₄ p₀ p₁ p₂ p₃ p₄ = p₀
pick-elim P true true dash admin db range n₁ n₂ n₃ n₄ p₀ p₁ p₂ p₃ p₄ = p₁
pick-elim P true false false true db range n₁ n₂ n₃ n₄ p₀ p₁ p₂ p₃ p₄ = p₂
pick-elim P true false false false true range n₁ n₂ n₃ n₄ p₀ p₁ p₂ p₃ p₄ = p₃
pick-elim P true false false false false range n₁ n₂ n₃ n₄ p₀ p₁ p₂ p₃ p₄ = p₀
pick-elim P true false true admin db true n₁ n₂ n₃ n₄ p₀ p₁ p₂ p₃ p₄ = p₄
pick-elim P true false true admin db false n₁ n₂ n₃ n₄ p₀ p₁ p₂ p₃ p₄ = p₀

pick_iff :
    (public all dash admin db range : Bool) (n₁ n₂ n₃ n₄ : Text)
    → eq_text n₁ [] ≡ false
    → eq_text n₂ [] ≡ false
    → eq_text n₃ [] ≡ false
    → eq_text n₄ [] ≡ false
    → (eq_text (pick public all dash admin db range n₁ n₂ n₃ n₄) [] ≡ false)
      ↔ ((public ≡ true) × ((all || (if dash then range else admin || db)) ≡ true))
unfolding pick eq_text
pick_iff false all dash admin db range n₁ n₂ n₃ n₄ e₁ e₂ e₃ e₄ =
    (λ h. ground arith, λ h. ground (arith, h.0))
pick_iff true true dash admin db range n₁ n₂ n₃ n₄ e₁ e₂ e₃ e₄ = (λ h. (refl, refl), λ h. e₁)
pick_iff true false false true db range n₁ n₂ n₃ n₄ e₁ e₂ e₃ e₄ = (λ h. (refl, refl), λ h. e₂)
pick_iff true false false false true range n₁ n₂ n₃ n₄ e₁ e₂ e₃ e₄ = (λ h. (refl, refl), λ h. e₃)
pick_iff true false false false false range n₁ n₂ n₃ n₄ e₁ e₂ e₃ e₄ =
    (λ h. ground arith, λ h. ground (arith, h.1))
pick_iff true false true admin db true n₁ n₂ n₃ n₄ e₁ e₂ e₃ e₄ = (λ h. (refl, refl), λ h. e₄)
pick_iff true false true admin db false n₁ n₂ n₃ n₄ e₁ e₂ e₃ e₄ =
    (λ h. ground arith, λ h. ground (arith, h.1))

module _ (protocol port_range source : Text) where
  abbrev all_open : Bool
  all_open =
      eq_text (trim_space protocol) []
      || equal_fold (trim_space protocol) (str "All")
      || equal_fold (trim_space port_range) (str "All")

  exposure_risk-pick :
      exposure_risk protocol port_range source
      ≡ pick
          (is_public_source source)
          all_open
          (has_byte b'-' (trim_space port_range))
          (member (trim_space port_range) admin_ports)
          (member (trim_space port_range) data_ports)
          (range_includes_sensitive_port (trim_space port_range))
          (str "⚠ ALL ports open to the entire internet")
          (str "⚠ remote admin access open to the entire internet")
          (str "⚠ database/cache port exposed to the entire internet")
          (str "⚠ port range exposes sensitive ports to the entire internet")
  unfolding exposure_risk pick
  exposure_risk-pick = refl

  -- Every note is one of four, and each is critical.
  risk_cases :
      (exposure_risk protocol port_range source ≡ [])
      ⊎ (risk_severity (exposure_risk protocol port_range source) ≡ critical)
  unfolding risk_severity str
  risk_cases = rw exposure_risk-pick (
      pick-elim (λ t. (t ≡ []) ⊎ (risk_severity t ≡ critical)) _ _ _ _ _ _ _ _ _ _ (inl refl)
        (inr refl) (inr refl) (inr refl) (inr refl))

  risk_iff :
      (eq_text (exposure_risk protocol port_range source) [] ≡ false)
      ↔ ((is_public_source source ≡ true) × (is_sensitive protocol port_range ≡ true))
  unfolding str eq_text
  risk_iff = rw exposure_risk-pick (pick_iff _ _ _ _ _ _ _ _ _ _ refl refl refl refl)

note_iff : (r : SgRule) → (eq_text (rule_note r) [] ≡ false) ↔ IsExposed r
unfolding rule_note eq_text
note_iff r = elim (Bool-cases (is_inbound r)) [
  | inl e ↦
      let (f, g) = risk_iff r.protocol r.port_range r.source in
      rw e (
        λ h. record { inbound = e; public = (f h).0; sensitive = (f h).1 },
        λ x. g (x.public, x.sensitive),
      )
  | inr e ↦ rw e (λ h. ground arith, λ x. ground (arith, x.inbound))
]

is_false_of : (b : Bool) → not b ≡ true → b ≡ false
is_false_of b h = ground arith

note_critical :
    (r : SgRule) → eq_text (rule_note r) [] ≡ false → risk_severity (rule_note r) ≡ critical
unfolding rule_note eq_text
note_critical r h = elim (Bool-cases (is_inbound r)) [
  | inl e ↦ rw e (
      ⊎_elim (λ q. let h' = rw q at rw e at h in ground arith) (λ c. c)
        (risk_cases r.protocol r.port_range r.source))
  | inr e ↦ let h' = rw e at h in ground arith
]

-- An exposed rule of a group, and the finding about it.
pub record ExposedRule (snap : Snapshot) (id : Text) : Type 0 where
  pub group : SgInfo
  pub rule : SgRule
  pub in_snapshot : Memᴰ group snap.security_groups
  pub in_group : Memᴰ rule group.rules
  pub same : group.id ≡ id
  pub exposed : IsExposed rule

of_check_rule :
    (known : List Text) (sg : SgInfo) (r : SgRule) (f : Finding)
    → Memᴰ f (check_rule known sg r)
    → f.severity ≡ critical
    → (f.resource ≡ sg.id) × IsExposed r
unfolding check_rule exposure_finding unknown_group_finding
of_check_rule known sg r f m c =
    ⊎_elim
      (λ t.
        let (b, q) = Memᴰ-when _ (exposure_finding sg r) t in
        (ap (λ (x : Finding). x.resource) q, (note_iff r).0 (is_false_of _ b)))
      (λ t.
        let (_, q) = Memᴰ-when _ (unknown_group_finding sg r) t in
        let e = ap (λ (x : Finding). x.severity) q in absurd (ground (arith, e, c)))
      (Memᴰ.append_cases (when (not (eq_text (rule_note r) [])) (exposure_finding sg r)) m)

-- A group has a critical finding of the group checks if and only if one of its inbound rules opens
-- sensitive ports to the whole internet.
pub check_security_groups_iff :
    (snap : Snapshot) (id : Text)
    → ((f : Finding) × Memᴰ f (check_security_groups snap)
        × (f.severity ≡ critical)
        × (f.resource ≡ id))
      ↔ ExposedRule snap id
unfolding check_security_groups check_rule exposure_finding
check_security_groups_iff snap id = (
  λ (f, m, c, q).
      let (sg, a, m') =
        Memᴰ-flat_map (λ sg. flat_map (check_rule (known_groups snap) sg) sg.rules)
          snap.security_groups m in
      let (r, b, t) = Memᴰ-flat_map (check_rule (known_groups snap) sg) sg.rules m' in
      let (p, x) = of_check_rule (known_groups snap) sg r f t c in
      record { group = sg; rule = r; in_snapshot = a; in_group = b; same = sym p ∙ q; exposed = x },
  λ x.
      let note = (note_iff x.rule).1 x.exposed in
      let here =
        Memᴰ-when_of (not (eq_text (rule_note x.rule) [])) (exposure_finding x.group x.rule)
          (rw note refl) in
      (
        exposure_finding x.group x.rule,
        Memᴰ-flat_map_of (λ sg. flat_map (check_rule (known_groups snap) sg) sg.rules)
            snap.security_groups x.in_snapshot
            (Memᴰ-flat_map_of (check_rule (known_groups snap) x.group) x.group.rules x.in_group
              (Memᴰ.append_left _ here)),
        note_critical x.rule note,
        x.same,
      ),
)
