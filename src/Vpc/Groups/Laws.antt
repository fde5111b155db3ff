-- ===== src/Vpc/Groups/Laws.antt =====
-- Security groups allow by union: a rule of any group that applies is enough.
use mathlib.Core.List.Memᴰ
use aws_explorer.Prelude.{
  ◌≡◌, ◌≢◌, refl, ap, inl, inr, ⊎_elim, ◌↔◌, Bool, true, Option, none, some, List, [], ◌∷◌, Memᴰ,
  arith, find, Option-cases, find-some, find-none, subst,
}
use aws_explorer.Go.Text.{Text, str}
use aws_explorer.Go.Net.{Ip}
use aws_explorer.Vpc.Types.{Snapshot, EniInfo, SgInfo, SgRule}
use aws_explorer.Vpc.Lookup.{find_sg}
use aws_explorer.Vpc.Groups.{
  TraceRequest, rule_applies, first_rule, sg_verdict, sg_egress_allows, sg_ingress_allows,
}

-- A rule that passes a test, in a group of the snapshot that a list names.
pub record HasRule (snap : Snapshot) (applies : SgRule → Bool) (ids : List Text) : Type 0 where
  pub id : Text
  pub group : SgInfo
  pub rule : SgRule
  pub attached : Memᴰ id ids
  pub found : find_sg snap id ≡ some group
  pub listed : Memᴰ rule group.rules
  pub passes : applies rule ≡ true

module _ (snap : Snapshot) (applies : SgRule → Bool) where
  HasRule-at :
      {ids : List Text} (h : HasRule snap applies ids) {js : List Text}
      → Memᴰ h.id js
      → HasRule snap applies js
  HasRule-at h m = record {
    id = h.id;
    group = h.group;
    rule = h.rule;
    attached = m;
    found = h.found;
    listed = h.listed;
    passes = h.passes;
  }

  HasRule-tail :
      {i : Text} {ids : List Text} → HasRule snap applies ids → HasRule snap applies (i ∷ ids)
  HasRule-tail h = HasRule-at h (Memᴰ.tail h.attached)

  first_rule-HasRule :
      (ids : List Text) {w : Text × SgRule}
      → first_rule snap applies ids ≡ some w
      → HasRule snap applies ids
  unfolding first_rule
  first_rule-HasRule [] h = ground arith
  first_rule-HasRule (i ∷ ids) h = elim (Option-cases (find_sg snap i)) [
    | inl e ↦ HasRule-tail (first_rule-HasRule ids (rw (e, first_rule) at h))
    | inr (sg, e) ↦ elim (Option-cases (find applies sg.rules)) [
      | inl e' ↦ HasRule-tail (first_rule-HasRule ids (rw (e, e', first_rule) at h))
      | inr (r, e') ↦
          let (m, p) = find-some applies sg.rules e' in
          record {
            id = i;
            group = sg;
            rule = r;
            attached = Memᴰ.head refl;
            found = e;
            listed = m;
            passes = p;
          }
    ]
  ]

  HasRule-first_rule :
      (ids : List Text) → HasRule snap applies ids → first_rule snap applies ids ≢ none
  unfolding first_rule
  HasRule-first_rule [] w h = Memᴰ.not-nil w.attached
  HasRule-first_rule (i ∷ ids) w h = elim (Option-cases (find_sg snap i)) [
    | inl e ↦
        ⊎_elim (λ q. ground (arith, ap (find_sg snap) q, w.found))
          (λ t. HasRule-first_rule ids (HasRule-at w t) (rw (e, first_rule) at h))
          (Memᴰ.cases_cons w.attached)
    | inr (sg, e) ↦ elim (Option-cases (find applies sg.rules)) [
      | inl e' ↦
          ⊎_elim
            (λ q.
              let g : w.group ≡ sg = ground (arith, ap (find_sg snap) q, w.found) in
              ground (
                arith,
                find-none applies sg.rules e' w.rule (subst (λ x. Memᴰ w.rule x.rules) g w.listed),
                w.passes,
              ))
            (λ t. HasRule-first_rule ids (HasRule-at w t) (rw (e, e', first_rule) at h))
            (Memᴰ.cases_cons w.attached)
      | inr (r, e') ↦ ground arith
    ]
  ]

  sg_verdict_iff :
      (ids : List Text) (why : Text)
      → ((sg_verdict (first_rule snap applies ids) why).0 ≡ true) ↔ HasRule snap applies ids
  unfolding sg_verdict
  sg_verdict_iff ids why = elim (Option-cases (first_rule snap applies ids)) [
    | inl e ↦ rw e (λ h. ground arith, λ w. absurd (HasRule-first_rule ids w e))
    | inr (v, e) ↦ rw e (λ h. first_rule-HasRule ids e, λ w. refl)
  ]

module _ (snap : Snapshot) (req : TraceRequest) where
  -- Egress is allowed exactly if some group of the source has an outbound rule for the protocol,
  -- the port and the destination.
  pub sg_egress_allows_iff :
      (src : EniInfo) (dest_ip : Ip) (dst : Option EniInfo)
      → ((sg_egress_allows snap src dest_ip dst req).0 ≡ true)
        ↔ HasRule snap (rule_applies (str "Outbound") (some dest_ip) dst req) src.security_groups
  unfolding sg_egress_allows
  sg_egress_allows_iff src dest_ip dst = sg_verdict_iff snap _ src.security_groups _

  -- Ingress is allowed exactly if some group of the destination has an inbound rule for the
  -- protocol, the port and the source.
  pub sg_ingress_allows_iff :
      (dst : EniInfo) (src_ip : Option Ip) (src : EniInfo)
      → ((sg_ingress_allows snap dst src_ip src req).0 ≡ true)
        ↔ HasRule snap (rule_applies (str "Inbound") src_ip (some src) req) dst.security_groups
  unfolding sg_ingress_allows
  sg_ingress_allows_iff dst src_ip src = sg_verdict_iff snap _ dst.security_groups _
