-- ===== src/Vpc/Exposure/Laws.antt =====
-- When the exposure report speaks of reachable interfaces.
use mathlib.Core.List.Memᴰ
use aws_explorer.Prelude.{
  ◌≡◌, ◌≢◌, refl, ap, subst, ◌↔◌, inl, inr, ⊎_elim, true, false, ◌||◌, not, Option, none, some,
  List, [], ◌∷◌, Memᴰ, arith, Bool-cases, any, any→Memᴰ, Memᴰ→any, flat_map, Memᴰ-flat_map,
  Memᴰ-flat_map_of, nil_not, sort_nil,
}
use aws_explorer.Go.Text.{Text, str, less_text, eq_text, eq_text_iff, has_prefix, member}
use aws_explorer.Vpc.Types.{Snapshot, SgRule, SgInfo, EniInfo, Route, RouteTableInfo}
use aws_explorer.Vpc.Lookup.{find_sg, effective_route_table}
use aws_explorer.Vpc.Explain.{is_public_source, describe_proto_ports}
use aws_explorer.Vpc.Findings.Groups.{is_inbound}
use aws_explorer.Vpc.Findings.Routes.{is_blackhole, is_default_route, has_default_route, has_igw}
use aws_explorer.Vpc.Exposure.{
  add_phrases, rules_in, public_inbound_ports, eni_label, with_ports, reachable_eni,
}

-- a rule that admits the internet
abbrev pub IsPublicRule : SgRule → Type 0
IsPublicRule r = (is_inbound r ≡ true) × (is_public_source r.source ≡ true)

-- an active default route to an internet gateway
abbrev pub IsIgwRoute : Route → Type 0
IsIgwRoute r =
    (r.destination ≡ str "0.0.0.0/0")
    × (is_blackhole r ≡ false)
    × (has_prefix r.target (str "igw-") ≡ true)

-- The three ingredients of exposure.
pub record IsReachable (snap : Snapshot) (e : EniInfo) : Type 0 where
  pub has_public_ip : e.public_ip ≢ []
  pub table : RouteTableInfo
  pub route : Route
  pub is_table : effective_route_table snap e.subnet_id ≡ some table
  pub in_table : Memᴰ route table.routes
  pub is_igw_route : IsIgwRoute route
  pub group : Text
  pub info : SgInfo
  pub rule : SgRule
  pub attached : Memᴰ group e.security_groups
  pub is_group : find_sg snap group ≡ some info
  pub in_group : Memᴰ rule info.rules
  pub is_public : IsPublicRule rule

-- phrases are never dropped
add_phrases_keeps : (rs : List SgRule) (ports : List Text) → ports ≢ [] → add_phrases rs ports ≢ []
unfolding add_phrases
add_phrases_keeps [] ports h = h
add_phrases_keeps (r ∷ rs) ports h =
    elim (Bool-cases (not (is_inbound r) || not (is_public_source r.source))) [
      | inl c ↦ rw c (add_phrases_keeps rs ports h)
      | inr c ↦
          elim (Bool-cases (not (member (describe_proto_ports r.protocol r.port_range) ports))) [
            | inl d ↦
                rw (c, d)
                  (add_phrases_keeps rs _ (λ e. nil_not _ e (
                    Memᴰ.append_right ports {t = describe_proto_ports r.protocol r.port_range ∷ []}
                      (Memᴰ.head refl))))
            | inr d ↦ rw (c, d) (add_phrases_keeps rs ports h)
          ]
    ]

member_nil : (p : Text) → member p [] ≡ false
unfolding member any
member_nil p = refl

add_phrases_iff :
    (rs : List SgRule) → (add_phrases rs [] ≢ []) ↔ ((r : SgRule) × Memᴰ r rs × IsPublicRule r)
unfolding add_phrases
add_phrases_iff [] = (λ h. absurd (h refl), λ (r, m, p). absurd (Memᴰ.not-nil m))
add_phrases_iff (r ∷ rs) =
    elim (Bool-cases (not (is_inbound r) || not (is_public_source r.source))) [
      | inl c ↦
          let (f, g) = add_phrases_iff rs in
          rw c (
            λ h. let (s, m, p) = f h in (s, Memᴰ.tail m, p),
            λ (s, m, p).
                ⊎_elim
                  (λ q.
                    let a = ap is_inbound q in
                    let b = ap (λ (x : SgRule). is_public_source x.source) q in
                    absurd (ground (arith, p.0, p.1)))
                  (λ t. g (s, t, p)) (Memᴰ.cases_cons m),
          )
      | inr c ↦
          rw (c, member_nil (describe_proto_ports r.protocol r.port_range))
            (
              λ h. (r, Memᴰ.head refl, (ground arith, ground arith)),
              λ x. add_phrases_keeps rs _ (λ e. nil_not _ e (Memᴰ.head refl)),
            )
    ]

of_rules_in :
    (o : Option SgInfo) {r : SgRule}
    → Memᴰ r (rules_in o)
    → (sg : SgInfo) × (o ≡ some sg) × Memᴰ r sg.rules
unfolding rules_in
of_rules_in none m = absurd (Memᴰ.not-nil m)
of_rules_in (some sg) m = (sg, refl, m)

in_rules :
    (o : Option SgInfo) {sg : SgInfo} {r : SgRule}
    → o ≡ some sg
    → Memᴰ r sg.rules
    → Memᴰ r (rules_in o)
unfolding rules_in
in_rules o e m = rw e m

ports_iff :
    (snap : Snapshot) (ids : List Text)
    → (public_inbound_ports snap ids ≢ []) ↔ (
        (id : Text) × (sg : SgInfo) × (r : SgRule) × Memᴰ id ids
        × (find_sg snap id ≡ some sg)
        × Memᴰ r sg.rules
        × IsPublicRule r)
unfolding public_inbound_ports
ports_iff snap ids =
    let (f, g) =
      sort_nil less_text (add_phrases (flat_map (λ id. rules_in (find_sg snap id)) ids) []) in
    let (f', g') = add_phrases_iff (flat_map (λ id. rules_in (find_sg snap id)) ids) in
    (
      λ h.
          let (r, m, p) = f' (λ e. h (g e)) in
          let (id, a, t) = Memᴰ-flat_map (λ id. rules_in (find_sg snap id)) ids m in
          let (sg, e, t') = of_rules_in (find_sg snap id) t in (id, sg, r, a, e, t', p),
      λ (id, sg, r, a, e, t, p) q.
          g'
            (
              r,
              Memᴰ-flat_map_of (λ id. rules_in (find_sg snap id)) ids a
                  (in_rules (find_sg snap id) e t),
              p,
            )
            (f q),
    )

igw_iff :
    (o : Option RouteTableInfo)
    → (has_igw o ≡ true)
      ↔ ((rt : RouteTableInfo) × (r : Route) × (o ≡ some rt) × Memᴰ r rt.routes × IsIgwRoute r)
unfolding has_igw has_default_route is_default_route any
igw_iff none = (λ h. ground arith, λ (rt, r, e, m, p). ground arith)
igw_iff (some rt) =
    let test = is_default_route (str "0.0.0.0/0") (str "igw-" ∷ []) in
    (
      λ h.
          let (r, m, e) = any→Memᴰ test rt.routes h in
          (
            rt,
            r,
            refl,
            m,
            (
              (eq_text_iff r.destination (str "0.0.0.0/0")).0 (ground arith),
              ground arith,
              ground arith,
            ),
          ),
      λ (rt', r, e, m, p).
          let q : rt' ≡ rt = ground arith in
          let d = (eq_text_iff r.destination (str "0.0.0.0/0")).1 p.0 in
          Memᴰ→any test rt.routes (subst (λ (w : RouteTableInfo). Memᴰ r w.routes) q m)
            (rw (d, p.1, p.2) refl),
    )

with_ports_nil : (label : Text) (ports : List Text) → (with_ports label ports ≡ []) ↔ (ports ≡ [])
unfolding with_ports
with_ports_nil label [] = (λ e. refl, λ e. refl)
with_ports_nil label (p ∷ ports) = (λ e. ground arith, λ e. ground arith)

pub reachable_eni_iff :
    (snap : Snapshot) (e : EniInfo) → (reachable_eni snap e ≢ []) ↔ IsReachable snap e
unfolding reachable_eni eq_text
reachable_eni_iff snap e =
    let (f, g) = igw_iff (effective_route_table snap e.subnet_id) in
    let (f', g') = ports_iff snap e.security_groups in
    let (f'', g'') = with_ports_nil (eni_label e) (public_inbound_ports snap e.security_groups) in
    let ip = eq_text_iff e.public_ip [] in
    (
      λ h. elim (Bool-cases (eq_text e.public_ip [])) [
        | inl a ↦ absurd (h (rw a refl))
        | inr a ↦ elim (Bool-cases (has_igw (effective_route_table snap e.subnet_id))) [
          | inr b ↦ absurd (h (rw (a, b) refl))
          | inl b ↦
              let (rt, r, q, m, p) = f b in
              let (id, sg, s, c, d, t, u) = f' (λ z. h (rw (a, b) (g'' z))) in
              record {
                has_public_ip = λ z. ground (arith, ip.1 z);
                table = rt;
                route = r;
                is_table = q;
                in_table = m;
                is_igw_route = p;
                group = id;
                info = sg;
                rule = s;
                attached = c;
                is_group = d;
                in_group = t;
                is_public = u;
              }
        ]
      ],
      λ x z. elim (Bool-cases (eq_text e.public_ip [])) [
        | inl a ↦ x.has_public_ip (ip.0 a)
        | inr a ↦
            let b = g (x.table, x.route, x.is_table, x.in_table, x.is_igw_route) in
            g' (x.group, x.info, x.rule, x.attached, x.is_group, x.in_group, x.is_public)
              (f'' (rw (a, b) at z))
      ],
    )
