-- ===== src/Security/Ports.antt =====
-- Which groups `checkSecGroups` has nothing to say about.
use mathlib.Core.List.Memᴰ
use aws_explorer.Prelude.{
  ℕ, ltb, ◌≡◌, refl, sym, subst, ◌↔◌, ◌⊎◌, inl, inr, ⊎_elim, Bool, true, false, ◌&&◌, not, List, [],
  ◌∷◌, map, Memᴰ, arith, Bool-cases, any, filter, Memᴰ-filter, Memᴰ-filter_of, flat_map_nil,
  map_nil, nil_of, nil_not, sort_nil,
}
use aws_explorer.Go.Text.{Text, str, eq_text, eq_text_iff, to_lower}
use aws_explorer.Go.Number.{pos, is_neg, leb_int}
use aws_explorer.Security.Types.{SecSgRule, SecGroup}
use aws_explorer.Security.Groups.{
  sensitive_ports, covers_port, open_sensitive_ports, opened_by, report_ports,
}

-- a TCP rule, or one for every protocol, whose range has the port or is unset
abbrev pub Opens : SecSgRule → ℕ → Type 0
Opens r port =
    ((to_lower r.protocol ≡ str "tcp")
      ⊎ (to_lower r.protocol ≡ str "-1")
      ⊎ (to_lower r.protocol ≡ []))
    × ((to_lower r.protocol ≡ str "-1")
        ⊎ ((is_neg r.from_port ≡ true) × (is_neg r.to_port ≡ true))
        ⊎ ((leb_int r.from_port (pos port) ≡ true) × (leb_int (pos port) r.to_port ≡ true)))

opens_iff :
    (r : SecSgRule) (port : ℕ)
    → (covers_port (to_lower r.protocol) r port ≡ true) ↔ (
        (to_lower r.protocol ≡ str "-1")
        ⊎ ((is_neg r.from_port ≡ true) × (is_neg r.to_port ≡ true))
        ⊎ ((leb_int r.from_port (pos port) ≡ true) × (leb_int (pos port) r.to_port ≡ true)))
unfolding covers_port
opens_iff r port = ground (arith, eq_text_iff (to_lower r.protocol) (str "-1"))

filter_nil {ℓ} :
    {A : Type ℓ} (p : A → Bool) (xs : List A)
    → (filter p xs ≡ []) ↔ ((x : A) → Memᴰ x xs → p x ≡ false)
filter_nil p xs = (
  λ e x m. elim (Bool-cases (p x)) [
    | inr q ↦ q
    | inl q ↦ absurd (nil_not (filter p xs) e (Memᴰ-filter_of p xs m q))
  ],
  λ h. nil_of (filter p xs) (λ x m. let (m', q) = Memᴰ-filter p xs m in ground (arith, h x m')),
)

is_open_proto :
    (proto : Text)
    → not (eq_text proto (str "tcp")) && not (eq_text proto (str "-1")) && not (eq_text proto [])
      ≡ false
    → (proto ≡ str "tcp") ⊎ (proto ≡ str "-1") ⊎ (proto ≡ [])
is_open_proto proto e =
    ground
      (arith, eq_text_iff proto (str "tcp"), eq_text_iff proto (str "-1"), eq_text_iff proto [])

no_ports_iff :
    (r : SecSgRule)
    → (open_sensitive_ports r ≡ []) ↔ ((p : ℕ × Text) → Memᴰ p sensitive_ports → Opens r p.0 → ⊥)
unfolding open_sensitive_ports
no_ports_iff r =
    let proto = to_lower r.protocol in
    let ports = map (λ (p : ℕ × Text). p.0) sensitive_ports in
    let (f, g) = sort_nil ltb (filter (covers_port proto r) ports) in
    let (f', g') = filter_nil (covers_port proto r) ports in
    let tcp = eq_text_iff proto (str "tcp") in
    let every = eq_text_iff proto (str "-1") in
    let unset = eq_text_iff proto [] in
    elim (Bool-cases (
      not (eq_text proto (str "tcp"))
      && not (eq_text proto (str "-1"))
      && not (eq_text proto []))) [
        | inl e ↦ rw e (
          λ h p m o.
              ⊎_elim (λ q. ground (arith, tcp.1 q))
                (⊎_elim (λ q. ground (arith, every.1 q)) (λ q. ground (arith, unset.1 q))) o.0,
          λ h. refl,
        )
        | inr e ↦ rw e (
          λ h p m o.
              let c = (opens_iff r p.0).1 o.1 in
              let d = f' (f h) p.0 (Memᴰ.map (λ (p : ℕ × Text). p.0) m) in ground (arith, c, d),
          λ h. g (
              g' (λ x m.
                let (p, m', q) = Memᴰ.of_map (λ (p : ℕ × Text). p.0) sensitive_ports m in
                elim (Bool-cases (covers_port proto r x)) [
                  | inr z ↦ z
                  | inl z ↦ absurd (
                      h p m' (
                        is_open_proto proto e,
                        (opens_iff r p.0).0 (subst (λ w. covers_port proto r w ≡ true) (sym q) z),
                      ))
                ])),
        )
      ]

report_nil :
    (region : Text) (sg : SecGroup) (ps : List (SecSgRule × ℕ))
    → (report_ports region sg [] ps ≡ []) ↔ (ps ≡ [])
unfolding report_ports any
report_nil region sg [] = (λ e. refl, λ e. refl)
report_nil region sg ((r, p) ∷ ps) = (λ e. ground arith, λ e. ground arith)

abbrev pub IsCleanGroup : SecGroup → Type 0
IsCleanGroup sg =
    (r : SecSgRule) → Memᴰ r sg.rules → (p : ℕ × Text) → Memᴰ p sensitive_ports → Opens r p.0 → ⊥

pub group_nil :
    (region : Text) (sg : SecGroup)
    → (report_ports region sg [] (opened_by sg.rules) ≡ []) ↔ IsCleanGroup sg
unfolding opened_by
group_nil region sg =
    let (f, g) = report_nil region sg (opened_by sg.rules) in
    let (f', g') = flat_map_nil (λ r. map (λ p. (r, p)) (open_sensitive_ports r)) sg.rules in
    (
      λ e r m.
          (no_ports_iff r).0 ((map_nil (λ p. (r, p)) (open_sensitive_ports r)).0 (f' (f e) r m)),
      λ h. g (
          g' (λ r m.
            (map_nil (λ p. (r, p)) (open_sensitive_ports r)).1 ((no_ports_iff r).1 (h r m)))),
    )
