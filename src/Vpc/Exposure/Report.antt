-- ===== src/Vpc/Exposure/Report.antt =====
-- The first group of the exposure report.
use mathlib.Core.List.Memᴰ
use aws_explorer.Prelude.{
  ◌≡◌, ◌≢◌, refl, sym, ap, subst, ◌↔◌, inl, inr, ⊎_elim, true, false, not, List, [], ◌∷◌, Memᴰ,
  arith, List-cases, filter, Memᴰ-filter, Memᴰ-filter_of, flat_map, Memᴰ-flat_map, Memᴰ-flat_map_of,
  sort, sort_nil, nil_not, map,
}
use aws_explorer.Go.Text.{Text, str, less_text, eq_text, eq_text_iff}
use aws_explorer.Vpc.Types.{Snapshot, EniInfo}
use aws_explorer.Vpc.Findings.Types.{subnet_label}
use aws_explorer.Vpc.CrossReference.Groups.{XrefGroup, has_items, is_nonempty}
use aws_explorer.Vpc.Exposure.{
  eni_label, has_public_route, open_group, reachable_eni, reachable_label, exposure_report,
}
use aws_explorer.Vpc.Exposure.Laws.{IsReachable, reachable_eni_iff}

nonempty : (ts : List Text) → (is_nonempty ts ≡ true) ↔ (ts ≢ [])
unfolding is_nonempty
nonempty [] = (λ e. ground arith, λ h. absurd (h refl))
nonempty (t ∷ ts) = (λ e z. ground arith, λ h. refl)

some-IsReachable :
    (snap : Snapshot) (es : List EniInfo)
    → (sort less_text (flat_map (reachable_eni snap) es) ≢ [])
      ↔ ((e : EniInfo) × Memᴰ e es × IsReachable snap e)
some-IsReachable snap es =
    let (f, g) = sort_nil less_text (flat_map (reachable_eni snap) es) in
    (
      λ h. elim (List-cases (flat_map (reachable_eni snap) es)) [
        | inl z ↦ absurd (h (g z))
        | inr (t, ts, z) ↦
            let (e, m, u) =
              Memᴰ-flat_map (reachable_eni snap) es (subst (Memᴰ t) (sym z) (Memᴰ.head refl)) in
            (e, m, (reachable_eni_iff snap e).0 (λ n. nil_not (reachable_eni snap e) n u))
      ],
      λ (e, m, x) z. elim (List-cases (reachable_eni snap e)) [
        | inl n ↦ (reachable_eni_iff snap e).1 x n
        | inr (t, ts, n) ↦
            nil_not (flat_map (reachable_eni snap) es) (f z)
              (Memᴰ-flat_map_of (reachable_eni snap) es m (subst (Memᴰ t) (sym n) (Memᴰ.head refl)))
      ],
    )

-- the four groups of the report
groups_of : List Text → List Text → List Text → List Text → List XrefGroup
groups_of a b c d =
    record { label = reachable_label; items = a }
    ∷ record { label = str "Public subnets (route to an internet gateway)"; items = b }
    ∷ record {
      label = str "Security groups open to the internet (inbound from 0.0.0.0/0)";
      items = c;
    }
    ∷ record { label = str "Network interfaces with a public IP"; items = d }
    ∷ []

label_not :
    (x y : XrefGroup) → eq_text y.label reachable_label ≡ false → x.label ≡ reachable_label → x ≢ y
label_not x y n l e =
    ground (arith, eq_text_iff y.label reachable_label, ap (λ (w : XrefGroup). w.label) e)

first_items :
    (x : XrefGroup) (a b c d : List Text)
    → Memᴰ x (groups_of a b c d)
    → x.label ≡ reachable_label
    → has_items x ≡ true
    → a ≢ []
unfolding groups_of str eq_text has_items
first_items x a b c d m l h =
    ⊎_elim (λ q. (nonempty a).0 (subst (λ (w : XrefGroup). is_nonempty w.items ≡ true) q h))
      (λ m₁.
        ⊎_elim (λ q. absurd (label_not x _ refl l q))
          (λ m₂.
            ⊎_elim (λ q. absurd (label_not x _ refl l q))
              (λ m₃. absurd (label_not x _ refl l (Memᴰ.eq_of_singleton m₃))) (Memᴰ.cases_cons m₂))
          (Memᴰ.cases_cons m₁))
      (Memᴰ.cases_cons m)

shown :
    (a b c d : List Text)
    → ((g : XrefGroup) × Memᴰ g (filter has_items (groups_of a b c d))
        × (g.label ≡ reachable_label))
      ↔ (a ≢ [])
unfolding groups_of has_items
shown a b c d = (
  λ (x, m, l).
      let (m', e) = Memᴰ-filter has_items (groups_of a b c d) m in first_items x a b c d m' l e,
  λ h. (
    record { label = reachable_label; items = a },
    Memᴰ-filter_of has_items (groups_of a b c d) (Memᴰ.head refl) ((nonempty a).1 h),
    refl,
  ),
)

-- The exposure report has its group of reachable interfaces if and only if some interface of the
-- snapshot has a public IP, its subnet an active default route to an internet gateway, and one of
-- its security groups an inbound rule that admits the internet.
pub exposure_report_iff :
    (snap : Snapshot)
    → ((g : XrefGroup) × Memᴰ g (exposure_report snap) × (g.label ≡ reachable_label))
      ↔ ((e : EniInfo) × Memᴰ e snap.network_interfaces × IsReachable snap e)
unfolding exposure_report has_items groups_of
exposure_report_iff snap =
    let (f, g) = some-IsReachable snap snap.network_interfaces in
    let (f', g') =
      shown (sort less_text (flat_map (reachable_eni snap) snap.network_interfaces))
        (sort less_text (map subnet_label (filter (has_public_route snap) snap.subnets)))
        (sort less_text (flat_map open_group snap.security_groups))
        (sort less_text
          (map eni_label (filter (λ e. not (eq_text e.public_ip [])) snap.network_interfaces))) in
    (λ x. f (f' x), λ x. g' (g x))
