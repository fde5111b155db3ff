-- ===== src/Xref/Advice/Laws.antt =====
-- When a query is ambiguous.
use mathlib.Core.List.Memᴰ
use aws_explorer.Prelude.{
  ◌≡◌, ◌≢◌, refl, sym, ap, subst, ◌∙◌, ◌↔◌, inl, inr, ⊎_elim, true, false, ◌&&◌, ◌||◌, not, List,
  [], ◌∷◌, Memᴰ, arith, Bool-cases, Memᴰ-sort, Memᴰ-sort_of,
}
use aws_explorer.Go.Text.{
  Text, str, eq_text, eq_text_iff, eq_text_sound, less_text, trim_space, has_prefix, member,
  member_iff,
}
use aws_explorer.Xref.Types.{Edge}
use aws_explorer.Xref.Ident.{short_form}
use aws_explorer.Xref.Advice.{
  is_candidate, edge_ids, collect_candidates, at_least_two, ambiguous_candidates,
}

module _ (short : Text) where
  collected_iff :
      (ids seen : List Text) (v : Text)
      → Memᴰ v (collect_candidates short seen ids)
        ↔ (Memᴰ v ids × (is_candidate short v ≡ true) × (Memᴰ v seen → ⊥))
  unfolding collect_candidates
  collected_iff [] seen v = (λ m. absurd (Memᴰ.not-nil m), λ x. absurd (Memᴰ.not-nil x.0))
  collected_iff (id ∷ ids) seen v =
      elim (Bool-cases (is_candidate short id && not (member id seen))) [
        | inl e ↦
            let (f, g) = collected_iff ids (id ∷ seen) v in
            rw e (
              λ m.
                  ⊎_elim
                    (λ q. (
                      Memᴰ.head q,
                      ap (is_candidate short) q ∙ ground arith,
                      λ t.
                          let z = (member_iff id seen).1 (subst (λ w. Memᴰ w seen) q t) in
                          ground arith,
                    ))
                    (λ t. let (a, b, c) = f t in (Memᴰ.tail a, b, λ u. c (Memᴰ.tail u)))
                    (Memᴰ.cases_cons m),
              λ (a, b, c). elim (Bool-cases (eq_text v id)) [
                | inl q ↦ Memᴰ.head (eq_text_sound v id q)
                | inr q ↦
                    let n = λ (z : v ≡ id).
                      let y = (eq_text_iff v id).1 z in absurd {A = ⊥} (ground arith) in
                    Memᴰ.tail (
                      g (
                        ⊎_elim (λ z. absurd (n z)) (λ t. t) (Memᴰ.cases_cons a),
                        b,
                        λ t. ⊎_elim n c (Memᴰ.cases_cons t),
                      ))
              ],
            )
        | inr e ↦
            let (f, g) = collected_iff ids seen v in
            rw e (
              λ m. let (a, b, c) = f m in (Memᴰ.tail a, b, c),
              λ (a, b, c). g (
                ⊎_elim
                    (λ q. elim (Bool-cases (member id seen)) [
                      | inl z ↦
                          absurd (c (subst (λ w. Memᴰ w seen) (sym q) ((member_iff id seen).0 z)))
                      | inr z ↦ let y = ap (is_candidate short) q in absurd (ground arith)
                    ])
                    (λ t. t) (Memᴰ.cases_cons a),
                b,
                c,
              ),
            )
      ]

  first_two :
      (ids seen : List Text) (x y : Text) (rest : List Text)
      → collect_candidates short seen ids ≡ x ∷ y ∷ rest
      → x ≢ y
  unfolding collect_candidates
  first_two [] seen x y rest h q = ground arith
  first_two (id ∷ ids) seen x y rest h q =
      elim (Bool-cases (is_candidate short id && not (member id seen))) [
        | inr e ↦ first_two ids seen x y rest (rw e at h) q
        | inl e ↦
            let h' = rw e at h in
            let a : id ≡ x = ground arith in
            let b : collect_candidates short (id ∷ seen) ids ≡ y ∷ rest = ground arith in
            ((collected_iff ids (id ∷ seen) y).0 (subst (Memᴰ y) (sym b) (Memᴰ.head refl))).2
              (Memᴰ.head (sym (a ∙ q)))
      ]

-- A full identifier among the edges whose short form is that of the query.
pub record IsMatch (input : Text) (edges : List Edge) (id : Text) : Type 0 where
  pub is_endpoint : Memᴰ id (edge_ids edges)
  pub is_arn : has_prefix id (str "arn:") ≡ true
  pub same_short : short_form id ≡ short_form (trim_space input)

collected-IsMatch :
    (input : Text) (edges : List Edge) (id : Text)
    → Memᴰ id (collect_candidates (short_form (trim_space input)) [] (edge_ids edges))
      ↔ IsMatch input edges id
unfolding is_candidate
collected-IsMatch input edges id =
    let short = short_form (trim_space input) in
    let (f, g) = collected_iff short (edge_ids edges) [] id in
    let same = eq_text_iff (short_form id) short in
    (
      λ m.
          let (a, b, c) = f m in
          record { is_endpoint = a; is_arn = ground arith; same_short = same.0 (ground arith) },
      λ x. g (x.is_endpoint, rw (x.is_arn, same.1 x.same_short) refl, λ t. Memᴰ.not-nil t),
    )

at_least_two_iff :
    (xs : List Text) (id : Text)
    → ((x : Text) (y : Text) (rest : List Text) → xs ≡ x ∷ y ∷ rest → x ≢ y)
    → Memᴰ id (at_least_two xs) ↔ (Memᴰ id xs × ((other : Text) × Memᴰ other xs × (id ≢ other)))
unfolding at_least_two
at_least_two_iff [] id d = (λ m. absurd (Memᴰ.not-nil m), λ x. absurd (Memᴰ.not-nil x.0))
at_least_two_iff (x ∷ []) id d = (
  λ m. absurd (Memᴰ.not-nil m),
  λ (a, (other, b, n)). absurd (n (Memᴰ.eq_of_singleton a ∙ sym (Memᴰ.eq_of_singleton b))),
)
at_least_two_iff (x ∷ y ∷ rest) id d = (
  λ m. (
    Memᴰ-sort less_text (x ∷ y ∷ rest) m,
    elim (Bool-cases (eq_text id x)) [
      | inl e ↦
          (y, Memᴰ.tail (Memᴰ.head refl), λ q. d x y rest refl (sym (eq_text_sound id x e) ∙ q))
      | inr e ↦ (x, Memᴰ.head refl, λ q. ground (arith, (eq_text_iff id x).1 q))
    ],
  ),
  λ x'. Memᴰ-sort_of less_text (x ∷ y ∷ rest) x'.0,
)

-- A query is told of an identifier if and only if the query is not empty and no ARN, the identifier
-- matches it, and so does another one.
pub ambiguous_candidates_iff :
    (input : Text) (edges : List Edge) (id : Text)
    → Memᴰ id (ambiguous_candidates input edges) ↔ (
        (trim_space input ≢ [])
        × (has_prefix (trim_space input) (str "arn:") ≡ false)
        × IsMatch input edges id
        × ((other : Text) × IsMatch input edges other × (id ≢ other)))
unfolding ambiguous_candidates
ambiguous_candidates_iff input edges id =
    let query = trim_space input in
    let set = collect_candidates (short_form query) [] (edge_ids edges) in
    let (f, g) =
      at_least_two_iff set id
        (λ x y rest h. first_two (short_form query) (edge_ids edges) [] x y rest h) in
    let bare = eq_text_iff query [] in
    elim (Bool-cases (eq_text query [] || has_prefix query (str "arn:"))) [
      | inl e ↦ rw e (
        λ m. absurd (Memᴰ.not-nil m),
        λ (a, b, c, d).
            let z = λ (t : eq_text query [] ≡ true). a (bare.0 t) in absurd {A = _} (ground arith),
      )
      | inr e ↦ rw e (
        λ m.
            let (a, (other, b, n)) = f m in
            (
              λ z. let y = bare.1 z in ground arith,
              ground arith,
              (collected-IsMatch input edges id).0 a,
              (other, (collected-IsMatch input edges other).0 b, n),
            ),
        λ (a, b, c, (other, m, n)). g (
          (collected-IsMatch input edges id).1 c,
          (other, (collected-IsMatch input edges other).1 m, n),
        ),
      )
    ]
