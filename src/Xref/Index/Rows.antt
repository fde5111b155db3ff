-- ===== src/Xref/Index/Rows.antt =====
-- The rows that a where-used query answers.
use mathlib.Core.List.Memᴰ
use aws_explorer.Prelude.{
  ◌≡◌, ◌≢◌, refl, sym, ap, ◌∙◌, subst, ◌↔◌, ◌⊎◌, inl, inr, ⊎_elim, Bool, true, List, [], ◌∷◌, Memᴰ,
  map, arith, Bool-cases, Memᴰ-filter, Memᴰ-filter_of, Memᴰ-sort, Memᴰ-sort_of, sort, insert,
  Memᴰ-insert, any→Memᴰ, Memᴰ→any,
}
use aws_explorer.Go.Text.{Text, eq_text, eq_text_sound, eq_text_refl}
use aws_explorer.Go.Text.{member}
use aws_explorer.Xref.Types.{Target, Reference, Edge}
use aws_explorer.Xref.Index.{
  Index, stored, build_index, row_key, less_reference, sort_references, fresh, gathered, all_forms,
  where_used,
}
use aws_explorer.Xref.Index.Laws.{points_at, stored-build_index}

Memᴰ-map :
    {A B : Type 0} (f : A → B) (xs : List A) {y : B}
    → Memᴰ y (map f xs)
    → (x : A) × Memᴰ x xs × (f x ≡ y)
Memᴰ-map f [] m = absurd (Memᴰ.not-nil m)
Memᴰ-map f (x ∷ xs) m =
    ⊎_elim (λ q. (x, Memᴰ.head refl, sym q))
      (λ t. let (z, t', e) = Memᴰ-map f xs t in (z, Memᴰ.tail t', e)) (Memᴰ.cases_cons m)

pub member→Memᴰ : (k : Text) (xs : List Text) → member k xs ≡ true → Memᴰ k xs
unfolding member
member→Memᴰ k xs h =
    let (x, m, e) = any→Memᴰ (λ x. eq_text x k) xs h in
    subst (λ w. Memᴰ w xs) (eq_text_sound x k e) m

Memᴰ→member : (k : Text) (xs : List Text) → Memᴰ k xs → member k xs ≡ true
unfolding member
Memᴰ→member k xs m = Memᴰ→any (λ x. eq_text x k) xs m (eq_text_refl k)

fresh-sub :
    (seen : List Text) (rs : List Reference) {r : Reference} → Memᴰ r (fresh seen rs).0 → Memᴰ r rs
unfolding fresh
fresh-sub seen [] m = m
fresh-sub seen (x ∷ rs) m = elim (Bool-cases (member (row_key x) seen)) [
  | inl e ↦ Memᴰ.tail (fresh-sub seen rs (rw e at m))
  | inr e ↦
      ⊎_elim Memᴰ.head (λ t. Memᴰ.tail (fresh-sub (row_key x ∷ seen) rs t))
        (Memᴰ.cases_cons (rw e at m))
]

-- A row was seen before, or the answer has a row with its key.
abbrev pub HasKey : Text → List Reference → Type 0
HasKey k rs = (r : Reference) × Memᴰ r rs × (row_key r ≡ k)

HasKey-cons : {k : Text} {rs : List Reference} (x : Reference) → HasKey k rs → HasKey k (x ∷ rs)
HasKey-cons x (r, m, e) = (r, Memᴰ.tail m, e)

fresh_complete :
    (seen : List Text) (rs : List Reference) {r : Reference}
    → Memᴰ r rs
    → Memᴰ (row_key r) seen ⊎ HasKey (row_key r) (fresh seen rs).0
unfolding fresh
fresh_complete seen [] m = absurd (Memᴰ.not-nil m)
fresh_complete seen (x ∷ rs) {r} m = elim (Bool-cases (member (row_key x) seen)) [
  | inl e ↦ rw e (
      ⊎_elim (λ q. inl (subst (λ w. Memᴰ (row_key w) seen) (sym q) (member→Memᴰ _ seen e)))
        (fresh_complete seen rs) (Memᴰ.cases_cons m))
  | inr e ↦ rw e (
      ⊎_elim (λ q. inr (x, Memᴰ.head refl, ap row_key (sym q)))
        (λ t.
          ⊎_elim (λ s. ⊎_elim (λ q. inr (x, Memᴰ.head refl, sym q)) inl (Memᴰ.cases_cons s))
            (λ h. inr (HasKey-cons x h)) (fresh_complete (row_key x ∷ seen) rs t))
        (Memᴰ.cases_cons m))
]

-- The keys of the answer are new and distinct.
abbrev pub Distinct : List Reference → Type 0
Distinct [] = Unit
Distinct (r ∷ rs) = ((s : Reference) → Memᴰ s rs → row_key s ≢ row_key r) × Distinct rs

fresh-new :
    (seen : List Text) (rs : List Reference) (k : Text)
    → Memᴰ k seen
    → (r : Reference) → Memᴰ r (fresh seen rs).0
    → row_key r ≢ k
unfolding fresh
fresh-new seen [] k s r m q = Memᴰ.not-nil m
fresh-new seen (x ∷ rs) k s r m q = elim (Bool-cases (member (row_key x) seen)) [
  | inl e ↦ fresh-new seen rs k s r (rw e at m) q
  | inr e ↦
      ⊎_elim (λ w. ground (arith, Memᴰ→member k seen s, ap row_key w))
        (λ t. fresh-new (row_key x ∷ seen) rs k (Memᴰ.tail s) r t q) (Memᴰ.cases_cons (rw e at m))
]

pub fresh-Distinct : (seen : List Text) (rs : List Reference) → Distinct (fresh seen rs).0
unfolding fresh
fresh-Distinct seen [] = tt
fresh-Distinct seen (x ∷ rs) = elim (Bool-cases (member (row_key x) seen)) [
  | inl e ↦ rw e (fresh-Distinct seen rs)
  | inr e ↦ rw e (
    fresh-new (row_key x ∷ seen) rs (row_key x) (Memᴰ.head refl),
    fresh-Distinct (row_key x ∷ seen) rs,
  )
]

insert-Distinct :
    (less : Reference → Reference → Bool) (r : Reference) (rs : List Reference)
    → ((s : Reference) → Memᴰ s rs → row_key s ≢ row_key r)
    → Distinct rs
    → Distinct (insert less r rs)
unfolding insert
insert-Distinct less r [] new d = (new, d)
insert-Distinct less r (x ∷ rs) new d = elim (Bool-cases (less x r)) [
  | inl e ↦ rw e (
    λ s m q.
        ⊎_elim (λ w. new x (Memᴰ.head refl) (sym q ∙ ap row_key w)) (λ t. d.0 s t q)
          (Memᴰ-insert less r rs m),
    insert-Distinct less r rs (λ s m. new s (Memᴰ.tail m)) d.1,
  )
  | inr e ↦ rw e (new, d)
]

pub sort-Distinct :
    (less : Reference → Reference → Bool) (rs : List Reference)
    → Distinct rs
    → Distinct (sort less rs)
unfolding sort
sort-Distinct less [] d = d
sort-Distinct less (r ∷ rs) d =
    insert-Distinct less r (sort less rs) (λ s m. d.0 s (Memᴰ-sort less rs m))
      (sort-Distinct less rs d.1)

Memᴰ-gathered :
    (ks : List Text) (index : Index Reference) {r : Reference}
    → Memᴰ r (gathered ks index)
    → (k : Text) × Memᴰ k ks × Memᴰ r (stored k index)
unfolding gathered
Memᴰ-gathered [] index m = absurd (Memᴰ.not-nil m)
Memᴰ-gathered (k ∷ ks) index m =
    ⊎_elim (λ t. (k, Memᴰ.head refl, t))
      (λ t. let (j, a, b) = Memᴰ-gathered ks index t in (j, Memᴰ.tail a, b))
      (Memᴰ.append_cases (stored k index) m)

Memᴰ-gathered_of :
    (ks : List Text) (index : Index Reference) (k : Text) {r : Reference}
    → Memᴰ k ks
    → Memᴰ r (stored k index)
    → Memᴰ r (gathered ks index)
unfolding gathered
Memᴰ-gathered_of [] index k m h = absurd (Memᴰ.not-nil m)
Memᴰ-gathered_of (j ∷ ks) index k {r} m h =
    ⊎_elim (λ q. Memᴰ.append_left _ (subst (λ w. Memᴰ r (stored w index)) q h))
      (λ t. Memᴰ.append_right _ (Memᴰ-gathered_of ks index k t h)) (Memᴰ.cases_cons m)

-- The edge refers to the target: its target is one of the identifiers, in one of their two forms.
abbrev pub Refers : Target → Edge → Type 0
Refers t e = (k : Text) × Memᴰ k (all_forms t.identifiers) × (points_at k e.target ≡ true)

module _ (t : Target) (edges : List Edge) where
  abbrev answer : List Reference
  answer = (where_used t (build_index edges)).references

  row_of_edge :
      {r : Reference} → Memᴰ r answer → (e : Edge) × Memᴰ e edges × Refers t e × (e.source ≡ r)
  unfolding where_used sort_references
  row_of_edge {r} m =
      let (k, a, b) =
        Memᴰ-gathered (all_forms t.identifiers) (build_index edges)
          (fresh-sub [] _ (Memᴰ-sort less_reference _ m)) in
      let (e, c, q) = Memᴰ-map (λ e. e.source) _ (subst (Memᴰ r) (stored-build_index k edges) b) in
      let (d, p) = Memᴰ-filter (λ e. points_at k e.target) edges c in (e, d, (k, a, p), q)

  edge_has_row : (e : Edge) → Memᴰ e edges → Refers t e → HasKey (row_key e.source) answer
  unfolding where_used sort_references
  edge_has_row e m (k, a, p) =
      let b = subst (Memᴰ e.source) (sym (stored-build_index k edges)) (
        Memᴰ.map (λ (x : Edge). x.source) (Memᴰ-filter_of (λ x. points_at k x.target) edges m p)) in
      let found =
        fresh_complete [] _
          (Memᴰ-gathered_of (all_forms t.identifiers) (build_index edges) k a b) in
      ⊎_elim (λ s. absurd (Memᴰ.not-nil s)) (λ (r, c, q). (r, Memᴰ-sort_of less_reference _ c, q))
        found

  -- The rows of a where-used answer are exactly the rows of the edges that refer to the target: a
  -- row key stands in the answer if and only if some collected edge with that key refers to it.
  pub where_used_iff :
      (k : Text)
      → HasKey k answer ↔ ((e : Edge) × Memᴰ e edges × Refers t e × (row_key e.source ≡ k))
  where_used_iff k = (
    λ (r, m, q). let (e, a, b, c) = row_of_edge m in (e, a, b, ap row_key c ∙ q),
    λ (e, m, h, q). let (r, a, b) = edge_has_row e m h in (r, a, b ∙ q),
  )

  -- The rows of a where-used answer have distinct keys.
  pub where_used-Distinct : Distinct answer
  unfolding where_used sort_references
  where_used-Distinct =
      let found = gathered (all_forms t.identifiers) (build_index edges) in
      sort-Distinct less_reference (fresh [] found).0 (fresh-Distinct [] found)
