-- ===== src/Xref/Index/Laws.antt =====
-- What the indexes hold.
use aws_explorer.Prelude.{
  ◌≡◌, refl, sym, ap, ◌∙◌, inl, inr, Bool, ◌&&◌, ◌||◌, not, List, [], ◌∷◌, ◌++◌, append_assoc,
  append-nil, map, filter, if◌then◌else◌, arith, Bool-cases,
}
use aws_explorer.Go.Text.{Text, eq_text, eq_text_iff}
use aws_explorer.Xref.Types.{Edge}
use aws_explorer.Xref.Ident.{short_form}
use aws_explorer.Xref.Index.{
  Index, stored, append_at, add, add_forms, index_edges, build_index, build_forward_index,
}

-- An identifier is found under a key that is not empty: itself or its short form.
unfoldable pub points_at : Text → Text → Bool
points_at j id = not (eq_text j []) && (eq_text id j || eq_text (short_form id) j)

module _ {V : Type 0} where
  stored-append_at :
      (j k : Text) (v : V) (m : Index V)
      → stored j (append_at k v m) ≡ (if eq_text k j then stored j m ++ v ∷ [] else stored j m)
  unfolding stored append_at
  stored-append_at j k v [] = refl
  stored-append_at j k v ((i, vs) ∷ m) =
      ground (arith, eq_text_iff k j, eq_text_iff i k, eq_text_iff i j, stored-append_at j k v m)

  stored-add :
      (j k : Text) (v : V) (m : Index V)
      → stored j (add k v m)
        ≡ (if not (eq_text k []) && eq_text k j then stored j m ++ v ∷ [] else stored j m)
  unfolding add
  stored-add j k v m = ground (arith, stored-append_at j k v m)

  stored-add_forms :
      (j id : Text) (v : V) (m : Index V)
      → stored j (add_forms id v m) ≡ (if points_at j id then stored j m ++ v ∷ [] else stored j m)
  unfolding add_forms points_at
  stored-add_forms j id v m = ground (
    arith,
    stored-add j id v m,
    stored-add j (short_form id) v (add id v m),
    eq_text_iff (short_form id) id,
    eq_text_iff id j,
    eq_text_iff (short_form id) j,
    eq_text_iff id [],
    eq_text_iff (short_form id) [],
    eq_text_iff j [],
  )

  stored-index_edges :
      (key : Edge → Text) (value : Edge → V) (j : Text) (m : Index V) (es : List Edge)
      → stored j (index_edges key value m es)
        ≡ stored j m ++ map value (filter (λ e. points_at j (key e)) es)
  unfolding index_edges filter
  stored-index_edges key value j m [] = sym (append-nil _)
  stored-index_edges key value j m (e ∷ es) =
      let ih = stored-index_edges key value j (add_forms (key e) (value e) m) es in
      elim (Bool-cases (points_at j (key e))) [
        | inl p ↦
            rw (ih, stored-add_forms j (key e) (value e) m, p)
              (append_assoc (stored j m) (value e ∷ []) _)
        | inr p ↦ rw (ih, stored-add_forms j (key e) (value e) m, p) refl
      ]

map-id : {A : Type 0} (xs : List A) → map (λ x. x) xs ≡ xs
map-id [] = refl
map-id (x ∷ xs) = ap (◌∷◌ x) (map-id xs)

-- Under a key the reverse index holds the sources of exactly the edges whose target, or its short
-- form, is the key, in the order of collection.
pub stored-build_index :
    (j : Text) (edges : List Edge)
    → stored j (build_index edges) ≡ map (λ e. e.source) (filter (λ e. points_at j e.target) edges)
unfolding build_index stored
stored-build_index j edges = stored-index_edges (λ e. e.target) (λ e. e.source) j [] edges

-- Under a key the forward index holds exactly the edges whose source, or its short form, is the key,
-- in the order of collection.
pub stored-build_forward_index :
    (j : Text) (edges : List Edge)
    → stored j (build_forward_index edges) ≡ filter (λ e. points_at j e.source.id) edges
unfolding build_forward_index stored
stored-build_forward_index j edges =
    stored-index_edges (λ e. e.source.id) (λ e. e) j [] edges ∙ map-id _
