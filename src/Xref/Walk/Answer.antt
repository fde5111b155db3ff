-- ===== src/Xref/Walk/Answer.antt =====
-- What `Related` answers over the indexes of collected edges.
use mathlib.Core.List.Memᴰ
use aws_explorer.Prelude.{
  ℕ, zero, suc, ◌≡◌, refl, sym, subst, ⊎_elim, Bool, true, false, List, [], ◌∷◌, Memᴰ, map, arith,
  Memᴰ-filter_of,
}
use aws_explorer.Go.Text.{Text}
use aws_explorer.Go.Number.{ℤ, pos, negsuc}
use aws_explorer.Xref.Types.{Edge, RelatedResult}
use aws_explorer.Xref.Ident.{forms, query_identifiers}
use aws_explorer.Xref.Kinds.{target_reference}
use aws_explorer.Xref.Index.{Index, stored, gathered, build_index, build_forward_index, all_forms}
use aws_explorer.Xref.Index.Laws.{points_at, stored-build_index, stored-build_forward_index}
use aws_explorer.Xref.Walk.{
  Hop, is_start, join_path, dedupe_key, forward_hop, reverse_hop, lookup_edges, lookup_refs,
  walk_links, walk_forward, walk_reverse, at_least_one, related,
}
use aws_explorer.Xref.Walk.Direct.{IsListed, walk_links-IsListed}

at_least_one-suc : (d : ℤ) → (n : ℕ) × (at_least_one d ≡ suc n)
unfolding at_least_one
at_least_one-suc (negsuc n) = (0, refl)
at_least_one-suc (pos zero) = (0, refl)
at_least_one-suc (pos (suc n)) = (n, ground arith)

Memᴰ-gathered_of :
    {V : Type 0} (ks : List Text) (index : Index V) (k : Text) {v : V}
    → Memᴰ k ks
    → Memᴰ v (stored k index)
    → Memᴰ v (gathered ks index)
unfolding gathered
Memᴰ-gathered_of [] index k m h = absurd (Memᴰ.not-nil m)
Memᴰ-gathered_of (j ∷ ks) index k {v} m h =
    ⊎_elim (λ q. Memᴰ.append_left _ (subst (λ w. Memᴰ v (stored w index)) q h))
      (λ t. Memᴰ.append_right _ (Memᴰ-gathered_of ks index k t h)) (Memᴰ.cases_cons m)

-- An identifier of the query, in one of its forms, is a key that an edge's end is stored under.
abbrev pub Touches : Text → Text → Type 0
Touches input id =
    (s : Text) × (k : Text) × Memᴰ s (query_identifiers input)
    × Memᴰ k (forms s)
    × (points_at k id ≡ true)

module _ (input : Text) (edges : List Edge) (max_depth : ℤ) (all_paths : Bool) (e : Edge) where
  abbrev starts : List Text
  starts = query_identifiers input

  abbrev answer : RelatedResult
  answer = related input (build_forward_index edges) (build_index edges) max_depth all_paths

  -- A walk to a depth of at least one lists a hop from a start.
  direct_row :
      (hops : Text → List Hop) (s : Text) (h : Hop)
      → Memᴰ s starts
      → Memᴰ h (hops s)
      → is_start (all_forms starts) h.id ≡ false
      → IsListed all_paths
          (dedupe_key all_paths h.reference (join_path [] h.via))
          (walk_links hops starts (at_least_one max_depth) all_paths)
  direct_row hops s h m i o =
      let (n, q) = at_least_one-suc max_depth in
      subst
        (λ d.
          IsListed all_paths (dedupe_key all_paths h.reference (join_path [] h.via))
            (walk_links hops starts d all_paths))
        (sym q) (walk_links-IsListed hops starts all_paths n s h m i o)

  -- Every resource that references the queried one is listed among its users, whatever depth is
  -- asked for, unless it is a form of the queried one itself.
  pub related-used_by :
      Memᴰ e edges
      → Touches input e.target
      → is_start (all_forms (query_identifiers input)) e.source.id ≡ false
      → IsListed all_paths
          (dedupe_key all_paths e.source (join_path [] e.source.via))
          (related input
            (build_forward_index edges)
            (build_index edges)
            max_depth
            all_paths).used_by
  unfolding related walk_reverse reverse_hop lookup_refs
  related-used_by m (s, k, a, b, p) o =
      let stored_row = subst (Memᴰ e.source) (sym (stored-build_index k edges)) (
        Memᴰ.map (λ (x : Edge). x.source) (Memᴰ-filter_of (λ x. points_at k x.target) edges m p)) in
      direct_row (λ id. map reverse_hop (lookup_refs (build_index edges) id)) s
        (reverse_hop e.source) a
        (Memᴰ.map reverse_hop (Memᴰ-gathered_of (forms s) (build_index edges) k b stored_row)) o

  -- Every resource that the queried one references is listed among those it uses, whatever depth is
  -- asked for, unless it is a form of the queried one itself.
  pub related-uses :
      Memᴰ e edges
      → Touches input e.source.id
      → is_start (all_forms (query_identifiers input)) e.target ≡ false
      → IsListed all_paths
          (dedupe_key all_paths (target_reference e) (join_path [] e.source.via))
          (related input (build_forward_index edges) (build_index edges) max_depth all_paths).uses
  unfolding related walk_forward forward_hop lookup_edges
  related-uses m (s, k, a, b, p) o =
      let stored_edge =
        subst (Memᴰ e) (sym (stored-build_forward_index k edges))
          (Memᴰ-filter_of (λ x. points_at k x.source.id) edges m p) in
      direct_row (λ id. map forward_hop (lookup_edges (build_forward_index edges) id)) s
        (forward_hop e) a
        (Memᴰ.map forward_hop
          (Memᴰ-gathered_of (forms s) (build_forward_index edges) k b stored_edge))
        o
