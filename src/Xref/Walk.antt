-- ===== src/Xref/Walk.antt =====
-- The breadth-first walks of internal/xref/related.go. `walkForward` and `walkReverse` are one loop,
-- over what a node of the frontier leads to.
pub mod Chain
pub mod Direct
pub mod Answer
use aws_explorer.Prelude.{
  ℕ, zero, suc, ◌+◌, Bool, true, false, ◌&&◌, ◌||◌, not, Option, none, some, List, [], ◌∷◌, ◌++◌,
  if◌then◌else◌, ◌==◌, ltb, sort, map, any,
}
use aws_explorer.Go.Text.{Text, str, eq_text, trim_space, cat}
use aws_explorer.Go.Number.{ℤ, pos, negsuc}
use aws_explorer.Go.Text.{member}
use aws_explorer.Xref.Types.{Target, Reference, Edge, Link, RelatedResult}
use aws_explorer.Xref.Ident.{short_form, forms, query_identifiers}
use aws_explorer.Xref.Kinds.{classify, checked_types, target_reference}
use aws_explorer.Xref.Index.{Index, gathered, all_forms, row_key, less_reference}

-- What one round of the inner loop reads: the row to list, the identifier it leads to and the
-- relationship.
pub record Hop : Type 0 where
  pub reference : Reference
  pub id : Text
  pub via : Text

unfoldable pub forward_hop : Edge → Hop
forward_hop e = record { reference = target_reference e; id = e.target; via = e.source.via }

unfoldable pub reverse_hop : Reference → Hop
reverse_hop r = record { reference = r; id = r.id; via = r.via }

-- `lookupEdges`, `lookupRefs`
unfoldable pub lookup_edges : Index Edge → Text → List Edge
unfolding gathered
lookup_edges idx id = gathered (forms id) idx

unfoldable pub lookup_refs : Index Reference → Text → List Reference
unfolding gathered
lookup_refs idx id = gathered (forms id) idx

-- `identifierSet` holds the forms of the start identifiers.
unfoldable pub is_start : List Text → Text → Bool
unfolding member
is_start start_set id = member id start_set || member (short_form id) start_set

unfoldable pub join_path : Text → Text → Text
join_path parent via = if eq_text parent [] then via else cat (parent ∷ str " ▸ " ∷ via ∷ [])

-- the separator is U+0000
unfoldable pub dedupe_key : Bool → Reference → Text → Text
dedupe_key all_paths ref path =
    if all_paths then cat (row_key ref ∷ (0 ∷ []) ∷ path ∷ []) else row_key ref

pub record FrontierNode : Type 0 where
  pub id : Text
  pub path : Text

unfoldable pub new_frontier : List Text → List FrontierNode
new_frontier starts = map (λ s. record { id = s; path = [] }) starts

-- the test of `expand`: one of the forms has been seen
unfoldable pub is_visited : List Text → Text → Bool
unfolding any member
is_visited seen id = any (λ k. member k seen) (forms id)

-- The variables of the walk: the identifiers visited, the row keys seen, the rows and the frontier
-- of the next hop.
pub record Walk : Type 0 where
  pub visited : List Text
  pub row_seen : List Text
  pub out : List Link
  pub next : List FrontierNode

module _ (hops : Text → List Hop) (start_set : List Text) (all_paths : Bool) where
  -- `if rk := dedupeKey(...); !rowSeen[rk] { … }`
  unfoldable pub list_row : ℕ → Reference → Text → Walk → Walk
  unfolding dedupe_key member
  list_row depth ref path w =
      let key = dedupe_key all_paths ref path in
      if member key w.row_seen then w else record w {
        row_seen = key ∷ w.row_seen;
        out = w.out ++ record { reference = ref; depth = depth; path = path } ∷ [];
      }

  -- `if visited.expand(id) { next = append(next, …) }`
  unfoldable pub expand : Text → Text → Walk → Walk
  unfolding is_visited
  expand id path w = if is_visited w.visited id then w else record w {
    visited = forms id ++ w.visited;
    next = w.next ++ record { id = id; path = path } ∷ [];
  }

  -- the body of the innermost loop
  unfoldable pub visit : ℕ → FrontierNode → Walk → Hop → Walk
  unfolding is_start list_row expand join_path
  visit depth node w h =
      let path = join_path node.path h.via in
      if is_start start_set h.id then w else expand h.id path (list_row depth h.reference path w)

  unfoldable pub visit_all : ℕ → FrontierNode → Walk → List Hop → Walk
  unfolding visit
  visit_all depth node w [] = w
  visit_all depth node w (h ∷ hs) = visit_all depth node (visit depth node w h) hs

  -- the loop over the frontier
  unfoldable pub visit_frontier : ℕ → Walk → List FrontierNode → Walk
  unfolding visit_all
  visit_frontier depth w [] = w
  visit_frontier depth w (n ∷ ns) = visit_frontier depth (visit_all depth n w (hops n.id)) ns

  -- The outer loop: `rounds` are left, and the loop ends early when the frontier is empty.
  unfoldable pub walk_rounds : ℕ → ℕ → Walk → List FrontierNode → Walk
  unfolding visit_frontier
  walk_rounds zero depth w frontier = w
  walk_rounds (suc rounds) depth w [] = w
  walk_rounds (suc rounds) depth w (n ∷ ns) =
      let w' = visit_frontier depth (record w { next = [] }) (n ∷ ns) in
      walk_rounds rounds (suc depth) w' w'.next

unfoldable pub less_link : Link → Link → Bool
less_link a b =
    if a.depth == b.depth then less_reference a.reference b.reference else ltb a.depth b.depth

unfoldable pub sort_links : List Link → List Link
unfolding less_link sort
sort_links links = sort less_link links

-- `newVisited`, and the empty map and slices
unfoldable pub initial : List Text → Walk
unfolding all_forms
initial starts = record { visited = all_forms starts; row_seen = []; out = []; next = [] }

unfoldable pub walk_links : (Text → List Hop) → List Text → ℕ → Bool → List Link
unfolding sort_links walk_rounds initial new_frontier
walk_links hops starts max_depth all_paths =
    sort_links
      (walk_rounds hops (all_forms starts) all_paths max_depth 1 (initial starts)
        (new_frontier starts)).out

unfoldable pub walk_forward : List Text → Index Edge → ℕ → Bool → List Link
unfolding walk_links lookup_edges forward_hop
walk_forward starts idx = walk_links (λ id. map forward_hop (lookup_edges idx id)) starts

unfoldable pub walk_reverse : List Text → Index Reference → ℕ → Bool → List Link
unfolding walk_links lookup_refs reverse_hop
walk_reverse starts idx = walk_links (λ id. map reverse_hop (lookup_refs idx id)) starts

-- `if maxDepth < 1 { maxDepth = 1 }`
unfoldable pub at_least_one : ℤ → ℕ
at_least_one (negsuc n) = 1
at_least_one (pos n) = if ltb n 1 then 1 else n

unfoldable pub related : Text → Index Edge → Index Reference → ℤ → Bool → RelatedResult
unfolding walk_forward walk_reverse at_least_one
related input fwd rev max_depth all_paths =
    let ids = query_identifiers input in
    let target = classify input in
    record {
      target = target;
      depth = at_least_one max_depth;
      uses = walk_forward ids fwd (at_least_one max_depth) all_paths;
      used_by = walk_reverse ids rev (at_least_one max_depth) all_paths;
      checked_types = checked_types target.kind;
      all_paths = all_paths;
    }
