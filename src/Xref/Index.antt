-- ===== src/Xref/Index.antt =====
-- The indexes over collected edges and the where-used query of internal/xref/xref.go.
pub mod Laws
pub mod Rows
pub mod Order
use aws_explorer.Prelude.{
  Bool, true, false, ◌&&◌, ◌||◌, not, Option, none, some, List, [], ◌∷◌, ◌++◌, if◌then◌else◌, sort,
  map,
}
use aws_explorer.Go.Text.{Text, str, eq_text, less_text, cat}
use aws_explorer.Go.Text.{member}
use aws_explorer.Xref.Types.{Target, Reference, Edge, WhereUsedResult}
use aws_explorer.Xref.Ident.{short_form, forms}
use aws_explorer.Xref.Kinds.{checked_types}

-- A map from identifiers to what is stored under them.
abbrev pub Index : Type 0 → Type 0
Index V = List (Text × List V)

module _ {V : Type 0} where
  -- `idx[key]`, which is nil for a missing key
  unfoldable pub stored : Text → Index V → List V
  stored k [] = []
  stored k ((j, vs) ∷ m) = if eq_text j k then vs else stored k m

  -- `idx[key] = append(idx[key], v)`
  unfoldable pub append_at : Text → V → Index V → Index V
  append_at k v [] = (k, v ∷ []) ∷ []
  append_at k v ((j, vs) ∷ m) =
      if eq_text j k then (j, vs ++ v ∷ []) ∷ m else (j, vs) ∷ append_at k v m

  -- the local function `add`
  unfoldable pub add : Text → V → Index V → Index V
  unfolding append_at
  add key v idx = if eq_text key [] then idx else append_at key v idx

  -- the body of the loop: under the identifier and, if that differs, under its short form
  unfoldable pub add_forms : Text → V → Index V → Index V
  unfolding add
  add_forms id v idx =
      let idx' = add id v idx in
      if not (eq_text (short_form id) id) then add (short_form id) v idx' else idx'

  -- the loop over the edges
  unfoldable pub index_edges : (Edge → Text) → (Edge → V) → Index V → List Edge → Index V
  unfolding add_forms
  index_edges key value idx [] = idx
  index_edges key value idx (e ∷ es) = index_edges key value (add_forms (key e) (value e) idx) es

unfoldable pub build_index : List Edge → Index Reference
unfolding index_edges
build_index edges = index_edges (λ e. e.target) (λ e. e.source) [] edges

unfoldable pub build_forward_index : List Edge → Index Edge
unfolding index_edges
build_forward_index edges = index_edges (λ e. e.source.id) (λ e. e) [] edges

-- `r.Service + "|" + r.Type + "|" + r.ID + "|" + r.Via`, in `WhereUsed` and `rowKey`
unfoldable pub row_key : Reference → Text
row_key r = cat (r.service ∷ str "|" ∷ r.type ∷ str "|" ∷ r.id ∷ str "|" ∷ r.via ∷ [])

-- The order of `SortReferences` and of `SortLinks` within a depth: the first field that differs
-- decides.
unfoldable pub less_fields : List Text → List Text → Bool
less_fields [] ys = false
less_fields (x ∷ xs) [] = false
less_fields (x ∷ xs) (y ∷ ys) = if eq_text x y then less_fields xs ys else less_text x y

pub sort_fields : Reference → List Text
sort_fields r = r.service ∷ r.type ∷ r.region ∷ r.id ∷ r.via ∷ []

unfoldable pub less_reference : Reference → Reference → Bool
unfolding less_fields sort_fields
less_reference a b = less_fields (sort_fields a) (sort_fields b)

unfoldable pub sort_references : List Reference → List Reference
unfolding less_reference sort
sort_references refs = sort less_reference refs

-- The inner loop of `WhereUsed`: the references whose row has not been seen, and the rows seen.
unfoldable pub fresh : List Text → List Reference → List Reference × List Text
unfolding member
fresh seen [] = ([], seen)
fresh seen (r ∷ rs) =
    let skipped = fresh seen rs in
    let kept = fresh (row_key r ∷ seen) rs in
    if member (row_key r) seen then skipped else (r ∷ kept.0, kept.1)

-- all that is stored under the forms of the identifiers, in the order of the loops
unfoldable pub gathered : {V : Type 0} → List Text → Index V → List V
unfolding stored
gathered [] index = []
gathered (k ∷ ks) index = stored k index ++ gathered ks index

unfoldable pub all_forms : List Text → List Text
unfolding forms
all_forms [] = []
all_forms (id ∷ ids) = forms id ++ all_forms ids

unfoldable pub where_used : Target → Index Reference → WhereUsedResult
unfolding fresh gathered all_forms sort_references
where_used target index = record {
  target = target;
  references = sort_references (fresh [] (gathered (all_forms target.identifiers) index)).0;
  checked_types = checked_types target.kind;
}
