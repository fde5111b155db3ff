-- ===== src/Xref/Examples.antt =====
-- Runs of the where-used query and of the walks, and the theorems at concrete inputs.
use aws_explorer.Prelude.{
  IsOrderedBy, any, ◌≤◌, ◌≡◌, refl, ◌↔◌, false, List, [], ◌∷◌, Memᴰ, map, filter,
}
use aws_explorer.Go.Lex.{StrictLex}
use aws_explorer.Go.Text.{Text, str, eq_text, has_prefix, cat}
use aws_explorer.Xref.Types.{Target, Reference, Edge, Link, RelatedResult, unknown}
use aws_explorer.Xref.Index.Order.{row_order, where_used-IsOrderedBy}
use aws_explorer.Xref.Index.{build_index, build_forward_index, row_key, where_used}
use aws_explorer.Xref.Index.Laws.{points_at}
use aws_explorer.Xref.Index.Rows.{HasKey, Distinct, Refers, where_used_iff, where_used-Distinct}
use aws_explorer.Xref.Walk.Direct.{IsListed}
use aws_explorer.Xref.Walk.Answer.{Touches, related-used_by, related-uses}
use aws_explorer.Xref.Kinds.{target_reference}
use aws_explorer.Go.Text.{trim_space}
use aws_explorer.Go.Number.{pos}
use aws_explorer.Xref.Ident.{query_identifiers, forms}
use aws_explorer.Xref.Index.{all_forms}
use aws_explorer.Xref.Walk.{related, is_start, join_path, dedupe_key, Hop, walk_links, reverse_hop}
use aws_explorer.Xref.Walk.Chain.{IsJustified, walk_links-IsJustified}

abbrev function : Reference
function = record {
  service = str "lambda";
  type = str "function";
  id = str "f1";
  name = str "resize";
  region = str "eu-west-1";
  via = str "execution role";
}

abbrev bucket : Reference
bucket = record {
  service = str "s3";
  type = str "bucket";
  id = str "b1";
  name = str "photos";
  region = str "eu-west-1";
  via = str "event notification";
}

abbrev photo_edges : List Edge
photo_edges =
    record { source = function; target = str "r1" }
    ∷ record { source = bucket; target = str "f1" }
    ∷ record { source = function; target = str "r1" }
    ∷ []

abbrev role : Target
role = record {
  kind = unknown;
  input = str "r1";
  arn = [];
  id = str "r1";
  identifiers = str "r1" ∷ [];
}

where_used_iff_example :
    HasKey (row_key function) (where_used role (build_index photo_edges)).references
    ↔ ((e : Edge) × Memᴰ e photo_edges × Refers role e × (row_key e.source ≡ row_key function))
where_used_iff_example = where_used_iff role photo_edges (row_key function)

where_used-Distinct_example : Distinct (where_used role (build_index photo_edges)).references
where_used-Distinct_example = where_used-Distinct role photo_edges

-- The hops of the reverse walk: the role's users, and theirs.
abbrev photo_hops : Text → List Hop
photo_hops id =
    map reverse_hop (map (λ (e : Edge). e.source) (filter (λ e. eq_text e.target id) photo_edges))

abbrev first_link : Link
first_link = record { reference = function; depth = 1; path = str "execution role" }

first_link_listed : Memᴰ first_link (walk_links photo_hops (str "r1" ∷ []) 2 false)
unfolding walk_links filter eq_text str reverse_hop has_prefix row_key cat
first_link_listed = Memᴰ.head refl

walk_links-IsJustified_example :
    IsJustified photo_hops (str "r1" ∷ []) first_link × (first_link.depth ≤ 2)
walk_links-IsJustified_example =
    walk_links-IsJustified photo_hops (str "r1" ∷ []) false 2 first_link first_link_listed

abbrev photo_hop : Hop
photo_hop = reverse_hop function

photo_hop_listed : Memᴰ photo_hop (photo_hops (str "r1"))
unfolding filter eq_text str
photo_hop_listed = Memᴰ.head refl

photo_hop_outside : is_start (all_forms (str "r1" ∷ [])) photo_hop.id ≡ false
unfolding is_start all_forms eq_text str reverse_hop has_prefix any
photo_hop_outside = refl

abbrev uses_role : Edge
uses_role = record { source = function; target = str "r1" }

abbrev related_to_role : RelatedResult
related_to_role =
    related (str "r1") (build_forward_index photo_edges) (build_index photo_edges) (pos 2) false

abbrev related_to_function : RelatedResult
related_to_function =
    related (str "f1") (build_forward_index photo_edges) (build_index photo_edges) (pos 2) false

role_outside : is_start (all_forms (query_identifiers (str "r1"))) function.id ≡ false
unfolding is_start all_forms eq_text str query_identifiers has_prefix trim_space any
role_outside = refl

function_outside : is_start (all_forms (query_identifiers (str "f1"))) (str "r1") ≡ false
unfolding is_start all_forms eq_text str query_identifiers has_prefix trim_space any
function_outside = refl

touched_role : Touches (str "r1") (str "r1")
unfolding query_identifiers forms points_at eq_text str has_prefix trim_space any
touched_role = (str "r1", str "r1", Memᴰ.head refl, Memᴰ.head refl, refl)

touched_function : Touches (str "f1") (str "f1")
unfolding query_identifiers forms points_at eq_text str has_prefix trim_space any
touched_function = (str "f1", str "f1", Memᴰ.head refl, Memᴰ.head refl, refl)

related-used_by_example :
    IsListed false (dedupe_key false function (join_path [] function.via)) related_to_role.used_by
related-used_by_example =
    related-used_by (str "r1") photo_edges (pos 2) false uses_role (Memᴰ.head refl) touched_role
      role_outside

related-uses_example :
    IsListed false
      (dedupe_key false (target_reference uses_role) (join_path [] function.via))
      related_to_function.uses
related-uses_example =
    related-uses (str "f1") photo_edges (pos 2) false uses_role (Memᴰ.head refl) touched_function
      function_outside

where_used-IsOrderedBy_example :
    IsOrderedBy (StrictLex row_order) (where_used role (build_index photo_edges)).references
where_used-IsOrderedBy_example = where_used-IsOrderedBy role (build_index photo_edges)
