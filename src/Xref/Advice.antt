-- ===== src/Xref/Advice.antt =====
-- What the related query adds to its answer: `AmbiguousCandidates` of internal/xref/related.go and the
-- risk of internal/xref/risk.go. `Partial`, which collection decides, is an argument.
pub mod Laws
use aws_explorer.Prelude.{
  ℕ, suc, ◌==◌, leb, Bool, true, false, ◌&&◌, ◌||◌, not, List, [], ◌∷◌, ◌++◌, if◌then◌else◌,
  flat_map, length, filter, sort,
}
use aws_explorer.Go.Text.{Text, str, eq_text, less_text, trim_space, has_prefix, cat, member}
use aws_explorer.Go.Number.{itoa}
use aws_explorer.Xref.Types.{Edge, Link, RelatedResult}
use aws_explorer.Xref.Ident.{short_form}

-- the test of `consider`
unfoldable pub is_candidate : Text → Text → Bool
is_candidate short id = has_prefix id (str "arn:") && eq_text (short_form id) short

unfoldable pub edge_ids : List Edge → List Text
unfolding flat_map
edge_ids edges = flat_map (λ e. e.source.id ∷ e.target ∷ []) edges

-- `set`: each candidate once
unfoldable pub collect_candidates : Text → List Text → List Text → List Text
unfolding is_candidate
collect_candidates short seen [] = []
collect_candidates short seen (id ∷ ids) =
    let skipped = collect_candidates short seen ids in
    let kept = id ∷ collect_candidates short (id ∷ seen) ids in
    if is_candidate short id && not (member id seen) then kept else skipped

at_least_two : List Text → List Text
unfolding sort less_text
at_least_two [] = []
at_least_two (x ∷ []) = []
at_least_two (x ∷ y ∷ set) = sort less_text (x ∷ y ∷ set)

unfoldable pub ambiguous_candidates : Text → List Edge → List Text
unfolding at_least_two collect_candidates edge_ids
ambiguous_candidates input edges =
    let query = trim_space input in
    if eq_text query [] || has_prefix query (str "arn:")
    then []
    else at_least_two (collect_candidates (short_form query) [] (edge_ids edges))

pub data RiskLevel : Type 0 where
  low medium high : RiskLevel

pub record RiskAssessment : Type 0 where
  pub level : RiskLevel
  pub reason : Text

unfoldable pub count_direct : List Link → ℕ
count_direct [] = 0
count_direct (l ∷ ls) = if l.depth == 1 then suc (count_direct ls) else count_direct ls

risk_of : ℕ → RiskAssessment
risk_of direct =
    if direct == 0
    then record { level = low; reason = str "nothing collected references this resource" }
    else if leb direct 2
    then record {
      level = medium;
      reason = cat (itoa direct ∷ str " resource(s) directly depend on this" ∷ []);
    }
    else record {
      level = high;
      reason = cat (itoa direct ∷ str " resources directly depend on this" ∷ []);
    }

unfoldable pub assess_risk : RelatedResult → Bool → RiskAssessment
unfolding count_direct risk_of
assess_risk res partial =
    let a = risk_of (count_direct res.used_by) in
    if partial
    then record {
      level = a.level;
      reason = a.reason ++ str "; scan was partial, so risk may be understated";
    }
    else a
