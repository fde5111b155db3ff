-- ===== src/Xref/Ident.antt =====
-- The ARN and identifier helpers of internal/xref/xref.go and internal/xref/related.go.
use aws_explorer.Prelude.{
  ℕ, zero, suc, ◌||◌, not, Option, none, some, List, [], ◌∷◌, if◌then◌else◌, ◌==◌, leb, length,
  get_elem?,
}
use aws_explorer.Go.Text.{Text, str, eq_text, has_prefix, cut, trim_space}
use aws_explorer.Go.Text.{member}

split_rest : Text × Option Text → (Text → List Text) → List Text
split_rest (w, none) next = w ∷ []
split_rest (w, some rest) next = w ∷ next rest

-- `strings.SplitN(s, ":", n + 1)`
unfoldable pub split_n : ℕ → Text → List Text
unfolding split_rest cut
split_n zero s = s ∷ []
split_n (suc n) s = split_rest (cut b':' s) (split_n n)

or_empty : Option Text → Text
or_empty none = []
or_empty (some t) = t

-- A field of an ARN, which has six; the empty text if there are fewer.
unfoldable pub arn_field : ℕ → Text → Text
unfolding or_empty split_n
arn_field i arn =
    let parts = split_n 5 arn in if leb 6 (length parts) then or_empty (get_elem? parts i) else []

unfoldable pub arn_service : Text → Text
arn_service arn = arn_field 2 arn

unfoldable pub arn_region : Text → Text
arn_region arn = arn_field 3 arn

unfoldable pub arn_resource : Text → Text
arn_resource arn = arn_field 5 arn

later_or : Option Text → ℕ → ℕ → Text → Option Text
later_or (some t) b c s = some t
later_or none b c s = if c == b then some s else none

-- the text after the last place of a byte (`strings.LastIndexByte`)
unfoldable pub after_last : ℕ → Text → Option Text
unfolding later_or
after_last b [] = none
after_last b (c ∷ s) = later_or (after_last b s) b c s

-- The text after the last place of a byte, unless there is none or nothing follows it.
unfoldable pub tail_after : ℕ → Text → Text
unfolding after_last
tail_after b s = elim (after_last b s) [ none ↦ s | some t ↦ elim t [ [] ↦ s | c ∷ r ↦ c ∷ r ] ]

unfoldable pub last_segment : Text → Text
unfolding tail_after
last_segment s = tail_after b'/' s

unfoldable pub short_form : Text → Text
unfolding arn_resource last_segment tail_after
short_form s =
    if not (has_prefix s (str "arn:")) then s else tail_after b':' (last_segment (arn_resource s))

dedupe_loop : List Text → List Text → List Text
unfolding member
dedupe_loop seen [] = []
dedupe_loop seen (v ∷ vs) =
    let skipped = dedupe_loop seen vs in
    let kept = v ∷ dedupe_loop (v ∷ seen) vs in
    if eq_text v [] || member v seen then skipped else kept

-- The inputs that are not empty, without duplicates.
unfoldable pub dedupe : List Text → List Text
unfolding dedupe_loop
dedupe vals = dedupe_loop [] vals

-- the two forms of an identifier, `dedupe(id, shortForm(id))`
unfoldable pub forms : Text → List Text
unfolding dedupe short_form
forms id = dedupe (id ∷ short_form id ∷ [])

unfoldable pub query_identifiers : Text → List Text
unfolding forms
query_identifiers input = forms (trim_space input)

first_of_two : ℕ → ℕ → Text → Option Text
first_of_two b d [] = none
first_of_two b d (c ∷ s) =
    let rest = first_of_two b d s in
    if c == b || c == d then some [] else elim rest [ none ↦ none | some t ↦ some (c ∷ t) ]

-- `res[:strings.IndexAny(res, "/:")]` where that is not at the front
unfoldable pub arn_resource_type : Text → Text
unfolding first_of_two arn_resource or_empty
arn_resource_type arn = or_empty (first_of_two b'/' b':' (arn_resource arn))
