-- ===== src/Security/Policy.antt =====
-- `PolicyAllowsEveryone` of internal/findings/security.go, over the decoder of encoding/json.
use aws_explorer.Prelude.{
  Bool, false, ◌&&◌, not, Option, none, some, List, [], ◌∷◌, if◌then◌else◌, any,
}
use aws_explorer.Go.Text.{Text, str, eq_text, trim_space, equal_fold, member}
use aws_explorer.Go.Map.{Dict, get}

-- What the code asks of encoding/json: a raw value is its bytes, empty where a field is missing, and
-- `none` is an error. A null leaves a string empty and a list or a map without elements.
pub record Json : Type 0 where
  -- the raw value of the field `Statement` of a document
  pub statement_field : Text → Option Text
  -- an array of raw objects, and the raw fields `Effect`, `Principal` and `Condition` of an object
  pub as_array : Text → Option (List Text)
  pub as_statement : Text → Option (Text × Text × Text)
  pub as_string : Text → Option Text
  pub as_map : Text → Option (Dict Text)
  pub as_strings : Text → Option (List Text)

pub record IamStatement : Type 0 where
  pub effect : Text
  pub principal : Text
  pub condition : Text

module _ (json : Json) where
  as_iam_statement : Text → Option IamStatement
  as_iam_statement raw = elim (json.as_statement raw) [
    | none ↦ none
    | some (effect, principal, condition) ↦
        some (record { effect = effect; principal = principal; condition = condition })
  ]

  cons_statement : Option IamStatement → Option (List IamStatement) → Option (List IamStatement)
  cons_statement none rest = none
  cons_statement (some s) none = none
  cons_statement (some s) (some ss) = some (s ∷ ss)

  all_statements : List Text → Option (List IamStatement)
  unfolding as_iam_statement cons_statement
  all_statements [] = some []
  all_statements (raw ∷ raws) = cons_statement (as_iam_statement raw) (all_statements raws)

  array_of : Option (List Text) → Option (List IamStatement)
  unfolding all_statements
  array_of none = none
  array_of (some raws) = all_statements raws

  or_single : Text → Option (List IamStatement) → Option (List IamStatement)
  unfolding as_iam_statement cons_statement
  or_single raw (some ss) = some ss
  or_single raw none = cons_statement (as_iam_statement raw) (some [])

  -- `jsonStatements.UnmarshalJSON`, which is not called for a missing field
  unfoldable pub statements_of : Text → Option (List IamStatement)
  unfolding array_of or_single
  statements_of [] = some []
  statements_of (c ∷ raw) = or_single (c ∷ raw) (array_of (json.as_array (c ∷ raw)))

  is_star : Option Text → Bool
  is_star none = false
  is_star (some s) = eq_text s (str "*")

  has_star : Option (List Text) → Bool
  has_star none = false
  has_star (some ps) = member (str "*") ps

  -- the value of the key `AWS`
  aws_is_everyone : Option Text → Bool
  unfolding is_star has_star
  aws_is_everyone none = false
  aws_is_everyone (some raw) = elim (json.as_string raw) [
    | some s ↦ eq_text s (str "*")
    | none ↦ has_star (json.as_strings raw)
  ]

  map_is_everyone : Option (Dict Text) → Bool
  unfolding aws_is_everyone get
  map_is_everyone none = false
  map_is_everyone (some m) = aws_is_everyone (get (str "AWS") m)

  unfoldable pub principal_is_everyone : Text → Bool
  unfolding map_is_everyone
  principal_is_everyone [] = false
  principal_is_everyone (c ∷ raw) = elim (json.as_string (c ∷ raw)) [
    | some s ↦ eq_text s (str "*")
    | none ↦ map_is_everyone (json.as_map (c ∷ raw))
  ]

  unfoldable pub has_condition : IamStatement → Bool
  has_condition st =
      not (eq_text st.condition [])
      && not (eq_text st.condition (str "null"))
      && not (eq_text st.condition (str "{}"))

  unfoldable pub allows_everyone : IamStatement → Bool
  unfolding has_condition principal_is_everyone
  allows_everyone st =
      if not (equal_fold st.effect (str "Allow"))
      then false
      else if has_condition st
      then false
      else principal_is_everyone st.principal

  in_statements : Option (List IamStatement) → Bool
  unfolding any allows_everyone
  in_statements none = false
  in_statements (some ss) = any allows_everyone ss

  in_document : Option Text → Bool
  unfolding in_statements statements_of
  in_document none = false
  in_document (some raw) = in_statements (statements_of raw)

  unfoldable pub policy_allows_everyone : Text → Bool
  unfolding in_document
  policy_allows_everyone policy =
      if eq_text (trim_space policy) [] then false else in_document (json.statement_field policy)
