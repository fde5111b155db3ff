-- ===== src/Xref/Scan.antt =====
-- The scan profiles of internal/xref/scanprofiles.go. A set of services is a list, and `nil` is `none`.
pub mod Laws
pub mod Valid
use aws_explorer.Prelude.{
  Bool, true, false, ◌||◌, not, ◌==◌, Option, none, some, List, [], ◌∷◌, ◌++◌, ◌⊎◌, inl, inr,
  if◌then◌else◌, filter, sort,
}
use aws_explorer.Go.Text.{
  Text, str, eq_text, less_text, trim_space, to_lower, has_prefix, split, join, cat, member, quoted,
}
use aws_explorer.Go.Map.{Dict, get, keys_of}

unfoldable pub valid_services : List Text
valid_services =
    str "iam"
    ∷ str "s3"
    ∷ str "networking"
    ∷ str "lambda"
    ∷ str "ec2"
    ∷ str "rds"
    ∷ str "secretsmanager"
    ∷ str "sqs"
    ∷ str "ecs"
    ∷ str "eks"
    ∷ str "elbv2"
    ∷ str "efs"
    ∷ str "sns"
    ∷ str "events"
    ∷ str "states"
    ∷ str "kinesis"
    ∷ str "apigateway"
    ∷ str "ec2-endpoints"
    ∷ str "kms"
    ∷ str "dynamodb"
    ∷ str "elasticache"
    ∷ str "redshift"
    ∷ str "cloudwatch"
    ∷ str "logs"
    ∷ []

unfoldable pub service_aliases : Dict (List Text)
service_aliases = (str "observability", str "cloudwatch" ∷ str "logs" ∷ []) ∷ []

unfoldable pub scan_profiles : Dict (List Text)
scan_profiles =
    (
      str "fast",
      str "iam"
          ∷ str "lambda"
          ∷ str "ec2"
          ∷ str "s3"
          ∷ str "rds"
          ∷ str "kms"
          ∷ str "sqs"
          ∷ str "sns"
          ∷ [],
    )
    ∷ (
      str "security",
      str "iam"
          ∷ str "kms"
          ∷ str "ec2"
          ∷ str "secretsmanager"
          ∷ str "lambda"
          ∷ str "ecs"
          ∷ str "rds"
          ∷ [],
    )
    ∷ (
      str "eventing",
      str "s3"
          ∷ str "events"
          ∷ str "sns"
          ∷ str "sqs"
          ∷ str "lambda"
          ∷ str "states"
          ∷ str "kinesis"
          ∷ [],
    )
    ∷ (
      str "network",
      str "ec2" ∷ str "elbv2" ∷ str "apigateway" ∷ str "networking" ∷ str "ec2-endpoints" ∷ [],
    )
    ∷ []

unfoldable pub valid_services_list : Text
unfolding sort less_text join keys_of
valid_services_list = join (sort less_text (valid_services ++ keys_of service_aliases)) (str ", ")

unknown_service : Text → Text
unknown_service part = cat (
    str "unknown scan service "
    ∷ quoted part
    ∷ str " (valid: "
    ∷ valid_services_list
    ∷ str ", or a profile: full|fast|security|eventing|network)"
    ∷ [])

valid_token : Text → Text ⊎ List Text
unfolding unknown_service
valid_token part =
    if not (member part valid_services) then inl (unknown_service part) else inr (part ∷ [])

or_alias : Option (List Text) → Text → Text ⊎ List Text
unfolding valid_token
or_alias (some services) part = inr services
or_alias none part = valid_token part

-- what one token adds to the set, or the error
unfoldable pub resolve_token : Text → Text ⊎ List Text
unfolding or_alias get
resolve_token part = if eq_text part [] then inr [] else or_alias (get part service_aliases) part

-- the first error wins
both : Text ⊎ List Text → Text ⊎ List Text → Text ⊎ List Text
both (inl e) rest = inl e
both (inr out) (inl e) = inl e
both (inr out) (inr more) = inr (out ++ more)

unfoldable pub resolve_tokens : List Text → Text ⊎ List Text
unfolding both resolve_token
resolve_tokens [] = inr []
resolve_tokens (part ∷ parts) = both (resolve_token (trim_space part)) (resolve_tokens parts)

unfoldable pub resolve_service_tokens : Text → Text ⊎ List Text
unfolding resolve_tokens
resolve_service_tokens list = resolve_tokens (split b',' list)

-- `strings.CutPrefix`
cut_prefix : Text → Text → Option Text
cut_prefix s [] = some s
cut_prefix [] (p ∷ ps) = none
cut_prefix (c ∷ s) (p ∷ ps) = let rest = cut_prefix s ps in if c == p then rest else none

all_but : Text ⊎ List Text → Text ⊎ Option (List Text)
unfolding filter
all_but (inl e) = inl e
all_but (inr []) = inl (
    cat (
      str "exclude: needs at least one service to exclude (valid: "
      ∷ valid_services_list
      ∷ str ")"
      ∷ []))
all_but (inr (x ∷ excluded)) =
    inr (some (filter (λ svc. not (member svc (x ∷ excluded))) valid_services))

listed : Text ⊎ List Text → Text ⊎ Option (List Text)
listed (inl e) = inl e
listed (inr []) = inr none
listed (inr (x ∷ out)) = inr (some (x ∷ out))

or_profile : Option (List Text) → Text → Text ⊎ Option (List Text)
unfolding listed resolve_service_tokens
or_profile (some services) s = inr (some services)
or_profile none s = listed (resolve_service_tokens s)

or_excluded : Option Text → Text → Text ⊎ Option (List Text)
unfolding all_but or_profile get
or_excluded (some rest) s = all_but (resolve_service_tokens rest)
or_excluded none s = or_profile (get s scan_profiles) s

unfoldable pub parse_scan : Text → Text ⊎ Option (List Text)
unfolding or_excluded cut_prefix
parse_scan value =
    let s = to_lower (trim_space value) in
    if eq_text s [] || eq_text s (str "full")
    then inr none
    else or_excluded (cut_prefix s (str "exclude:")) s
