-- ===== src/Arn.antt =====
-- internal/awsutil/arn.go: ARNs built and taken apart.
pub mod Laws
mod Examples
use aws_explorer.Prelude.{
  ℕ, zero, suc, Bool, true, false, ◌||◌, not, ◌==◌, Option, none, some, List, [], ◌∷◌, ◌++◌,
  if◌then◌else◌, drop, length,
}
use aws_explorer.Go.Text.{Text, str, eq_text, to_lower, has_byte, has_prefix, cut, cat}

unfoldable pub ec2_arn : Text → Text → Text → Text → Text
ec2_arn region account resource_type id =
    if eq_text account [] || eq_text id []
    then []
    else cat (
        str "arn:aws:ec2:"
        ∷ region
        ∷ str ":"
        ∷ account
        ∷ str ":"
        ∷ resource_type
        ∷ str "/"
        ∷ id
        ∷ [])

unfoldable pub s3_bucket_arn : Text → Text
s3_bucket_arn name = if eq_text name [] then [] else str "arn:aws:s3:::" ++ name

-- `strings.TrimPrefix`
unfoldable pub trim_prefix : Text → Text → Text
unfolding has_prefix
trim_prefix s p = if has_prefix s p then drop (length p) s else s

unfoldable pub route53_zone_arn : Text → Text
unfolding trim_prefix
route53_zone_arn zone_id =
    let id = trim_prefix zone_id (str "/hostedzone/") in
    if eq_text id [] then [] else str "arn:aws:route53:::hostedzone/" ++ id

-- the text after the first occurrence of a text, from `strings.Index`
unfoldable pub after_first : Text → Text → Option Text
unfolding has_prefix
after_first marker [] = if has_prefix [] marker then some [] else none
after_first marker (c ∷ s) =
    let rest = after_first marker s in
    if has_prefix (c ∷ s) marker then some (drop (length marker) (c ∷ s)) else rest

before_dot : Option Text → Text
before_dot none = []
before_dot (some rest) = elim (cut b'.' rest).1 [ none ↦ [] | some _ ↦ (cut b'.' rest).0 ]

unfoldable pub sqs_region_from_url : Text → Text
unfolding before_dot after_first
sqs_region_from_url url = before_dot (after_first (str "sqs.") url)

queue_arn : Text → Text → Option Text → Text
queue_arn region account none = []
queue_arn region account (some name) =
    if eq_text account [] || eq_text name [] || eq_text region []
    then []
    else cat (str "arn:aws:sqs:" ∷ region ∷ str ":" ∷ account ∷ str ":" ∷ name ∷ [])

queue_of : Text → Option Text → Text
unfolding queue_arn cut
queue_of region none = []
queue_of region (some rest) = queue_arn region (cut b'/' rest).0 (cut b'/' rest).1

unfoldable pub sqs_arn_from_url : Text → Text
unfolding queue_of after_first sqs_region_from_url
sqs_arn_from_url url = queue_of (sqs_region_from_url url) (after_first (str ".amazonaws.com/") url)

pub record Arn : Type 0 where
  pub partition : Text
  pub service : Text
  pub region : Text
  pub account_id : Text
  pub resource_type : Text
  pub resource_id : Text

-- `strings.SplitN` at colons, into one part more than the number
unfoldable pub split_colons : ℕ → Text → List Text
unfolding cut
split_colons zero s = s ∷ []
split_colons (suc n) s =
    let (w, more) = cut b':' s in elim more [ none ↦ w ∷ [] | some rest ↦ w ∷ split_colons n rest ]

-- the text before the first occurrence of a byte and the text after it, as a type and an ID
typed : Text × Option Text → Text × Text
typed (w, none) = ([], w)
typed (w, some rest) = (w, rest)

unfoldable pub split_resource : Text → Text × Text
unfolding typed cut has_byte
split_resource resource =
    if has_byte b'/' resource
    then typed (cut b'/' resource)
    else if has_byte b':' resource
    then typed (cut b':' resource)
    else ([], resource)

unfoldable pub arn_of_parts : List Text → Option Arn
unfolding split_resource trim_prefix
arn_of_parts (scheme ∷ partition ∷ service ∷ region ∷ account ∷ resource ∷ []) =
    if not (eq_text scheme (str "arn"))
    then none
    else let (type, id) = split_resource (trim_prefix resource (str "/")) in
      some (record {
        partition = partition;
        service = service;
        region = region;
        account_id = account;
        resource_type = type;
        resource_id = id;
      })
arn_of_parts _ = none

unfoldable pub parse_arn : Text → Option Arn
unfolding arn_of_parts split_colons
parse_arn arn = arn_of_parts (split_colons 5 arn)

unfoldable pub canonical_service : Text → Text
canonical_service s =
    let service = to_lower s in
    if eq_text service (str "elasticmapreduce")
    then str "emr"
    else if eq_text service (str "elasticloadbalancing")
        || eq_text service (str "elasticloadbalancingv2")
    then str "elbv2"
    else if eq_text service (str "elasticfilesystem")
    then str "efs"
    else if eq_text service (str "events")
    then str "eventbridge"
    else if eq_text service (str "states")
    then str "stepfunctions"
    else service

-- the text after the last occurrence of a byte, if there is one
last_segment : ℕ → Text → Text
last_segment b [] = []
last_segment b (c ∷ s) =
    let rest = last_segment b s in if has_byte b s then rest else if c == b then s else c ∷ s

unfoldable pub arn_name : Arn → Text
unfolding last_segment
arn_name a = last_segment b'/' a.resource_id
