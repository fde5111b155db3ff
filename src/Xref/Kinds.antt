-- ===== src/Xref/Kinds.antt =====
-- Classification and reference scopes of internal/xref/xref.go, short identifiers of
-- internal/xref/related.go.
use aws_explorer.Prelude.{
  ℕ, Bool, true, false, ◌&&◌, ◌||◌, not, Option, none, some, List, [], ◌∷◌, if◌then◌else◌, leb,
  length, drop, map, filter,
}
use aws_explorer.Go.Text.{Text, str, eq_text, has_prefix, cut, trim_space}
use aws_explorer.Go.Text.{member}
use aws_explorer.Xref.Types.{
  Kind, iam_role, kms_key, acm_cert, security_group, unknown, Target, Reference, Edge,
}
use aws_explorer.Xref.Ident.{
  arn_service, arn_region, arn_resource, arn_resource_type, last_segment, short_form, dedupe,
}

all_of : (ℕ → Bool) → Text → Bool
all_of p [] = true
all_of p (c ∷ s) = p c && all_of p s

is_lower_or_digit : ℕ → Bool
is_lower_or_digit c = (leb b'a' c && leb c b'z') || (leb b'0' c && leb c b'9')

is_hex : ℕ → Bool
is_hex c = (leb b'0' c && leb c b'9') || (leb b'a' c && leb c b'f')

starts_lower : Text → Bool
starts_lower [] = false
starts_lower (c ∷ _) = leb b'a' c && leb c b'z'

id_parts : Text × Option Text → Bool
unfolding all_of is_lower_or_digit is_hex starts_lower
id_parts (w, none) = false
id_parts (w, some rest) =
    starts_lower w && all_of is_lower_or_digit w && leb 8 (length rest) && all_of is_hex rest

-- `^[a-z][a-z0-9]*-[0-9a-f]{8}$`: what stands before the first dash has none
unfoldable pub looks_like_resource_id : Text → Bool
unfolding id_parts
looks_like_resource_id s = id_parts (cut b'-' s)

-- the kind and the short identifier of an ARN
unfoldable pub classify_arn : Text → Kind × Text
classify_arn arn =
    let service = arn_service arn in
    let resource = arn_resource arn in
    if eq_text service (str "iam") && has_prefix resource (str "role/")
    then (iam_role, last_segment (drop 5 resource))
    else if eq_text service (str "kms") && has_prefix resource (str "key/")
    then (kms_key, drop 4 resource)
    else if eq_text service (str "acm") && has_prefix resource (str "certificate/")
    then (acm_cert, drop 12 resource)
    else if eq_text service (str "ec2") && has_prefix resource (str "security-group/")
    then (security_group, drop 15 resource)
    else (unknown, [])

target_of : Text → Text → Kind × Text → Target
target_of input arn (kind, id) = record {
  kind = kind;
  input = input;
  arn = arn;
  id = id;
  identifiers = dedupe (arn ∷ id ∷ []);
}

unfoldable pub classify : Text → Target
unfolding classify_arn target_of looks_like_resource_id
classify input =
    let t = trim_space input in
    if has_prefix t (str "arn:")
    then target_of t t (classify_arn t)
    else if has_prefix t (str "sg-")
    then target_of t [] (security_group, t)
    else if looks_like_resource_id t
    then target_of t [] (unknown, t)
    else if not (eq_text t [])
    then target_of t [] (iam_role, t)
    else target_of t [] (unknown, [])

-- the service of the collector and the category
unfoldable pub checked_types_by_kind : Kind → List (Text × Text)
checked_types_by_kind iam_role =
    (str "lambda", str "Lambda execution roles")
    ∷ (str "ec2", str "EC2 instance profiles")
    ∷ (str "ecs", str "ECS task and execution roles")
    ∷ (str "eks", str "EKS cluster and node-group roles")
    ∷ (str "iam", str "IAM role trust policies")
    ∷ (str "s3", str "S3 bucket replication roles")
    ∷ (str "states", str "Step Functions execution roles")
    ∷ (str "kms", str "KMS key policy principals")
    ∷ (str "kms", str "KMS key grants")
    ∷ (str "rds", str "RDS enhanced-monitoring roles")
    ∷ (str "rds", str "RDS cluster associated roles")
    ∷ (str "redshift", str "Redshift cluster IAM roles")
    ∷ []
checked_types_by_kind kms_key =
    (str "ec2", str "EBS volume encryption")
    ∷ (str "rds", str "RDS instance encryption")
    ∷ (str "secretsmanager", str "Secrets Manager secrets")
    ∷ (str "sqs", str "SQS queue encryption")
    ∷ (str "lambda", str "Lambda environment encryption")
    ∷ (str "s3", str "S3 bucket default encryption")
    ∷ (str "efs", str "EFS file system encryption")
    ∷ (str "sns", str "SNS topic encryption")
    ∷ (str "kinesis", str "Kinesis stream encryption")
    ∷ (str "kms", str "KMS aliases")
    ∷ (str "dynamodb", str "DynamoDB table encryption")
    ∷ (str "elasticache", str "ElastiCache encryption")
    ∷ (str "redshift", str "Redshift cluster encryption")
    ∷ (str "logs", str "CloudWatch log group encryption")
    ∷ []
checked_types_by_kind acm_cert =
    (str "elbv2", str "ELBv2 (ALB/NLB) listeners")
    ∷ (str "networking", str "CloudFront distribution viewer certificates")
    ∷ []
checked_types_by_kind security_group =
    (str "ec2", str "Elastic network interface attachments")
    ∷ (str "efs", str "EFS mount target security groups")
    ∷ (str "lambda", str "Lambda VPC security groups")
    ∷ (str "eks", str "EKS cluster security groups")
    ∷ (str "elbv2", str "Load balancer security groups")
    ∷ (str "apigateway", str "API Gateway VPC link security groups")
    ∷ (str "ec2-endpoints", str "VPC endpoint security groups")
    ∷ (str "rds", str "RDS DB security groups")
    ∷ (str "elasticache", str "ElastiCache security groups")
    ∷ (str "redshift", str "Redshift cluster security groups")
    ∷ []
checked_types_by_kind unknown = []

scanned : Option (List Text) → Text × Text → Bool
unfolding member
scanned none row = true
scanned (some services) (service, label) = member service services

-- `services` is nil where it is `none`.
unfoldable pub checked_types_for : Kind → Option (List Text) → List Text
unfolding scanned filter checked_types_by_kind
checked_types_for kind services =
    map (λ row. row.1) (filter (scanned services) (checked_types_by_kind kind))

unfoldable pub checked_types : Kind → List Text
unfolding checked_types_for
checked_types kind = checked_types_for kind none

-- `ec2IDPrefixes`
unfoldable pub ec2_id_prefixes : List (Text × Text)
ec2_id_prefixes =
    (str "sg-", str "security-group")
    ∷ (str "subnet-", str "subnet")
    ∷ (str "vpc-", str "vpc")
    ∷ (str "eni-", str "network-interface")
    ∷ (str "vol-", str "volume")
    ∷ (str "ami-", str "image")
    ∷ (str "snap-", str "snapshot")
    ∷ (str "eipalloc-", str "elastic-ip")
    ∷ (str "vpce-", str "vpc-endpoint")
    ∷ (str "igw-", str "internet-gateway")
    ∷ (str "nat-", str "nat-gateway")
    ∷ (str "rtb-", str "route-table")
    ∷ (str "acl-", str "network-acl")
    ∷ (str "pcx-", str "vpc-peering-connection")
    ∷ (str "tgw-", str "transit-gateway")
    ∷ (str "dopt-", str "dhcp-options")
    ∷ (str "i-", str "instance")
    ∷ []

-- The entry whose prefix an identifier has; the map is read in some order.
unfoldable pub prefix_type : List (Text × Text) → Text → Option Text
prefix_type [] id = none
prefix_type ((p, t) ∷ m) id = if has_prefix id p then some t else prefix_type m id

unfoldable pub classify_short_id : Text → Option (Text × Text)
classify_short_id id = elim (prefix_type ec2_id_prefixes id) [
  | some t ↦ some (str "ec2", t)
  | none ↦
      if has_prefix id (str "/aws/") || has_prefix id (str "/ecs/")
      then some (str "logs", str "log-group")
      else none
]

short_reference : Text → Option (Text × Text) → Reference
short_reference id none = record {
  service = [];
  type = [];
  id = id;
  name = id;
  region = [];
  via = [];
}
short_reference id (some (service, type)) = record {
  service = service;
  type = type;
  id = id;
  name = id;
  region = [];
  via = [];
}

unfoldable pub reference_from_identifier : Text → Reference
unfolding short_reference
reference_from_identifier id =
    if has_prefix id (str "arn:")
    then record {
      service = arn_service id;
      type = arn_resource_type id;
      id = id;
      name = short_form id;
      region = arn_region id;
      via = [];
    }
    else short_reference id (classify_short_id id)

unfoldable pub target_reference : Edge → Reference
unfolding reference_from_identifier
target_reference e =
    let r = reference_from_identifier e.target in
    let inherits =
      eq_text r.region [] && (eq_text r.service (str "ec2") || eq_text r.service (str "logs")) in
    record r { region = if inherits then e.source.region else r.region; via = e.source.via }
