-- ===== src/Security/Types.antt =====
-- The snapshot of internal/findings/security.go and the findings of internal/findings/finding.go. A
-- time is the number of nanoseconds since the zero time. A fact that could not be determined is
-- `none`. The cost estimate, which is zero in every security finding, is left out.
use aws_explorer.Prelude.{ℕ, Bool, Option, List}
use aws_explorer.Go.Text.{Text}
use aws_explorer.Go.Number.{ℤ}

pub data Severity : Type 0 where
  info warning critical : Severity

pub record Finding : Type 0 where
  pub id : Text
  pub severity : Severity
  pub service : Text
  pub region : Text
  pub resource : Text
  pub title : Text
  pub detail : Text
  pub fix : Text

pub record SecBucket : Type 0 where
  pub name : Text
  pub region : Text
  pub policy_public : Option Bool
  pub pab_all_on : Option Bool
  pub encrypted : Option Bool

pub record SecVolume : Type 0 where
  pub id : Text
  pub encrypted : Bool

pub record SecInstance : Type 0 where
  pub id : Text
  pub name : Text
  pub state : Text
  pub http_tokens : Text
  pub http_endpoint : Text

pub record SecSgRule : Type 0 where
  pub protocol : Text
  pub from_port : ℤ
  pub to_port : ℤ
  pub source : Text

pub record SecGroup : Type 0 where
  pub id : Text
  pub name : Text
  pub rules : List SecSgRule

pub record SecDbInstance : Type 0 where
  pub id : Text
  pub publicly_accessible : Bool
  pub storage_encrypted : Bool

pub record SecFunction : Type 0 where
  pub name : Text
  pub url_no_auth : Bool

pub record SecQueue : Type 0 where
  pub name : Text
  pub policy : Text

pub record SecTopic : Type 0 where
  pub arn : Text
  pub name : Text
  pub policy : Text

pub record SecAlarm : Type 0 where
  pub name : Text
  pub state_updated : ℕ

pub record SecuritySnapshot : Type 0 where
  pub region : Text
  pub now : ℕ
  pub s3_scanned : Bool
  pub buckets : List SecBucket
  pub volumes : List SecVolume
  pub ebs_default_encryption : Option Bool
  pub public_ebs_snapshots : List Text
  pub instances : List SecInstance
  pub security_groups : List SecGroup
  pub db_instances : List SecDbInstance
  pub public_rds_snapshots : List Text
  pub functions : List SecFunction
  pub queues : List SecQueue
  pub topics : List SecTopic
  pub alarms : List SecAlarm
