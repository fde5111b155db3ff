-- ===== src/Xref/Types.antt =====
-- The records of internal/xref/xref.go and internal/xref/related.go.
use aws_explorer.Prelude.{ℕ, Bool, List}
use aws_explorer.Go.Text.{Text}

pub data Kind : Type 0 where
  iam_role kms_key acm_cert security_group unknown : Kind

pub record Target : Type 0 where
  pub kind : Kind
  pub input : Text
  pub arn : Text
  pub id : Text
  pub identifiers : List Text

pub record Reference : Type 0 where
  pub service : Text
  pub type : Text
  pub id : Text
  pub name : Text
  pub region : Text
  pub via : Text

-- `source` is the field `From`: it references `target` by the relationship `source.via`.
pub record Edge : Type 0 where
  pub source : Reference
  pub target : Text

pub record WhereUsedResult : Type 0 where
  pub target : Target
  pub references : List Reference
  pub checked_types : List Text

pub record Link : Type 0 where
  pub reference : Reference
  pub depth : ℕ
  pub path : Text

-- `Partial` and `Errors` are filled by `WithCollectionStatus`, from what collection returns.
pub record RelatedResult : Type 0 where
  pub target : Target
  pub depth : ℕ
  pub uses : List Link
  pub used_by : List Link
  pub checked_types : List Text
  pub all_paths : Bool
