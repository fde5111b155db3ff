-- ===== src/Inventory/Types.antt =====
-- The records of internal/acctsnap/acctsnap.go.
use aws_explorer.Prelude.{ℕ, List, Option}
use aws_explorer.Go.Text.{Text}
use aws_explorer.Go.Map.{Dict}

pub record Entry : Type 0 where
  pub key : Text
  pub id : Text
  pub name : Text
  pub type : Text
  pub region : Text
  pub state : Text
  pub tags : Dict Text

-- `taken_at` counts the seconds since 1970.
pub record Snapshot : Type 0 where
  pub taken_at : ℕ
  pub account_id : Text
  pub regions : List Text
  pub entries : List Entry

-- `KindAdded`, `KindRemoved`, `KindModified`
pub data ChangeKind : Type 0 where
  added removed modified : ChangeKind

pub record Change : Type 0 where
  pub kind : ChangeKind
  pub type : Text
  pub name : Text
  pub id : Text
  pub region : Text
  pub key : Text
  pub deltas : List Text

-- `Resource` of internal/model/resource.go. `created_at` counts the seconds since 1970, and of
-- `details`, whose values have any type, the keys are kept.
pub record Resource : Type 0 where
  pub service : Text
  pub type : Text
  pub region : Text
  pub az : Text
  pub account_id : Text
  pub id : Text
  pub name : Text
  pub arn : Text
  pub state : Text
  pub created_at : Option ℕ
  pub tags : Dict Text
  pub summary : Dict Text
  pub details : List Text
