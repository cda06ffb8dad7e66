-- ===== src/Db/Tables.antt =====
-- One record for each table's row. Columns that nothing reads, such as inspections.created_at, are
-- left out.
use cc_005_offline_inspectio.Base.{ℤ, ℕ, String, Bool, Option, List}
use cc_005_offline_inspectio.Json.{Json}
use cc_005_offline_inspectio.Models.{Field, ConflictStatus, UploadState, OpResult}

pub record User : Type 0 where
  pub id : ℕ
  pub username : String
  pub password_hash : String
  pub display_name : String

pub record Inspection : Type 0 where
  pub id : ℕ
  pub owner_id : ℕ
  pub title : String
  pub status : String
  pub findings : String
  pub notes : String
  pub checked_items : Json
  pub photo_caption : String
  pub is_deleted : Bool
  pub rev : ℕ
  pub updated_at : ℕ

pub record FieldRev : Type 0 where
  pub inspection_id : ℕ
  pub field : Field
  pub value : Json
  pub op_id : ℕ
  pub updated_at : ℕ

pub record Conflict : Type 0 where
  pub id : ℕ
  pub inspection_id : ℕ
  pub field : Field
  pub server_value : Json
  pub client_value : Json
  pub server_op_id : ℕ
  pub client_op_id : ℕ
  pub status : ConflictStatus
  pub resolved_value : Option Json
  pub created_at : ℕ
  pub resolved_at : Option ℕ

pub record ProcessedOp : Type 0 where
  pub op_id : ℕ
  pub user_id : ℕ
  pub result : OpResult

pub record Attachment : Type 0 where
  pub id : ℕ
  pub inspection_id : ℕ
  pub upload_id : String
  pub filename : String
  pub content_type : String
  pub size : ℤ
  pub object_key : String
  pub status : UploadState
  pub created_by : ℕ
  pub created_at : ℕ

pub record UploadPart : Type 0 where
  pub upload_id : String
  pub part_number : ℕ
  pub etag : String

pub record Db : Type 0 where
  pub users : List User
  pub inspections : List Inspection
  pub field_revs : List FieldRev
  pub conflicts : List Conflict
  pub processed_ops : List ProcessedOp
  pub attachments : List Attachment
  pub upload_parts : List UploadPart
