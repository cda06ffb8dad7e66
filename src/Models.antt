-- ===== src/Models.antt =====
-- The wire types of backend/internal/api/models.go. A text that the code only compares is a data
-- type with the texts that it compares with, and a constructor for any other where the text comes
-- from a client. Times are numbers, a UUID is the number of its 128 bits.
mod Fields
pub mod Outside
unfoldable pub use Fields.*
use cc_005_offline_inspectio.Base.{ℤ, ℕ, String, Bool, Option, List}
use cc_005_offline_inspectio.Json.{Json}
use cc_005_offline_inspectio.Json.Equality.{RawMessage}

-- FieldChange: the new value, and the value that the client last saw
pub record FieldChange : Type 0 where
  pub v : RawMessage
  pub base : RawMessage

-- a Go map, in the order in which `range` happens to visit its keys
abbrev pub Changes : Type 0
Changes = List (Field × FieldChange)

pub data OpType : Type 0 where
  upsert delete resolve_conflict : OpType
  unknown_op : String → OpType

pub record Op : Type 0 where
  pub op_id : String
  pub kind : OpType
  pub inspection_id : String
  pub changes : Changes
  pub field : Field
  pub new_value : RawMessage
  pub ts : ℕ

pub data ConflictStatus : Type 0 where
  open_conflict resolved : ConflictStatus

pub record ConflictDto : Type 0 where
  pub id : ℕ
  pub field : Field
  pub server_value : RawMessage
  pub client_value : RawMessage
  pub server_op_id : ℕ
  pub client_op_id : ℕ
  pub status : ConflictStatus
  pub resolved_value : RawMessage
  pub created_at : ℕ
  pub resolved_at : Option ℕ

pub data UploadState : Type 0 where
  uploading completed failed : UploadState

pub record AttachmentDto : Type 0 where
  pub id : ℕ
  pub filename : String
  pub content_type : String
  pub size : ℤ
  pub status : UploadState
  pub upload_id : String
  pub received_parts : List ℕ
  pub url : String

pub record InspectionDto : Type 0 where
  pub id : ℕ
  pub owner_id : ℕ
  pub title : String
  pub status : String
  pub findings : String
  pub notes : String
  pub checked_items : Json
  pub photo_caption : String
  pub is_deleted : Bool
  pub rev : ℕ
  pub updated_at : ℕ
  pub attachments : List AttachmentDto
  pub conflicts : List ConflictDto
  pub open_conflict_fields : List Field
  pub pending_attachments : ℕ

-- OpResult.Status
pub data OpStatus : Type 0 where
  applied duplicate conflict forbidden deleted incomplete invalid error : OpStatus

-- OpResult.Code; `no_code` is the empty text
pub data Code : Type 0 where
  no_code bad_op_id unknown_type bad_inspection_id op_id_collision validation : Code
  not_assigned inspection_deleted attachments_incomplete bad_field not_found no_open_conflict : Code

-- OpResult.Message: a constructor for each text, with what is formatted into it
pub data Message : Type 0 where
  no_message op_id_not_uuid unknown_op_type id_of_other_user assigned_to_other : Message
  edit_of_deleted no_conflict_for_field changes_required invalid_status : Message
  not_editable missing_value missing_base : Field → Message
  not_fully_uploaded : ℕ → Message
  failure ledger_failure : String → Message

pub record OpResult : Type 0 where
  pub op_id : String
  pub status : OpStatus
  pub code : Code
  pub message : Message
  pub conflicts : List ConflictDto
  pub inspection : Option InspectionDto
