-- ===== src/Snapshot.antt =====
-- `scanInspection` and `loadDTO` of backend/internal/api/handlers_inspection.go.
use cc_005_offline_inspectio.Base.{ℕ, ◌&&◌, Option, none, some, List, [], map, ◌==◌}
use cc_005_offline_inspectio.Base.Rows.{first, select, order_by}
use cc_005_offline_inspectio.Models.{AttachmentDto, ConflictDto, InspectionDto}
use cc_005_offline_inspectio.Db.{Inspection, Conflict, Attachment, Db, is_open}
use cc_005_offline_inspectio.Tx.{Tx, pure, throw, query, ◌>>=◌}

-- the columns, with no attachments and no conflicts; the aggregates of the list view are zero
unfoldable pub scan_inspection : Inspection → InspectionDto
scan_inspection r = record {
  id = r.id;
  owner_id = r.owner_id;
  title = r.title;
  status = r.status;
  findings = r.findings;
  notes = r.notes;
  checked_items = r.checked_items;
  photo_caption = r.photo_caption;
  is_deleted = r.is_deleted;
  rev = r.rev;
  updated_at = r.updated_at;
  attachments = [];
  conflicts = [];
  open_conflict_fields = [];
  pending_attachments = 0;
}

abbrev pub attachment_dto : Attachment → AttachmentDto
attachment_dto a = record {
  id = a.id;
  filename = a.filename;
  content_type = a.content_type;
  size = a.size;
  status = a.status;
  upload_id = a.upload_id;
  received_parts = [];
  url = "";
}

abbrev pub conflict_dto : Conflict → ConflictDto
conflict_dto c = record {
  id = c.id;
  field = c.field;
  server_value = some c.server_value;
  client_value = some c.client_value;
  server_op_id = c.server_op_id;
  client_op_id = c.client_op_id;
  status = c.status;
  resolved_value = none;
  created_at = c.created_at;
  resolved_at = none;
}

-- SELECT … FROM attachments WHERE inspection_id=$1 ORDER BY created_at
unfoldable pub attachments_of : ℕ → Db → List AttachmentDto
attachments_of id db =
    map attachment_dto
      (order_by (λ a. a.created_at) (select (λ a. a.inspection_id == id) db.attachments))

-- SELECT … FROM conflicts WHERE inspection_id=$1 AND status='open' ORDER BY created_at
unfoldable pub open_conflicts_of : ℕ → Db → List ConflictDto
open_conflicts_of id db = map conflict_dto (
    order_by (λ c. c.created_at)
      (select (λ c. c.inspection_id == id && is_open c.status) db.conflicts))

-- SELECT … FROM inspections WHERE id=$1 AND owner_id=$2
abbrev owned_inspection : ℕ → ℕ → Db → Option Inspection
owned_inspection id user db = first (λ r. r.id == id && r.owner_id == user) db.inspections

abbrev pub or_no_rows {ℓ} : {A : Type ℓ} → Option A → Tx A
or_no_rows none = throw "no rows in result set"
or_no_rows (some a) = pure a

unfoldable pub load_dto : ℕ → ℕ → Tx InspectionDto
unfolding scan_inspection
load_dto id user = do
  found ← query (owned_inspection id user)
  r ← or_no_rows found
  as' ← query (attachments_of id)
  cs ← query (open_conflicts_of id)
  pure (record (scan_inspection r) { attachments = as'; conflicts = cs })
