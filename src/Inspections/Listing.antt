-- ===== src/Inspections/Listing.antt =====
-- `listInspections`, `fillAttachments`, `fillOpenConflicts` and `scanInspectionWithAggregates` of
-- backend/internal/api/handlers_inspection.go.
pub mod Bulk
pub mod Complete
use cc_005_offline_inspectio.Base.{ℕ, String, Bool, ◌&&◌, List, [], ◌∷◌, map, ◌==◌}
use cc_005_offline_inspectio.Base.Rows.{select, exists, update, insert, order_by}
use cc_005_offline_inspectio.Models.{AttachmentDto, ConflictDto, InspectionDto}
use cc_005_offline_inspectio.Db.{Db, Inspection, Attachment, Conflict, is_open}
use cc_005_offline_inspectio.Tx.{Result, ok, err, Tx, pure, query_rows, attempt, ◌>>=◌}
use cc_005_offline_inspectio.Snapshot.{scan_inspection, conflict_dto}
use cc_005_offline_inspectio.Sync.Statements.{incomplete_attachments}
use cc_005_offline_inspectio.Inspections.{
  Problem, database, Reply, failed, listed, with_parts, latest_first,
}

-- a row with the fields of its open conflicts and the number of its attachments not uploaded yet
unfoldable pub scan_with_aggregates : Db → Inspection → InspectionDto
scan_with_aggregates db r = record (scan_inspection r) {
  open_conflict_fields =
      map (λ c. c.field) (select (λ c. c.inspection_id == r.id && is_open c.status) db.conflicts);
  pending_attachments = incomplete_attachments r.id db;
}

-- WHERE owner_id=$1 ORDER BY updated_at DESC
unfoldable pub owned : ℕ → Db → List Inspection
owned user db =
    latest_first (order_by (λ r. r.updated_at) (select (λ r. r.owner_id == user) db.inspections)) []

unfoldable pub list_rows : ℕ → Db → List InspectionDto
list_rows user db = map (scan_with_aggregates db) (owned user db)

-- inspection_id = ANY($1)
abbrev pub among : List InspectionDto → ℕ → Bool
among dtos id = exists (λ d. d.id == id) dtos

-- The loop over the rows of a bulk query: `put` appends a row to the dto of its inspection, which `byID`
-- finds. The ids are keys, so no two of the dtos have the same.
module _ {B : Type 0} (put : B → InspectionDto → InspectionDto) where
  unfoldable pub fill : List (ℕ × B) → List InspectionDto → List InspectionDto
  fill [] dtos = dtos
  fill ((id, b) ∷ rows) dtos = fill rows (update (λ d. d.id == id) (put b) dtos)

abbrev pub put_attachment : AttachmentDto → InspectionDto → InspectionDto
put_attachment a d = record d { attachments = insert a d.attachments }

abbrev pub put_conflict : ConflictDto → InspectionDto → InspectionDto
put_conflict c d = record d { conflicts = insert c d.conflicts }

-- WHERE a.inspection_id = ANY($1) ORDER BY a.created_at
unfoldable pub attachment_rows : List InspectionDto → Db → List (ℕ × AttachmentDto)
attachment_rows dtos db =
    map (λ a. (a.inspection_id, with_parts db a))
      (order_by (λ a. a.created_at) (select (λ a. among dtos a.inspection_id) db.attachments))

-- WHERE inspection_id = ANY($1) AND status='open' ORDER BY created_at
unfoldable pub conflict_rows : List InspectionDto → Db → List (ℕ × ConflictDto)
conflict_rows dtos db =
    map (λ c. (c.inspection_id, conflict_dto c))
      (order_by (λ c. c.created_at)
        (select (λ c. among dtos c.inspection_id && is_open c.status) db.conflicts))

unfoldable pub fill_attachments : List InspectionDto → Tx (List InspectionDto)
fill_attachments [] = pure []
fill_attachments (d ∷ ds) = do
  rows ← query_rows (attachment_rows (d ∷ ds))
  pure (fill put_attachment rows (d ∷ ds))

unfoldable pub fill_open_conflicts : List InspectionDto → Tx (List InspectionDto)
fill_open_conflicts [] = pure []
fill_open_conflicts (d ∷ ds) = do
  rows ← query_rows (conflict_rows (d ∷ ds))
  pure (fill put_conflict rows (d ∷ ds))

unfoldable pub listing : Result (List InspectionDto) → Reply
listing (err e) = failed 500 (database e)
listing (ok out) = listed out

unfoldable pub with_open_conflicts : Result (List InspectionDto) → Tx Reply
with_open_conflicts (err e) = pure (failed 500 (database e))
with_open_conflicts (ok out) = do filled ← attempt (fill_open_conflicts out); pure (listing filled)

unfoldable pub with_all_attachments : Result (List InspectionDto) → Tx Reply
with_all_attachments (err e) = pure (failed 500 (database e))
with_all_attachments (ok out) = do
  filled ← attempt (fill_attachments out)
  with_open_conflicts filled

unfoldable pub list_inspections : ℕ → Tx Reply
list_inspections user = do out ← attempt (query_rows (list_rows user)); with_all_attachments out
