-- ===== src/Uploads/Resume.antt =====
-- `uploadStatus` of backend/internal/api/handlers_uploads.go.
pub mod Received
use cc_005_offline_inspectio.Base.{ℕ, String, Option, List, map, str_eq}
use cc_005_offline_inspectio.Base.Rows.{select, order_by}
use cc_005_offline_inspectio.Base.Rows.Order.{holds}
use cc_005_offline_inspectio.Db.{Db, Attachment, UploadPart}
use cc_005_offline_inspectio.Tx.{Result, ok, err, Tx, pure, query_rows, attempt, ◌>>=◌}
use cc_005_offline_inspectio.Uploads.{
  Reply, failed, progress, Progress, Access, granted, denied, authorize_upload, object_store,
  database, is_finished,
}

-- SELECT part_number, etag FROM upload_parts WHERE upload_id=$1
abbrev pub ledger_of : String → Db → List UploadPart
ledger_of upload_id db = select (λ p. str_eq p.upload_id upload_id) db.upload_parts

abbrev pub numbers_of : List UploadPart → List ℕ
numbers_of ps = map (λ p. p.part_number) ps

-- the parts of the ledger that the object store has, in the order of their numbers
unfoldable pub reconciled : List UploadPart → List ℕ → List UploadPart
reconciled ledger there =
    order_by (λ p. p.part_number) (select (λ p. holds p.part_number there) ledger)

unfoldable pub progress_of : Attachment → List UploadPart → Progress
progress_of a parts = record {
  attachment_id = a.id;
  state = a.status;
  size = a.size;
  received_parts = numbers_of parts;
  parts = parts;
  completed = is_finished a.status;
}

-- with what CompletedParts answers
unfoldable pub answer_status : Attachment → List UploadPart → Result (List ℕ) → Reply
answer_status a ledger (err e) = failed 502 (object_store e)
answer_status a ledger (ok there) = progress (progress_of a (reconciled ledger there))

-- `completed_parts` is what the object store answers to an upload id and a key
module _ (completed_parts : String → String → Result (List ℕ)) where
  unfoldable pub reconcile : Attachment → Result (List UploadPart) → Reply
  reconcile a (err e) = failed 500 (database e)
  reconcile a (ok ledger) = answer_status a ledger (completed_parts a.upload_id a.object_key)

  unfoldable pub status_authorized : Access → Tx Reply
  status_authorized (denied r) = pure r
  status_authorized (granted a) = do
    ledger ← attempt (query_rows (ledger_of a.upload_id))
    pure (reconcile a ledger)

  unfoldable pub upload_status : ℕ → String → Tx Reply
  upload_status user upload_id = do
    access ← authorize_upload upload_id user
    status_authorized access
