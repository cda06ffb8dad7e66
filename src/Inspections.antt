-- ===== src/Inspections.antt =====
-- The detail of an inspection and the conflict endpoint of backend/internal/api/handlers_inspection.go.
pub mod Access
pub mod Listing
use cc_005_offline_inspectio.Base.{
  ℕ, String, Bool, not, Option, none, some, List, [], ◌∷◌, ◌++◌, map, ◌==◌, if◌then◌else◌,
}
use cc_005_offline_inspectio.Base.Rows.{first, select, order_by}
use cc_005_offline_inspectio.Json.Equality.{RawMessage}
use cc_005_offline_inspectio.Models.{
  Field, resolve_conflict, Op, AttachmentDto, ConflictDto, InspectionDto, OpResult,
}
use cc_005_offline_inspectio.Models.Outside.{Outside}
use cc_005_offline_inspectio.Db.{Inspection, Conflict, Attachment, Db, inspection}
use cc_005_offline_inspectio.Tx.{
  Result, ok, err, World, Tx, pure, query, query_rows, attempt, ◌>>=◌,
}
use cc_005_offline_inspectio.Snapshot.{scan_inspection, attachment_dto, conflict_dto}
use cc_005_offline_inspectio.Sync.Ledger.{apply_op}
use cc_005_offline_inspectio.Uploads.{parts_of}

pub data Problem : Type 0 where
  not_found not_assigned_to_you conflict_not_found bad_body : Problem
  database : String → Problem

-- an answer of a handler: an HTTP code with a text, a detail, the result of an
-- operation, or the list of the user's inspections
pub data Reply : Type 0 where
  failed : ℕ → Problem → Reply
  detail : InspectionDto → Reply
  resolved : OpResult → Reply
  listed : List InspectionDto → Reply

pub data Fetched : Type 0 where
  fetched : InspectionDto → Fetched
  unfetched : Reply → Fetched

unfoldable pub fetched_of : ℕ → Result (Option Inspection) → Fetched
unfolding scan_inspection
fetched_of user (err e) = unfetched (failed 500 (database e))
fetched_of user (ok none) = unfetched (failed 404 not_found)
fetched_of user (ok (some r)) =
    if not (r.owner_id == user)
    then unfetched (failed 403 not_assigned_to_you)
    else fetched (scan_inspection r)

unfoldable pub fetch_one : ℕ → ℕ → Tx Fetched
fetch_one id user = do
  found ← attempt (query (λ db. inspection db id))
  pure (fetched_of user found)

-- an attachment with the numbers of the parts in the ledger
abbrev pub with_parts : Db → Attachment → AttachmentDto
with_parts db a = record (attachment_dto a) {
  received_parts = map (λ p. p.part_number) (parts_of a.upload_id db);
}

abbrev pub attachments_for : ℕ → Db → List AttachmentDto
attachments_for id db =
    map (with_parts db)
      (order_by (λ a. a.created_at) (select (λ a. a.inspection_id == id) db.attachments))

abbrev with_resolution : Conflict → ConflictDto
with_resolution c = record (conflict_dto c) { resolved_at = c.resolved_at }

abbrev pub latest_first {ℓ} : {A : Type ℓ} → List A → List A → List A
latest_first [] done = done
latest_first (c ∷ cs) done = latest_first cs (c ∷ done)

-- SELECT … FROM conflicts WHERE inspection_id=$1 ORDER BY created_at DESC
abbrev conflicts_for : ℕ → Db → List ConflictDto
conflicts_for id db = map with_resolution (
    latest_first (order_by (λ c. c.created_at) (select (λ c. c.inspection_id == id) db.conflicts))
      [])

unfoldable pub with_conflicts :
    InspectionDto → List AttachmentDto → Result (List ConflictDto) → Reply
with_conflicts d as' (err e) = failed 500 (database e)
with_conflicts d as' (ok cs) = detail (record d { attachments = as'; conflicts = cs })

unfoldable pub with_attachments : ℕ → InspectionDto → Result (List AttachmentDto) → Tx Reply
with_attachments id d (err e) = pure (failed 500 (database e))
with_attachments id d (ok as') = do
  cs ← attempt (query_rows (conflicts_for id))
  pure (with_conflicts d as' cs)

unfoldable pub detail_of : ℕ → Fetched → Tx Reply
detail_of id (unfetched r) = pure r
detail_of id (fetched d) = do
  as' ← attempt (query_rows (attachments_for id))
  with_attachments id d as'

unfoldable pub get_inspection : ℕ → ℕ → Tx Reply
get_inspection user id = do found ← fetch_one id user; detail_of id found

-- the body of a request to resolve a conflict
pub record Resolution : Type 0 where
  pub inspection_id : String
  pub field : Field
  pub chosen_value : RawMessage

-- `op_id` is what uuid.NewString makes
abbrev pub resolve_op : String → Resolution → Op
resolve_op op_id req = record {
  op_id = op_id;
  kind = resolve_conflict;
  inspection_id = req.inspection_id;
  changes = [];
  field = req.field;
  new_value = req.chosen_value;
  ts = 0;
}

abbrev owner_of : Option Inspection → Option ℕ
owner_of none = none
owner_of (some r) = some r.owner_id

abbrev owner_at : Db → Option Conflict → Option ℕ
owner_at db none = none
owner_at db (some c) = owner_of (inspection db c.inspection_id)

-- the owner of the inspection of a conflict
abbrev pub conflict_owner : ℕ → Db → Option ℕ
conflict_owner id db = owner_at db (first (λ c. c.id == id) db.conflicts)

module _ (o : Outside) where
  abbrev replied : OpResult × World → Reply × World
  replied (res, w) = (resolved res, w)

  unfoldable pub resolve_owned : ℕ → Op → Result (Option ℕ) → World → Reply × World
  resolve_owned user op (err e) w = (failed 404 conflict_not_found, w)
  resolve_owned user op (ok none) w = (failed 404 conflict_not_found, w)
  resolve_owned user op (ok (some owner)) w =
      if not (owner == user)
      then (failed 403 not_assigned_to_you, w)
      else replied (apply_op o user op w)

  -- with what the query for the owner returned
  abbrev resolve_asked : ℕ → Op → Result (Option ℕ) × World → Reply × World
  resolve_asked user op (owner, w) = resolve_owned user op owner w

  -- `none` is a body that does not decode
  unfoldable pub resolve_endpoint : ℕ → ℕ → String → Option Resolution → World → Reply × World
  resolve_endpoint user conflict_id op_id none w = (failed 400 bad_body, w)
  resolve_endpoint user conflict_id op_id (some req) w =
      resolve_asked user (resolve_op op_id req) (query (conflict_owner conflict_id) w)
