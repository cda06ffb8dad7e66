-- ===== src/Uploads.antt =====
-- `authorizeUpload`, `putPart` and `completeUpload` of backend/internal/api/handlers_uploads.go. Their
-- statements run outside a transaction, so what one of them wrote stays when a later one fails.
pub mod Completion
pub mod ContentType
pub mod Kept
pub mod Parts
pub mod Start
pub mod Fetch
pub mod Resume
pub mod Completes
use cc_005_offline_inspectio.Base.{
  ℤ, ℕ, String, Bool, true, false, not, ◌||◌, ◌&&◌, Option, none, some, List, [], ◌∷◌, ltb, ◌==◌,
  str_eq, ◌-◌, if◌then◌else◌, ◌+◌,
}
use cc_005_offline_inspectio.Base.Rows.{length, first, select, update, exists, insert, order_by}
use cc_005_offline_inspectio.Models.{UploadState, uploading, completed}
use cc_005_offline_inspectio.Db.{Db, Attachment, Inspection, UploadPart, inspection}
use cc_005_offline_inspectio.Tx.{
  Result, ok, err, Tx, Statement, pure, statement, query, query_rows, attempt, ◌>>=◌,
}

-- the texts of the errors
pub data Problem : Type 0 where
  bad_part_number upload_not_found not_assigned_to_you exceeds_chunk empty_part no_parts : Problem
  upload_already : UploadState → Problem
  missing_part : ℕ → Problem
  read_body object_store database : String → Problem
  no_filename_or_parts bad_inspection_id inspection_not_found inspection_deleted not_found : Problem
  upload_incomplete : Problem
  store_problem : String → Problem

-- the answer of `uploadStatus`
pub record Progress : Type 0 where
  pub attachment_id : ℕ
  pub state : UploadState
  pub size : ℤ
  pub received_parts : List ℕ
  pub parts : List UploadPart
  pub completed : Bool

-- the answer of `createUpload`
pub record Started : Type 0 where
  pub attachment_id : ℕ
  pub upload_id : String
  pub object_key : String
  pub chunk_size : ℕ

-- an answer of a handler: an HTTP code with a text, or what it did
pub data Reply : Type 0 where
  failed : ℕ → Problem → Reply
  received : ℕ → String → Bool → Reply
  finished : ℕ → Reply
  finished_before : Reply
  progress : Progress → Reply
  started : Started → Reply
  -- an answer 500 after AbortMultipart, with the error of the statement
  aborted : String → String → String → Reply

-- a row of the join of `attachments` with the owner of its inspection
abbrev pub with_owner : Attachment → Option Inspection → Option (Attachment × ℕ)
with_owner a none = none
with_owner a (some r) = some (a, r.owner_id)

abbrev pub joined : Db → Option Attachment → Option (Attachment × ℕ)
joined db none = none
joined db (some a) = with_owner a (inspection db a.inspection_id)

abbrev pub upload_of : String → Db → Option (Attachment × ℕ)
upload_of upload_id db = joined db (first (λ a. str_eq a.upload_id upload_id) db.attachments)

pub data Access : Type 0 where
  granted : Attachment → Access
  denied : Reply → Access

unfoldable pub access_of : ℕ → Result (Option (Attachment × ℕ)) → Access
access_of user (err e) = denied (failed 500 (database e))
access_of user (ok none) = denied (failed 404 upload_not_found)
access_of user (ok (some (a, owner))) =
    if not (owner == user) then denied (failed 403 not_assigned_to_you) else granted a

unfoldable pub authorize_upload : String → ℕ → Tx Access
authorize_upload upload_id user = do
  found ← attempt (query (upload_of upload_id))
  pure (access_of user found)

abbrev pub is_part : String → ℕ → UploadPart → Bool
is_part upload_id n p = str_eq p.upload_id upload_id && p.part_number == n

-- INSERT … ON CONFLICT (upload_id, part_number) DO NOTHING
unfoldable pub insert_part : UploadPart → Statement (Unit {0})
insert_part p db =
    if exists (is_part p.upload_id p.part_number) db.upload_parts
    then ok (tt, db)
    else ok (tt, record db { upload_parts = insert p db.upload_parts })

-- io.LimitReader: at most `n` bytes
unfoldable pub limited : ℕ → List ℕ → List ℕ
limited n [] = []
limited n (b ∷ bs) = let rest = limited (n - 1) bs in if ltb 0 n then b ∷ rest else []

abbrev pub is_uploading : UploadState → Bool
is_uploading uploading = true
is_uploading _ = false

abbrev pub is_finished : UploadState → Bool
is_finished completed = true
is_finished _ = false

unfoldable pub part_recorded : ℕ → String → Result (Unit {0}) → Reply
part_recorded n etag (err e) = failed 500 (database e)
part_recorded n etag (ok _) = received n etag false

unfoldable pub record_part : String → ℕ → Result String → Tx Reply
record_part upload_id n (err e) = pure (failed 502 (object_store e))
record_part upload_id n (ok etag) = do
  done ←
      attempt
        (statement (insert_part (record { upload_id = upload_id; part_number = n; etag = etag })))
  pure (part_recorded n etag done)

-- `chunk_size` is the configured size; `store` is what the object store answers to this part
module _ (chunk_size : ℕ) (store : String → ℕ → List ℕ → Result String) where
  unfoldable pub store_part : String → Attachment → ℕ → Result (List ℕ) → Tx Reply
  store_part upload_id a n (err e) = pure (failed 400 (read_body e))
  store_part upload_id a n (ok bytes) =
      let body = limited (chunk_size + 1) bytes in
      if ltb chunk_size (length body)
      then pure (failed 413 exceeds_chunk)
      else if length body == 0
      then pure (failed 400 empty_part)
      else record_part upload_id n (store a.object_key n body)

  -- with what the ledger of parts holds
  unfoldable pub replay_part :
      String → Attachment → ℕ → Result (List ℕ) → Result (Option UploadPart) → Tx Reply
  replay_part upload_id a n body (err e) = pure (failed 500 (database e))
  replay_part upload_id a n body (ok (some p)) = pure (received n p.etag true)
  replay_part upload_id a n body (ok none) = store_part upload_id a n body

  unfoldable pub put_authorized : String → ℕ → Result (List ℕ) → Access → Tx Reply
  put_authorized upload_id n body (denied r) = pure r
  put_authorized upload_id n body (granted a) =
      if not (is_uploading a.status) then pure (failed 409 (upload_already a.status)) else do
        held ← attempt (query (λ db. first (is_part upload_id n) db.upload_parts))
        replay_part upload_id a n body held

  -- `part_num` is `none` for a text that is no number or a negative one
  unfoldable pub put_part : ℕ → String → Option ℕ → Result (List ℕ) → Tx Reply
  put_part user upload_id none body = pure (failed 400 bad_part_number)
  put_part user upload_id (some n) body =
      if ltb n 1 || ltb 10000 n
      then pure (failed 400 bad_part_number)
      else do access ← authorize_upload upload_id user; put_authorized upload_id n body access

-- the first number that is missing from the parts, which should count up from `n`
unfoldable pub first_gap : ℕ → List UploadPart → Option ℕ
first_gap n [] = none
first_gap n (p ∷ ps) =
    let rest = first_gap (n + 1) ps in if not (p.part_number == n) then some n else rest

-- SELECT … FROM upload_parts WHERE upload_id=$1 ORDER BY part_number
abbrev pub parts_of : String → Db → List UploadPart
parts_of upload_id db =
    order_by (λ p. p.part_number) (select (λ p. str_eq p.upload_id upload_id) db.upload_parts)

unfoldable pub set_completed : ℕ → Statement (Unit {0})
set_completed id db = ok (
  tt,
  record db {
    attachments = update (λ a. a.id == id) (λ a. record a { status = completed }) db.attachments;
  },
)

unfoldable pub completion : ℕ → Result (Unit {0}) → Reply
completion n (err e) = failed 500 (database e)
completion n (ok _) = finished n

-- `store` is what the object store answers to the list of parts
module _ (store : String → List UploadPart → Result (Unit {0})) where
  unfoldable pub complete_stored : Attachment → List UploadPart → Result (Unit {0}) → Tx Reply
  complete_stored a parts (err e) = pure (failed 502 (object_store e))
  complete_stored a parts (ok _) = do
    done ← attempt (statement (set_completed a.id))
    pure (completion (length parts) done)

  unfoldable pub complete_without_gap : Attachment → List UploadPart → Option ℕ → Tx Reply
  complete_without_gap a parts (some n) = pure (failed 409 (missing_part n))
  complete_without_gap a parts none = complete_stored a parts (store a.object_key parts)

  unfoldable pub complete_parts : Attachment → Result (List UploadPart) → Tx Reply
  complete_parts a (err e) = pure (failed 500 (database e))
  complete_parts a (ok []) = pure (failed 409 no_parts)
  complete_parts a (ok (p ∷ ps)) = complete_without_gap a (p ∷ ps) (first_gap 1 (p ∷ ps))

  unfoldable pub complete_authorized : String → Access → Tx Reply
  complete_authorized upload_id (denied r) = pure r
  complete_authorized upload_id (granted a) =
      if is_finished a.status
      then pure finished_before
      else do parts ← attempt (query_rows (parts_of upload_id)); complete_parts a parts

  unfoldable pub complete_upload : ℕ → String → Tx Reply
  complete_upload user upload_id = do
    access ← authorize_upload upload_id user
    complete_authorized upload_id access
