-- ===== src/Uploads/Start.antt =====
-- `createUpload` of backend/internal/api/handlers_uploads.go.
pub mod Blocking
use cc_005_offline_inspectio.Base.{
  ℤ, positive, ℕ, String, Bool, true, false, not, ◌||◌, Option, none, some, ltb, ◌==◌, str_eq,
  if◌then◌else◌,
}
use cc_005_offline_inspectio.Base.Rows.{exists, insert}
use cc_005_offline_inspectio.Models.{uploading}
use cc_005_offline_inspectio.Models.Outside.{Outside}
use cc_005_offline_inspectio.Db.{Db, Attachment, Inspection, inspection, has_id}
use cc_005_offline_inspectio.Tx.{
  Result, ok, err, Tx, Statement, pure, statement, query, attempt, now, new_uuid, ◌>>=◌,
}
use cc_005_offline_inspectio.Uploads.{
  Reply, failed, started, aborted, no_filename_or_parts, bad_inspection_id, inspection_not_found,
  inspection_deleted, not_assigned_to_you, object_store, database,
}
use cc_005_offline_inspectio.Uploads.ContentType.{sanitize}

-- the body of the request
pub record Request : Type 0 where
  pub inspection_id : String
  pub filename : String
  pub content_type : String
  pub size : ℤ
  pub total_parts : ℤ

-- INSERT INTO attachments: its key, the unique upload id, and the references
unfoldable pub insert_attachment : Attachment → Statement (Unit {0})
insert_attachment a db =
    if exists (λ b. b.id == a.id) db.attachments
    then err "duplicate key value violates unique constraint attachments_pkey"
    else if exists (λ b. str_eq b.upload_id a.upload_id) db.attachments
    then err "duplicate key value violates unique constraint attachments_upload_id_key"
    else if not (exists (has_id a.inspection_id) db.inspections)
    then err "violates foreign key constraint attachments_inspection_id_fkey"
    else if not (exists (λ u. u.id == a.created_by) db.users)
    then err "violates foreign key constraint attachments_created_by_fkey"
    else ok (tt, record db { attachments = insert a db.attachments })

-- the row that is inserted; its state is the column's default
abbrev pub new_attachment : ℕ → ℕ → ℕ → String → String → Request → ℕ → Attachment
new_attachment user inspection_id id upload_id key req at = record {
  id = id;
  inspection_id = inspection_id;
  upload_id = upload_id;
  filename = req.filename;
  content_type = sanitize req.content_type;
  size = req.size;
  object_key = key;
  status = uploading;
  created_by = user;
  created_at = at;
}

-- `chunk_size` is the configured size, `key_of` the text of a key, from the inspection and the new id,
-- and `begin` what the object store answers to the start of an upload of a key and a content type
module _ (o : Outside) (chunk_size : ℕ) (key_of : String → ℕ → String)
    (begin : String → String → Result String) where
  unfoldable pub row_inserted : ℕ → String → String → Result (Unit {0}) → Reply
  row_inserted id upload_id key (err e) = aborted upload_id key e
  row_inserted id upload_id key (ok _) = started (record {
    attachment_id = id;
    upload_id = upload_id;
    object_key = key;
    chunk_size = chunk_size;
  })

  unfoldable pub start_upload : ℕ → ℕ → Request → ℕ → Result String → Tx Reply
  start_upload user inspection_id req id (err e) = pure (failed 503 (object_store e))
  start_upload user inspection_id req id (ok upload_id) = do
    at ← now
    let key = key_of req.inspection_id id
    done ←
        attempt (
          statement (insert_attachment (new_attachment user inspection_id id upload_id key req at)))
    pure (row_inserted id upload_id key done)

  unfoldable pub start_on : ℕ → ℕ → Request → Result (Option Inspection) → Tx Reply
  start_on user inspection_id req (err e) = pure (failed 500 (database e))
  start_on user inspection_id req (ok none) = pure (failed 404 inspection_not_found)
  start_on user inspection_id req (ok (some r)) =
      if not (r.owner_id == user)
      then pure (failed 403 not_assigned_to_you)
      else if r.is_deleted
      then pure (failed 409 inspection_deleted)
      else do
        id ← new_uuid
        start_upload user inspection_id req id
            (begin (key_of req.inspection_id id) (sanitize req.content_type))

  unfoldable pub start_parsed : ℕ → Request → Option ℕ → Tx Reply
  start_parsed user req none = pure (failed 400 bad_inspection_id)
  start_parsed user req (some inspection_id) = do
    found ← attempt (query (λ db. inspection db inspection_id))
    start_on user inspection_id req found

  -- `none` is a body that does not decode
  unfoldable pub create_upload : ℕ → Option Request → Tx Reply
  create_upload user none = pure (failed 400 no_filename_or_parts)
  create_upload user (some req) =
      if str_eq req.filename "" || not (positive req.total_parts)
      then pure (failed 400 no_filename_or_parts)
      else start_parsed user req (o.parse_uuid req.inspection_id)
