-- ===== src/Uploads/Fetch.antt =====
-- `attachmentContent` and `downloadAttachment` of backend/internal/api/handlers_uploads.go.
pub mod Owner
pub mod Expired
use cc_005_offline_inspectio.Base.{ℕ, String, not, Option, none, some, List, ◌==◌, if◌then◌else◌}
use cc_005_offline_inspectio.Base.Rows.{first}
use cc_005_offline_inspectio.Db.{Db, Attachment}
use cc_005_offline_inspectio.Tx.{Result, ok, err, Tx, pure, query, attempt, ◌>>=◌}
use cc_005_offline_inspectio.Uploads.{
  Problem, not_found, not_assigned_to_you, upload_incomplete, object_store, store_problem, database,
  is_finished, joined,
}

-- an answer: an HTTP code with a text, or what is sent
pub data Answer (A : Type 0) : Type 0 where
  refusal : ℕ → Problem → Answer A
  sent : A → Answer A

-- an object of the store, with its size, and the bytes that its reader gives, up to its end or an error
pub record Object : Type 0 where
  pub size : ℕ
  pub bytes : List ℕ

-- the headers and the body of the content
pub record Content : Type 0 where
  pub content_type : String
  pub content_length : ℕ
  pub inline_filename : String
  pub body : List ℕ

pub record Link : Type 0 where
  pub url : String
  pub filename : String
  pub content_type : String

-- the join of `attachments` with the owner of its inspection, by the attachment's id
abbrev pub attachment_of : ℕ → Db → Option (Attachment × ℕ)
attachment_of id db = joined db (first (λ a. a.id == id) db.attachments)

-- The checks of both handlers on what the query for the attachment returned; `send` goes on with an
-- attachment that passes them.
module _ {A : Type 0} (send : Attachment → Answer A) where
  unfoldable pub guarded : ℕ → Result (Option (Attachment × ℕ)) → Answer A
  guarded user (err e) = refusal 500 (database e)
  guarded user (ok none) = refusal 404 not_found
  guarded user (ok (some (a, owner))) =
      if not (owner == user)
      then refusal 403 not_assigned_to_you
      else if not (is_finished a.status)
      then refusal 409 upload_incomplete
      else send a

-- `get_object` is what the object store answers to a key, `quote` is strconv.Quote. The error of io.Copy is
-- not looked at: the bytes may be fewer than the length says.
module _ (get_object : String → Result Object) (quote : String → String) where
  unfoldable pub content_sent : Attachment → Result Object → Answer Content
  content_sent a (err e) = refusal 502 (object_store e)
  content_sent a (ok obj) = sent (record {
    content_type = a.content_type;
    content_length = obj.size;
    inline_filename = quote a.filename;
    body = obj.bytes;
  })

  abbrev pub send_content : Attachment → Answer Content
  send_content a = content_sent a (get_object a.object_key)

  unfoldable pub attachment_content : ℕ → ℕ → Tx (Answer Content)
  attachment_content user id = do
    found ← attempt (query (attachment_of id))
    pure (guarded send_content user found)

-- `presign` is what the object store answers to a key
module _ (presign : String → Result String) where
  unfoldable pub link_sent : Attachment → Result String → Answer Link
  link_sent a (err e) = refusal 502 (store_problem e)
  link_sent a (ok u) =
      sent (record { url = u; filename = a.filename; content_type = a.content_type })

  abbrev pub send_link : Attachment → Answer Link
  send_link a = link_sent a (presign a.object_key)

  unfoldable pub download_attachment : ℕ → ℕ → Tx (Answer Link)
  download_attachment user id = do
    found ← attempt (query (attachment_of id))
    pure (guarded send_link user found)
