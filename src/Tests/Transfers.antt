-- ===== src/Tests/Transfers.antt =====
-- The theorems on the begin, the status and the content of uploads, and on the listing of parts.
use cc_005_offline_inspectio.Base.{
  positive, pos, ℕ, String, Option, none, some, List, [], ◌∷◌, true, false, ◌≡◌, ◌↔◌, ◌<◌, refl,
  ltb, ◌==◌, str_eq, if◌then◌else◌, arith, inl, inr, Bool-cases,
}
use cc_005_offline_inspectio.Base.Rows.{first, select, exists, order_by, update}
use cc_005_offline_inspectio.Base.Rows.Order.{holds}
use cc_005_offline_inspectio.Models.{UploadState}
use cc_005_offline_inspectio.Tx.{
  Result, ok, err, World, attempt, pure, query, statement, now, new_uuid, ◌>>=◌,
}
use cc_005_offline_inspectio.Tx.Inversion.{Returns}
use cc_005_offline_inspectio.Retry.{connected, with_retry}
use cc_005_offline_inspectio.Retry.Laws.{with_retry_iff, Failed}
use cc_005_offline_inspectio.Store.{Page, completed_parts}
use cc_005_offline_inspectio.Store.Listing.{Answers, IsAll, completed_parts-IsAll}
use cc_005_offline_inspectio.Uploads.{
  Reply, progress, Progress, started, Started, access_of, authorize_upload, put_part,
  put_authorized, replay_part, store_part, record_part, part_recorded, insert_part, limited,
  complete_upload, complete_authorized, complete_parts, complete_without_gap, complete_stored,
  completion, first_gap, set_completed,
}
use cc_005_offline_inspectio.Uploads.ContentType.{
  is_space, is_empty, has_newline, IsTrimmedLine, sanitize, trim_left, trim_right, trim_space,
  sanitize-IsTrimmedLine, sanitize_iff,
}
use cc_005_offline_inspectio.Uploads.Resume.{
  reconciled, progress_of, answer_status, reconcile, status_authorized, upload_status,
}
use cc_005_offline_inspectio.Uploads.Resume.Received.{IsReportOf, upload_status-IsReportOf}
use cc_005_offline_inspectio.Uploads.Start.{
  Request, insert_attachment, row_inserted, start_upload, start_on, start_parsed, create_upload,
}
use cc_005_offline_inspectio.Uploads.Start.Blocking.{IsMine, IsBegun, create_upload-IsBegun}
use cc_005_offline_inspectio.Uploads.Fetch.{
  Answer, sent as sent_answer, Object, Content, guarded, content_sent, attachment_content,
}
use cc_005_offline_inspectio.Uploads.Fetch.Owner.{
  IsReadable, IsContentOf, attachment_content-IsReadable,
}
use cc_005_offline_inspectio.Db.{Attachment}
use cc_005_offline_inspectio.Tests.Setting.{alice, busy, outside}
use cc_005_offline_inspectio.Tests.Uploading.{sent, uploaded}

-- the first three attempts fail
abbrev tries : ℕ → Result ℕ
tries n = if ltb n 3 then err "refused" else ok n

abbrev waits : ℕ → Option String
waits n = none

with_retry_iff_example :
    (with_retry tries waits 30 ≡ connected 3)
    ↔ ((k : ℕ) × (k < 30) × (tries k ≡ ok 3) × ((j : ℕ) → j < k → Failed tries waits j))
with_retry_iff_example = with_retry_iff tries waits 30 3

-- three parts, of which the first page has two
abbrev there : List ℕ
there = 1 ∷ 2 ∷ 3 ∷ []

abbrev page_at : ℕ → Page
page_at marker =
    if marker == 0
    then record { parts = 1 ∷ 2 ∷ []; truncated = true; next_marker = 2 }
    else record { parts = there; truncated = false; next_marker = 0 }

pages : Answers (λ marker. ok (page_at marker)) there 3
unfolding holds
pages marker = (
  page_at marker,
  refl,
  elim (Bool-cases (marker == 0)) [
    | inl e ↦ rw e (record {
      sound = λ n h. ground arith;
      complete = λ n h low. ground arith;
      progress = λ h. ground arith;
      bounded = λ h. omega arith;
    })
    | inr e ↦ rw e (record {
      sound = λ n h. h;
      complete = λ n h low. inl h;
      progress = λ h. cc h;
      bounded = λ h. cc h;
    })
  ],
)

no_part_zero : holds 0 there ≡ false
unfolding holds
no_part_zero = refl

completed_parts-IsAll_example :
    (all : List ℕ) × (completed_parts (λ marker. ok (page_at marker)) 10001 ≡ some (ok all))
    × IsAll (λ marker. ok (page_at marker)) there 3 all
completed_parts-IsAll_example =
    completed_parts-IsAll (λ marker. ok (page_at marker)) there 3 10001 pages no_part_zero
      (omega arith)

sanitize-IsTrimmedLine_example : IsTrimmedLine (sanitize " image/jpeg\r\nX-Evil: 1")
sanitize-IsTrimmedLine_example = sanitize-IsTrimmedLine " image/jpeg\r\nX-Evil: 1"

sanitize_iff_example : (sanitize "image/jpeg" ≡ "image/jpeg") ↔ IsTrimmedLine "image/jpeg"
sanitize_iff_example = sanitize_iff "image/jpeg"

-- the object store has a part that the ledger lacks
abbrev lists : String → String → Result (List ℕ)
lists upload_id key = ok (2 ∷ 1 ∷ [])

abbrev asked : Result Reply × World
asked = upload_status lists alice "u" sent

abbrev nothing : Progress
nothing = record {
  attachment_id = 0;
  state = UploadState.uploading;
  size = pos 0;
  received_parts = [];
  parts = [];
  completed = false;
}

abbrev reported : Result Reply → Progress
reported (ok (progress p)) = p
reported _ = nothing

asked_fine : Returns (upload_status lists alice "u") sent (progress (reported asked.0)) asked.1
unfolding upload_status status_authorized reconcile answer_status progress_of reconciled put_part
    authorize_upload access_of put_authorized replay_part store_part record_part part_recorded
    insert_part limited attempt pure query statement first select exists order_by holds ◌>>=◌
asked_fine = (refl, refl)

upload_status-IsReportOf_example : IsReportOf lists alice "u" (reported asked.0) sent
upload_status-IsReportOf_example =
    upload_status-IsReportOf lists alice "u" (reported asked.0) sent asked.1 asked_fine

abbrev photo_request : Request
photo_request = record {
  inspection_id = "inspection";
  filename = "q.jpg";
  content_type = "image/jpeg";
  size = pos 9;
  total_parts = pos 2;
}

abbrev key_of : String → ℕ → String
key_of inspection_id id = "q"

abbrev begin : String → String → Result String
begin key content_type = ok "v"

abbrev begun : Result Reply × World
begun = create_upload outside 8 key_of begin alice (some photo_request) busy

abbrev no_start : Started
no_start = record { attachment_id = 0; upload_id = ""; object_key = ""; chunk_size = 0 }

abbrev start_of : Result Reply → Started
start_of (ok (started s)) = s
start_of _ = no_start

begun_fine :
    Returns
      (create_upload outside 8 key_of begin alice (some photo_request))
      busy
      (started (start_of begun.0))
      begun.1
unfolding create_upload start_parsed start_on start_upload row_inserted insert_attachment sanitize
    trim_space trim_left trim_right is_space is_empty has_newline attempt pure query statement now
    new_uuid first exists ◌>>=◌
begun_fine = (refl, refl)

create_upload-IsBegun_example :
    (req : Request) × (id : ℕ) × (some photo_request ≡ some req)
    × (outside.parse_uuid req.inspection_id ≡ some id)
    × (str_eq req.filename "" ≡ false)
    × (positive req.total_parts ≡ true)
    × IsMine alice id busy.db
    × IsBegun alice id (start_of begun.0) begun.1.db
create_upload-IsBegun_example =
    create_upload-IsBegun outside 8 key_of begin alice (some photo_request) (start_of begun.0) busy
      begun.1 begun_fine

abbrev object_of : String → Result Object
object_of key = ok (record { size = 1; bytes = 7 ∷ [] })

abbrev quote : String → String
quote s = s

abbrev fetched : Result (Answer Content) × World
fetched = attachment_content object_of quote alice 70 uploaded

abbrev no_content : Content
no_content = record { content_type = ""; content_length = 0; inline_filename = ""; body = [] }

abbrev content_of : Result (Answer Content) → Content
content_of (ok (sent_answer c)) = c
content_of _ = no_content

fetched_fine :
    Returns
      (attachment_content object_of quote alice 70)
      uploaded
      (sent_answer (content_of fetched.0))
      fetched.1
unfolding attachment_content guarded content_sent put_part authorize_upload access_of put_authorized
    replay_part store_part record_part part_recorded insert_part limited attempt pure query
    statement first exists select order_by update complete_upload complete_authorized complete_parts
    complete_without_gap complete_stored completion first_gap set_completed ◌>>=◌
fetched_fine = (refl, refl)

attachment_content-IsReadable_example :
    (a : Attachment) × IsReadable alice 70 a uploaded.db
    × IsContentOf object_of quote a (content_of fetched.0)
attachment_content-IsReadable_example =
    attachment_content-IsReadable object_of quote alice 70 (content_of fetched.0) uploaded fetched.1
      fetched_fine
