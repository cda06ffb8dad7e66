-- ===== src/Server/Replies.antt =====
-- How the handlers of backend/internal/api write what they answer: the codes, and the headers.
use Prim.Native.String
use cc_005_offline_inspectio.Base.{ℕ, String, Bool, not, ◌||◌, ◌==◌, if◌then◌else◌}
use cc_005_offline_inspectio.Tx.{Result, ok, err}
use cc_005_offline_inspectio.Auth as Auth
use cc_005_offline_inspectio.Auth.{Session, Profile}
use cc_005_offline_inspectio.Sync.Ledger.{SyncResponse, bad_request, results}
use cc_005_offline_inspectio.Inspections as Inspections
use cc_005_offline_inspectio.Inspections.{detail, resolved, listed}
use cc_005_offline_inspectio.Uploads as Uploads
use cc_005_offline_inspectio.Uploads.{
  received, finished, finished_before, progress, started, aborted, database,
}
use cc_005_offline_inspectio.Uploads.Fetch as Fetch
use cc_005_offline_inspectio.Uploads.Fetch.{sent, Content, Link}
use cc_005_offline_inspectio.Server.Writer.{
  Writer, denial, of_inspection, of_upload, invalid_sync_body, health_report, session, profile,
  inspection, inspections, op_result, sync_results, upload_started, part_received, upload_progress,
  upload_completed, completed_before, link, bytes, text, set_header, write_header, write,
  write_json, write_err,
}

unfoldable pub session_written : Auth.Answer Session → Writer → Writer
session_written (Auth.refusal code d) out = write_err code (denial d) out
session_written (Auth.served s) out = write_json 200 (session s) out

unfoldable pub profile_written : Auth.Answer Profile → Writer → Writer
profile_written (Auth.refusal code d) out = write_err code (denial d) out
profile_written (Auth.served p) out = write_json 200 (profile p) out

unfoldable pub inspection_written : Inspections.Reply → Writer → Writer
inspection_written (Inspections.failed code p) out = write_err code (of_inspection p) out
inspection_written (detail d) out = write_json 200 (inspection d) out
inspection_written (resolved r) out = write_json 200 (op_result r) out
inspection_written (listed ds) out = write_json 200 (inspections ds) out

unfoldable pub sync_written : SyncResponse → Writer → Writer
sync_written bad_request out = write_err 400 invalid_sync_body out
sync_written (results rs) out = write_json 200 (sync_results rs) out

unfoldable pub upload_written : Uploads.Reply → Writer → Writer
upload_written (Uploads.failed code p) out = write_err code (of_upload p) out
upload_written (received n etag again) out = write_json 200 (part_received n etag again) out
upload_written (finished n) out = write_json 200 (upload_completed n) out
upload_written finished_before out = write_json 200 completed_before out
upload_written (progress p) out = write_json 200 (upload_progress p) out
upload_written (started s) out = write_json 201 (upload_started s) out
upload_written (aborted upload_id key e) out = write_err 500 (of_upload (database e)) out

unfoldable pub link_written : Fetch.Answer Link → Writer → Writer
link_written (Fetch.refusal code p) out = write_err code (of_upload p) out
link_written (sent l) out = write_json 200 (link l) out

-- `format_int` is strconv.FormatInt
unfoldable pub content_written : (ℕ → String) → Fetch.Answer Content → Writer → Writer
content_written format_int (Fetch.refusal code p) out = write_err code (of_upload p) out
content_written format_int (sent c) out = write (bytes c.body) (
    set_header "Content-Disposition" (String.◌++◌ "inline; filename=" c.inline_filename) (
      set_header "Content-Length" (format_int c.content_length)
        (set_header "Content-Type" c.content_type out)))

-- `Ready` of backend/internal/db/db.go, with what the ping of the pool answers
unfoldable pub ready : Result (Unit {0}) → ℕ
ready (err e) = 503
ready (ok _) = 200

-- with the code of `Ready`, and whether the object store answers
unfoldable pub health_written : ℕ → Bool → Writer → Writer
health_written code minio out =
    let report = health_report (code == 200) minio in
    if not (code == 200) || not minio then write_json 503 report out else write_json 200 report out

-- http.Error, with which the mux answers
unfoldable pub text_error : String → ℕ → Writer → Writer
text_error message code out = write (text message) (
    write_header code (
      set_header "X-Content-Type-Options" "nosniff"
        (set_header "Content-Type" "text/plain; charset=utf-8" out)))
