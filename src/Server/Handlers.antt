-- ===== src/Server/Handlers.antt =====
-- The handlers of the routes: what each reads of a request, and its answer written out. An id of a path
-- that is no UUID makes the driver refuse the query.
use cc_005_offline_inspectio.Base.{ℕ, String, Option, none, some, List}
use cc_005_offline_inspectio.Tx.{Result, ok, err, World, Tx, pure, query, attempt, new_uuid, ◌>>=◌}
use cc_005_offline_inspectio.Auth as Auth
use cc_005_offline_inspectio.Auth.{Claims}
use cc_005_offline_inspectio.Sync.Ledger as Ledger
use cc_005_offline_inspectio.Inspections as Inspections
use cc_005_offline_inspectio.Inspections.{
  Reply, failed, conflict_not_found, bad_body, Resolution, resolve_endpoint,
}
use cc_005_offline_inspectio.Inspections.Listing as Listing
use cc_005_offline_inspectio.Uploads as Uploads
use cc_005_offline_inspectio.Uploads.Start as Start
use cc_005_offline_inspectio.Uploads.Resume as Resume
use cc_005_offline_inspectio.Uploads.Fetch as Fetch
use cc_005_offline_inspectio.Uploads.Fetch.{Object, Answer, refusal}
use cc_005_offline_inspectio.Store.Calls.{
  ping, begin_multipart, upload_part, parts_completed, complete_multipart, presign_get, object,
}
use cc_005_offline_inspectio.Server.Writer.{Writer, denial, write_err}
use cc_005_offline_inspectio.Server.Routes.{
  Endpoint, health, login, Handled, me, list_inspections, get_inspection, sync, resolve_conflict,
  create_upload, upload_status, put_part, complete_upload, download_attachment, attachment_content,
  Match, found, not_found, method_not_allowed, match, Params, path_value,
}
use cc_005_offline_inspectio.Server.Services.{Services, Request, Body}
use cc_005_offline_inspectio.Server.Replies.{
  session_written, profile_written, inspection_written, sync_written, upload_written, link_written,
  content_written, ready, health_written, text_error,
}

-- an action that cannot fail
unfoldable pub handled : {A : Type 0} → (World → A × World) → Tx A
handled f w = let (a, w') = f w in (ok a, w')

-- The pages of parts end before this many: a page has a part at least, and their numbers are up to
-- 10000.
abbrev page_fuel : ℕ
page_fuel = 10001

abbrev pub listed_parts : Option (Result (List ℕ)) → Result (List ℕ)
listed_parts none = err "the pages of parts do not end"
listed_parts (some r) = r

abbrev as_object : Result (List ℕ × ℕ) → Result Object
as_object (err e) = err e
as_object (ok (body, size)) = ok (record { size = size; bytes = body })

-- a detail of the inspection that the path names
unfoldable pub detail_at : String → Option ℕ → ℕ → Tx Reply
detail_at e none user = pure (failed 500 (Inspections.database e))
detail_at e (some id) user = Inspections.get_inspection user id

-- an attachment that the path names
unfoldable pub attachment_at :
    {A : Type 0} → String → Option ℕ → (ℕ → Tx (Answer A)) → Tx (Answer A)
attachment_at e none send = pure (refusal 500 (Uploads.database e))
attachment_at e (some id) send = send id

module _ (s : Services) where
  -- with the operation of the request
  unfoldable pub resolve_at : Option ℕ → ℕ → String → Resolution → Tx Reply
  resolve_at none user op_id req = pure (failed 404 conflict_not_found)
  resolve_at (some id) user op_id req =
      handled (resolve_endpoint s.outside user id op_id (some req))

  unfoldable pub resolve : Option ℕ → ℕ → Option Resolution → Tx Reply
  resolve id user none = pure (failed 400 bad_body)
  resolve id user (some req) = do op ← new_uuid; resolve_at id user (s.uuid_text op) req

  -- the UUID of a path
  abbrev uuid_at : Params → Option ℕ
  uuid_at ps = s.outside.parse_uuid (path_value "id" ps)

  abbrev refused_id : Params → String
  refused_id ps = s.bad_uuid (path_value "id" ps)

  abbrev upload_at : Params → String
  upload_at ps = path_value "uploadID" ps

  -- a handler behind `auth`, for the claims of a token
  unfoldable pub guarded : Handled → Params → Body → Claims → Tx (Writer → Writer)
  guarded me ps body c = do a ← Auth.me c; pure (profile_written a)
  guarded list_inspections ps body c = do
    a ← Listing.list_inspections c.user_id
    pure (inspection_written a)
  guarded get_inspection ps body c = do
    a ← detail_at (refused_id ps) (uuid_at ps) c.user_id
    pure (inspection_written a)
  guarded sync ps body c = do
    a ← handled (Ledger.sync s.outside c.user_id (s.decode_sync body))
    pure (sync_written a)
  guarded resolve_conflict ps body c = do
    a ← resolve (uuid_at ps) c.user_id (s.decode_resolution body)
    pure (inspection_written a)
  guarded create_upload ps body c = do
    a ←
        Start.create_upload s.outside s.chunk_size s.object_key (begin_multipart s.s3 s.bucket)
          c.user_id (s.decode_upload body)
    pure (upload_written a)
  guarded upload_status ps body c = do
    a ←
        Resume.upload_status
          (λ id key. listed_parts (parts_completed s.s3 s.bucket page_fuel id key)) c.user_id
          (upload_at ps)
    pure (upload_written a)
  guarded put_part ps body c = do
    a ←
        Uploads.put_part s.chunk_size
          (λ key n part. upload_part s.s3 s.bucket (upload_at ps) key n part) c.user_id
          (upload_at ps) (s.atoi (path_value "partNum" ps)) body
    pure (upload_written a)
  guarded complete_upload ps body c = do
    a ←
        Uploads.complete_upload
          (λ key parts. complete_multipart s.s3 s.bucket (upload_at ps) key parts) c.user_id
          (upload_at ps)
    pure (upload_written a)
  guarded download_attachment ps body c = do
    a ←
        attachment_at (refused_id ps) (uuid_at ps)
          (Fetch.download_attachment (presign_get s.s3 s.bucket) c.user_id)
    pure (link_written a)
  guarded attachment_content ps body c = do
    a ←
        attachment_at (refused_id ps) (uuid_at ps)
          (Fetch.attachment_content (λ key. as_object (object s.s3 s.bucket key)) s.quote c.user_id)
    pure (content_written s.format_int a)

  unfoldable pub authorized : Auth.Answer (Writer → Writer) → Writer → Writer
  authorized (Auth.refusal code d) out = write_err code (denial d) out
  authorized (Auth.served write) out = write out

  unfoldable pub run : Endpoint → Params → Request → Tx (Writer → Writer)
  run health ps req = do
    pinged ← attempt (query (λ db. tt {0}))
    pure (health_written (ready pinged) (ping s.s3 s.bucket))
  run login ps req = do
    a ← Auth.login s.jwt s.manager s.matches (s.decode_login req.body)
    pure (session_written a)
  run (Endpoint.auth h) ps req = do
    a ← Auth.auth s.jwt s.manager (guarded h ps req.body) req.authorization
    pure (authorized a)

  unfoldable pub dispatch : Match → Request → Tx (Writer → Writer)
  dispatch (found e ps) req = run e ps req
  dispatch not_found req = pure (text_error "404 page not found" 404)
  dispatch method_not_allowed req = pure (text_error "Method Not Allowed" 405)

  -- the mux with its routes
  unfoldable pub mux : Request → Tx (Writer → Writer)
  mux req = dispatch (match req.method req.path) req
