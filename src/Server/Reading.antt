-- ===== src/Server/Reading.antt =====
-- The handlers that only read respect any relation on the tables that holds of tables and themselves.
use cc_005_offline_inspectio.Base.{ℕ, String, Bool, not, Option, none, some, List, [], ◌∷◌}
use cc_005_offline_inspectio.Models.{InspectionDto, AttachmentDto}
use cc_005_offline_inspectio.Db.{Db, User}
use cc_005_offline_inspectio.Tx.{Result, ok, err, Tx}
use cc_005_offline_inspectio.Tx.Respects.{
  IsPreorder, Respects, Respects-pure, Respects-query_rows, Respects-attempt, Respects-if,
  Respects-now, Respects-bind,
}
use cc_005_offline_inspectio.Auth as Auth
use cc_005_offline_inspectio.Auth.{Claims, Session, Jwt, Manager}
use cc_005_offline_inspectio.Inspections as Inspections
use cc_005_offline_inspectio.Inspections.{Fetched, fetched, unfetched, Resolution}
use cc_005_offline_inspectio.Inspections.Listing as Listing
use cc_005_offline_inspectio.Uploads as Uploads
use cc_005_offline_inspectio.Uploads.{Access, granted, denied}
use cc_005_offline_inspectio.Uploads.Resume as Resume
use cc_005_offline_inspectio.Uploads.Fetch as Fetch
use cc_005_offline_inspectio.Server.Handlers.{detail_at, attachment_at}
use cc_005_offline_inspectio.Server.Walk.{Respects-asked, Respects-asked_rows}

-- handlers that only read
module _ {R : Db → Db → Type 0} (p : IsPreorder R) where
  pub me-Respects : (c : Claims) → Respects R (Auth.me c)
  unfolding Auth.me
  me-Respects c = Respects-asked p _ _ (λ r. Respects-pure p _)

  filled-Respects : (ds : List InspectionDto) → Respects R (Listing.fill_open_conflicts ds)
  unfolding Listing.fill_open_conflicts
  filled-Respects [] = Respects-pure p []
  filled-Respects (d ∷ ds) = Respects-bind p _ _ (Respects-query_rows p _) (λ r. Respects-pure p _)

  attached-Respects : (ds : List InspectionDto) → Respects R (Listing.fill_attachments ds)
  unfolding Listing.fill_attachments
  attached-Respects [] = Respects-pure p []
  attached-Respects (d ∷ ds) =
      Respects-bind p _ _ (Respects-query_rows p _) (λ r. Respects-pure p _)

  with_conflicts-Respects :
      (r : Result (List InspectionDto)) → Respects R (Listing.with_open_conflicts r)
  unfolding Listing.with_open_conflicts
  with_conflicts-Respects (err e) = Respects-pure p _
  with_conflicts-Respects (ok ds) =
      Respects-bind p _ _ (Respects-attempt p _ (filled-Respects ds)) (λ r. Respects-pure p _)

  with_attachments-Respects :
      (r : Result (List InspectionDto)) → Respects R (Listing.with_all_attachments r)
  unfolding Listing.with_all_attachments
  with_attachments-Respects (err e) = Respects-pure p _
  with_attachments-Respects (ok ds) =
      Respects-bind p _ _ (Respects-attempt p _ (attached-Respects ds)) with_conflicts-Respects

  pub list-Respects : (user : ℕ) → Respects R (Listing.list_inspections user)
  unfolding Listing.list_inspections
  list-Respects user = Respects-asked_rows p _ _ with_attachments-Respects

  shown-Respects :
      (id : ℕ) (d : InspectionDto) (r : Result (List AttachmentDto))
      → Respects R (Inspections.with_attachments id d r)
  unfolding Inspections.with_attachments
  shown-Respects id d (err e) = Respects-pure p _
  shown-Respects id d (ok as') = Respects-asked_rows p _ _ (λ r. Respects-pure p _)

  detail_of-Respects : (id : ℕ) (x : Fetched) → Respects R (Inspections.detail_of id x)
  unfolding Inspections.detail_of
  detail_of-Respects id (unfetched r) = Respects-pure p r
  detail_of-Respects id (fetched d) = Respects-asked_rows p _ _ (shown-Respects id d)

  pub detail_at-Respects :
      (e : String) (id : Option ℕ) (user : ℕ) → Respects R (detail_at e id user)
  unfolding detail_at Inspections.get_inspection Inspections.fetch_one
  detail_at-Respects e none user = Respects-pure p _
  detail_at-Respects e (some id) user =
      Respects-bind p _ _ (Respects-asked p _ _ (λ r. Respects-pure p _)) (detail_of-Respects id)

  status-Respects :
      (parts : String → String → Result (List ℕ)) (access : Access)
      → Respects R (Resume.status_authorized parts access)
  unfolding Resume.status_authorized
  status-Respects parts (denied r) = Respects-pure p r
  status-Respects parts (granted a) = Respects-asked_rows p _ _ (λ r. Respects-pure p _)

  pub upload_status-Respects :
      (parts : String → String → Result (List ℕ)) (user : ℕ) (id : String)
      → Respects R (Resume.upload_status parts user id)
  unfolding Resume.upload_status Uploads.authorize_upload
  upload_status-Respects parts user id =
      Respects-bind p _ _ (Respects-asked p _ _ (λ r. Respects-pure p _)) (status-Respects parts)

  pub attachment_at-Respects :
      {A : Type 0} (e : String) (id : Option ℕ) (send : ℕ → Tx (Fetch.Answer A))
      → ((n : ℕ) → Respects R (send n))
      → Respects R (attachment_at e id send)
  unfolding attachment_at
  attachment_at-Respects e none send h = Respects-pure p _
  attachment_at-Respects e (some id) send h = h id

  pub download-Respects :
      (presign : String → Result String) (user id : ℕ)
      → Respects R (Fetch.download_attachment presign user id)
  unfolding Fetch.download_attachment
  download-Respects presign user id = Respects-asked p _ _ (λ r. Respects-pure p _)

  pub content-Respects :
      (get : String → Result Fetch.Object) (quote : String → String) (user id : ℕ)
      → Respects R (Fetch.attachment_content get quote user id)
  unfolding Fetch.attachment_content
  content-Respects get quote user id = Respects-asked p _ _ (λ r. Respects-pure p _)

  module _ (jwt : Jwt) (m : Manager) (matches : String → String → Bool) where
    checked-Respects :
        (name password : String) (r : Result (Option User))
        → Respects R (Auth.checked jwt m matches name password r)
    unfolding Auth.checked
    checked-Respects name password (err e) = Respects-pure p _
    checked-Respects name password (ok none) = Respects-pure p _
    checked-Respects name password (ok (some u)) =
        Respects-if p (not (matches u.password_hash password)) _ _ (Respects-pure p _)
          (Respects-bind p _ _ (Respects-now p) (λ at. Respects-pure p _))

    pub login-Respects :
        (body : Option (String × String)) → Respects R (Auth.login jwt m matches body)
    unfolding Auth.login
    login-Respects none = Respects-pure p _
    login-Respects (some (name, password)) = Respects-asked p _ _ (checked-Respects name password)
