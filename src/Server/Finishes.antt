-- ===== src/Server/Finishes.antt =====
-- What the handlers write is an answer.
use cc_005_offline_inspectio.Base.{
  ℕ, String, Bool, false, not, ◌||◌, Option, none, some, List, [], ◌∷◌, ◌≡◌, refl, str_eq, ◌==◌,
  inl, inr, Bool-cases, ◌∙◌, eq_iff,
}
use cc_005_offline_inspectio.Auth as Auth
use cc_005_offline_inspectio.Auth.{Answer, Session, Profile, Claims, Jwt, Manager}
use cc_005_offline_inspectio.Sync.Ledger.{SyncResponse, bad_request, results}
use cc_005_offline_inspectio.Inspections as Inspections
use cc_005_offline_inspectio.Uploads as Uploads
use cc_005_offline_inspectio.Uploads.Fetch as Fetch
use cc_005_offline_inspectio.Server.Writer.{
  Writer, put, header, set_header, first_code, write_json, write_err, Trouble, Payload,
}
use cc_005_offline_inspectio.Server.Replies.{
  session_written, profile_written, inspection_written, sync_written, upload_written, link_written,
  content_written, health_written, text_error,
}

abbrev pub origin : String
origin = "Access-Control-Allow-Origin"

-- any origin may read the answer
abbrev pub IsOpen : Writer → Type 0
IsOpen out = header origin out.headers ≡ some "*"

-- there is a code, and any origin may read the answer
abbrev pub IsAnswer : Writer → Type 0
IsAnswer out = IsOpen out × ((c : ℕ) × (out.code ≡ some c))

-- what turns an open writer into an answer
pub record Finishes (f : Writer → Writer) : Type 0 where
  pub finish : (out : Writer) → IsOpen out → IsAnswer (f out)

header-put :
    (k j v : String) (hs : List (String × String))
    → str_eq k j ≡ false
    → header j (put k v hs) ≡ header j hs
unfolding header put
header-put k j v [] other = rw other refl
header-put k j v ((i, x) ∷ hs) other = elim (Bool-cases (str_eq i k)) [
  | inl e ↦ let same : i ≡ k = (eq_iff i k).0 e in rw (e, same, other) refl
  | inr e ↦ rw e (elim (Bool-cases (str_eq i j)) [
    | inl here ↦ rw here refl
    | inr there ↦ rw (there, header-put k j v hs other) refl
  ])
]

set_header-IsOpen :
    (k v : String) (out : Writer)
    → str_eq k origin ≡ false
    → IsOpen out
    → IsOpen (set_header k v out)
set_header-IsOpen k v out other h = header-put k origin v out.headers other ∙ h

pub coded : (c : Option ℕ) (n : ℕ) → (m : ℕ) × (first_code c n ≡ some m)
coded none n = (n, refl)
coded (some c) n = (c, refl)

pub write_json-Finishes : (n : ℕ) (p : Payload) → Finishes (write_json n p)
unfolding write_json
write_json-Finishes n p = record {
  finish = λ out h. (set_header-IsOpen "Content-Type" "application/json" out refl h, coded _ 200);
}

pub write_err-Finishes : (n : ℕ) (t : Trouble) → Finishes (write_err n t)
unfolding write_err
write_err-Finishes n t = write_json-Finishes n _

pub session-Finishes : (a : Answer Session) → Finishes (session_written a)
unfolding session_written
session-Finishes (Auth.refusal n d) = record { finish = (write_err-Finishes n _).finish }
session-Finishes (Auth.served x) = record { finish = (write_json-Finishes 200 _).finish }

pub profile-Finishes : (a : Answer Profile) → Finishes (profile_written a)
unfolding profile_written
profile-Finishes (Auth.refusal n d) = record { finish = (write_err-Finishes n _).finish }
profile-Finishes (Auth.served x) = record { finish = (write_json-Finishes 200 _).finish }

pub inspection-Finishes : (r : Inspections.Reply) → Finishes (inspection_written r)
unfolding inspection_written
inspection-Finishes (Inspections.failed n p) = record { finish = (write_err-Finishes n _).finish }
inspection-Finishes (Inspections.detail d) = record { finish = (write_json-Finishes 200 _).finish }
inspection-Finishes (Inspections.resolved r) = record {
  finish = (write_json-Finishes 200 _).finish;
}
inspection-Finishes (Inspections.listed ds) = record { finish = (write_json-Finishes 200 _).finish }

pub sync-Finishes : (r : SyncResponse) → Finishes (sync_written r)
unfolding sync_written
sync-Finishes bad_request = record { finish = (write_err-Finishes 400 _).finish }
sync-Finishes (results rs) = record { finish = (write_json-Finishes 200 _).finish }

pub upload-Finishes : (r : Uploads.Reply) → Finishes (upload_written r)
unfolding upload_written
upload-Finishes (Uploads.failed n p) = record { finish = (write_err-Finishes n _).finish }
upload-Finishes (Uploads.received n etag again) = record {
  finish = (write_json-Finishes 200 _).finish;
}
upload-Finishes (Uploads.finished n) = record { finish = (write_json-Finishes 200 _).finish }
upload-Finishes Uploads.finished_before = record { finish = (write_json-Finishes 200 _).finish }
upload-Finishes (Uploads.progress p) = record { finish = (write_json-Finishes 200 _).finish }
upload-Finishes (Uploads.started s) = record { finish = (write_json-Finishes 201 _).finish }
upload-Finishes (Uploads.aborted u k e) = record { finish = (write_err-Finishes 500 _).finish }

pub link-Finishes : (a : Fetch.Answer Fetch.Link) → Finishes (link_written a)
unfolding link_written
link-Finishes (Fetch.refusal n p) = record { finish = (write_err-Finishes n _).finish }
link-Finishes (Fetch.sent l) = record { finish = (write_json-Finishes 200 _).finish }

pub content-Finishes :
    (format : ℕ → String) (a : Fetch.Answer Fetch.Content) → Finishes (content_written format a)
unfolding content_written
content-Finishes format (Fetch.refusal n p) = record { finish = (write_err-Finishes n _).finish }
content-Finishes format (Fetch.sent c) = record {
  finish = λ out h.
      let typed = set_header "Content-Type" c.content_type out in
      let sized = set_header "Content-Length" (format c.content_length) typed in
      (
        set_header-IsOpen "Content-Disposition" _ sized refl (
            set_header-IsOpen "Content-Length" _ typed refl
              (set_header-IsOpen "Content-Type" c.content_type out refl h)),
        coded _ 200,
      );
}

pub health-Finishes : (n : ℕ) (b : Bool) → Finishes (health_written n b)
unfolding health_written
health-Finishes n b = elim (Bool-cases (not (n == 200) || not b)) [
  | inl e ↦ record { finish = λ out h. rw e ((write_json-Finishes 503 _).finish out h) }
  | inr e ↦ record { finish = λ out h. rw e ((write_json-Finishes 200 _).finish out h) }
]

pub text_error-Finishes : (message : String) (n : ℕ) → Finishes (text_error message n)
unfolding text_error
text_error-Finishes message n = record {
  finish = λ out h.
      let typed = set_header "Content-Type" "text/plain; charset=utf-8" out in
      (
        set_header-IsOpen "X-Content-Type-Options" "nosniff" typed refl
            (set_header-IsOpen "Content-Type" "text/plain; charset=utf-8" out refl h),
        coded _ 200,
      );
}
