-- ===== src/Uploads/Fetch/Expired.antt =====
-- The link of `downloadAttachment` of backend/internal/api/handlers_uploads.go, which `PresignGet` of
-- backend/internal/store/store.go asks for with no time to last.
use cc_005_offline_inspectio.Base.{
  ℕ, String, Option, none, some, ◌==◌, ◌≡◌, refl, inl, inr, Bool-cases,
}
use cc_005_offline_inspectio.Db.{Attachment}
use cc_005_offline_inspectio.Tx.{Result, ok, err, World, pure, query, attempt, ◌>>=◌}
use cc_005_offline_inspectio.Store.{Clients}
use cc_005_offline_inspectio.Store.Calls.{S3, presign_get}
use cc_005_offline_inspectio.Uploads.{Problem, is_finished}
use cc_005_offline_inspectio.Uploads.Fetch.{
  Answer, refusal, Link, attachment_of, guarded, link_sent, send_link, download_attachment,
}

-- The S3 library documents that a link lasts a second at least, and gives an error for less.
pub record RefusesNoTime (s : S3) : Type 0 where
  pub refuses : (bucket key : String) → (e : String) × (s.presigned_get_object bucket key 0 ≡ err e)

-- an answer is no link
abbrev pub IsRefusal : Answer Link → Type 0
IsRefusal a = (code : ℕ) × (p : Problem) × (a ≡ refusal code p)

guarded-IsRefusal :
    (send : Attachment → Answer Link) (user : ℕ) (x : Result (Option (Attachment × ℕ)))
    → ((a : Attachment) → IsRefusal (send a))
    → IsRefusal (guarded send user x)
unfolding guarded
guarded-IsRefusal send user (err e) h = (500, _, refl)
guarded-IsRefusal send user (ok none) h = (404, _, refl)
guarded-IsRefusal send user (ok (some (a, owner))) h = elim (Bool-cases (owner == user)) [
  | inl mine ↦ elim (Bool-cases (is_finished a.status)) [
    | inl over ↦ rw (mine, over) (h a)
    | inr going ↦ rw (mine, going) (409, _, refl)
  ]
  | inr foreign ↦ rw foreign (403, _, refl)
]

module _ (c : Clients S3) (bucket : String) (s : RefusesNoTime c.client) where
  send_link-IsRefusal : (a : Attachment) → IsRefusal (send_link (presign_get c bucket) a)
  unfolding presign_get link_sent
  send_link-IsRefusal a =
      let (e, refused) = s.refuses bucket a.object_key in rw refused (502, _, refl)

  -- If the S3 library gives an error for a link that lasts no second, as it documents, then every request
  -- for a link to an attachment is answered with an error, the owner's for a completed one too.
  pub download_attachment-IsRefusal :
      (user id : ℕ) (w : World)
      → (a : Answer Link) × ((download_attachment (presign_get c bucket) user id w).0 ≡ ok a)
        × IsRefusal a
  unfolding download_attachment attempt pure ◌>>=◌
  download_attachment-IsRefusal user id w =
      (_, refl, guarded-IsRefusal _ user (query (attachment_of id) w).0 send_link-IsRefusal)
