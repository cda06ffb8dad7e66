-- ===== src/Uploads/Fetch/Owner.antt =====
-- Who may read the bytes of an attachment.
use cc_005_offline_inspectio.Base.{
  ℕ, String, true, Option, none, some, ◌==◌, ==_iff, ◌≡◌, refl, ◌∙◌, inl, inr, Bool-cases,
}
use cc_005_offline_inspectio.Models.{UploadState, uploading, completed}
use cc_005_offline_inspectio.Db.{Db, Attachment}
use cc_005_offline_inspectio.Tx.{Result, ok, err, World, pure, query, attempt, ◌>>=◌}
use cc_005_offline_inspectio.Tx.Inversion.{
  Returns, Returns-pure, Returns-bind, Returns-attempt, Returns-query,
}
use cc_005_offline_inspectio.Uploads.{is_finished}
use cc_005_offline_inspectio.Uploads.Fetch.{
  Answer, sent, Object, Content, Link, attachment_of, guarded, content_sent, send_content,
  attachment_content, link_sent, send_link, download_attachment,
}

-- the attachment is the user's and uploaded to the end
abbrev pub IsReadable : ℕ → ℕ → Attachment → Db → Type 0
IsReadable user id a db = (attachment_of id db ≡ some (a, user)) × (a.status ≡ completed)

finished-completed : (s : UploadState) → is_finished s ≡ true → s ≡ completed
finished-completed uploading h = cc h
finished-completed completed h = refl
finished-completed UploadState.failed h = cc h

module _ {A : Type 0} (send : Attachment → Answer A) where
  guarded-sent :
      (user : ℕ) (x : Result (Option (Attachment × ℕ))) (c : A)
      → guarded send user x ≡ sent c
      → (a : Attachment) × (x ≡ ok (some (a, user))) × (a.status ≡ completed) × (send a ≡ sent c)
  unfolding guarded
  guarded-sent user (err e) c h = cc h
  guarded-sent user (ok none) c h = cc h
  guarded-sent user (ok (some (a, owner))) c h = elim (Bool-cases (owner == user)) [
    | inr e ↦ cc (rw e at h)
    | inl e ↦ elim (Bool-cases (is_finished a.status)) [
      | inr f ↦ cc (rw (e, f) at h)
      | inl f ↦
          let same : owner ≡ user = (==_iff owner user).0 e in
          (a, rw same refl, finished-completed a.status f, rw (e, f) at h)
    ]
  ]

  -- an answer that goes through the checks
  asked-IsReadable :
      (user id : ℕ) (c : A) (w w' : World)
      → Returns
          (attempt (query (attachment_of id)) >>= λ x. pure (guarded send user x))
          w
          (sent c)
          w'
      → (a : Attachment) × IsReadable user id a w.db × (send a ≡ sent c)
  asked-IsReadable user id c w w' h =
      let (x, v, tried, rest) =
        Returns-bind (attempt (query (attachment_of id))) _ w (sent c) w' h in
      let (found, left) = Returns-attempt (query (attachment_of id)) w x v tried in
      let (answer, _) = Returns-pure _ (sent c) v w' rest in
      let (a, row, whole, did) = guarded-sent user x c answer in
      let (here, _) = Returns-query (attachment_of id) w (some (a, user)) v (found ∙ row, left) in
      (a, (here, whole), did)

module _ (get_object : String → Result Object) (quote : String → String) where
  abbrev pub IsContentOf : Attachment → Content → Type 0
  IsContentOf a c =
      (obj : Object) × (get_object a.object_key ≡ ok obj)
      × (c.body ≡ obj.bytes)
      × (c.content_length ≡ obj.size)
      × (c.content_type ≡ a.content_type)

  content_sent-IsContentOf :
      (a : Attachment) (x : Result Object) (c : Content)
      → get_object a.object_key ≡ x
      → content_sent get_object quote a x ≡ sent c
      → IsContentOf a c
  unfolding content_sent
  content_sent-IsContentOf a (err e) c g h = cc h
  content_sent-IsContentOf a (ok obj) c g h = (obj, g, cc h, cc h, cc h)

  -- If the content of an attachment is sent, then the user owns its inspection, it is uploaded to the
  -- end, and what is sent are the bytes that the reader of its object gives, under its stored content type and
  -- its length.
  pub attachment_content-IsReadable :
      (user id : ℕ) (c : Content) (w w' : World)
      → Returns (attachment_content get_object quote user id) w (sent c) w'
      → (a : Attachment) × IsReadable user id a w.db × IsContentOf a c
  unfolding attachment_content
  attachment_content-IsReadable user id c w w' h =
      let (a, mine, did) = asked-IsReadable (send_content get_object quote) user id c w w' h in
      (a, mine, content_sent-IsContentOf a _ c refl did)

module _ (presign : String → Result String) where
  link_sent-url :
      (a : Attachment) (x : Result String) (c : Link)
      → link_sent presign a x ≡ sent c
      → x ≡ ok c.url
  unfolding link_sent
  link_sent-url a (err e) c h = cc h
  link_sent-url a (ok u) c h = cc h

  -- If a link to an attachment is sent, then the user owns its inspection, it is uploaded to the end,
  -- and the link is the one that the object store signs for its object.
  pub download_attachment-IsReadable :
      (user id : ℕ) (c : Link) (w w' : World)
      → Returns (download_attachment presign user id) w (sent c) w'
      → (a : Attachment) × IsReadable user id a w.db × (presign a.object_key ≡ ok c.url)
  unfolding download_attachment
  download_attachment-IsReadable user id c w w' h =
      let (a, mine, did) = asked-IsReadable (send_link presign) user id c w w' h in
      (a, mine, link_sent-url a _ c did)
