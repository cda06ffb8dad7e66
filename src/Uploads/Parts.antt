-- ===== src/Uploads/Parts.antt =====
-- A part that is sent again.
use cc_005_offline_inspectio.Base.{
  ℕ, String, Bool, true, ◌||◌, Option, none, some, List, ltb, ◌==◌, ==_iff, ◌+◌, ◌≡◌, ◌≢◌, refl,
  ◌∙◌, inl, inr, Bool-cases,
}
use cc_005_offline_inspectio.Base.Rows.{length, first}
use cc_005_offline_inspectio.Db.{Db, Attachment, UploadPart}
use cc_005_offline_inspectio.Tx.{Result, ok, err, World, query, attempt}
use cc_005_offline_inspectio.Tx.Inversion.{
  Returns, Returns-pure, Returns-bind, Returns-attempt, Returns-query,
}
use cc_005_offline_inspectio.Sync.Replay.{calm}
use cc_005_offline_inspectio.Uploads.{
  Reply, received, Access, granted, denied, access_of, authorize_upload, upload_of, is_part,
  store_part, replay_part, put_authorized, put_part, limited, is_uploading,
}
use cc_005_offline_inspectio.Uploads.Completion.{query-kept}
use cc_005_offline_inspectio.Uploads.Kept.{IsKept, recorded-IsKept, kept-replayed}

module _ (chunk_size : ℕ) (store : String → ℕ → List ℕ → Result String) where
  stored-IsKept :
      (user : ℕ) (upload_id : String) (n : ℕ) (a : Attachment) (body : Result (List ℕ)) (m : ℕ)
      (etag : String) (again : Bool) (v w' : World)
      → upload_of upload_id v.db ≡ some (a, user)
      → is_uploading a.status ≡ true
      → first (is_part upload_id n) v.db.upload_parts ≡ none
      → Returns (store_part chunk_size store upload_id a n body) v (received m etag again) w'
      → (m ≡ n) × IsKept user upload_id n etag w'.db
  unfolding store_part
  stored-IsKept user upload_id n a (err e) m etag again v w' found going new h =
      let (other, _) = Returns-pure _ (received m etag again) v w' h in cc other
  stored-IsKept user upload_id n a (ok bytes) m etag again v w' found going new h =
      elim (Bool-cases (ltb chunk_size (length (limited (chunk_size + 1) bytes)))) [
        | inl large ↦
            let (other, _) = Returns-pure _ (received m etag again) v w' (rw large at h) in cc other
        | inr fits ↦ elim (Bool-cases (length (limited (chunk_size + 1) bytes) == 0)) [
          | inl empty ↦
              let (other, _) =
                Returns-pure _ (received m etag again) v w' (rw (fits, empty) at h) in
              cc other
          | inr some_bytes ↦
              recorded-IsKept user upload_id n a _ m etag again v w' found going new
                (rw (fits, some_bytes) at h)
        ]
      ]

  replayed-IsKept :
      (user : ℕ) (upload_id : String) (n : ℕ) (a : Attachment) (body : Result (List ℕ))
      (x : Result (Option UploadPart)) (m : ℕ) (etag : String) (again : Bool) (v w' : World)
      → upload_of upload_id v.db ≡ some (a, user)
      → is_uploading a.status ≡ true
      → ((o : Option UploadPart) → x ≡ ok o → first (is_part upload_id n) v.db.upload_parts ≡ o)
      → Returns (replay_part chunk_size store upload_id a n body x) v (received m etag again) w'
      → (m ≡ n) × IsKept user upload_id n etag w'.db
  unfolding replay_part
  replayed-IsKept user upload_id n a body (err e) m etag again v w' found going held h =
      let (other, _) = Returns-pure _ (received m etag again) v w' h in cc other
  replayed-IsKept user upload_id n a body (ok (some p)) m etag again v w' found going held h =
      let (reply, still) = Returns-pure _ (received m etag again) v w' h in
      let same : p.etag ≡ etag = cc reply in
      rw (← still) (cc reply, (a, p, found, going, held (some p) refl, same))
  replayed-IsKept user upload_id n a body (ok none) m etag again v w' found going held h =
      stored-IsKept user upload_id n a body m etag again v w' found going (held none refl) h

  granted-owner :
      (user : ℕ) (x : Result (Option (Attachment × ℕ))) (a : Attachment)
      → access_of user x ≡ granted a
      → x ≡ ok (some (a, user))
  unfolding access_of
  granted-owner user (err e) a h = cc h
  granted-owner user (ok none) a h = cc h
  granted-owner user (ok (some (b, owner))) a h = elim (Bool-cases (owner == user)) [
    | inl e ↦
        let same : owner ≡ user = (==_iff owner user).0 e in
        let row : b ≡ a = cc (rw e at h) in rw (same, row)
    | inr e ↦ cc (rw e at h)
  ]

  denied-failed :
      (user m : ℕ) (etag : String) (again : Bool) (x : Result (Option (Attachment × ℕ))) (r : Reply)
      → access_of user x ≡ denied r
      → r ≢ received m etag again
  unfolding access_of
  denied-failed user m etag again (err e) r h g = cc (h, g)
  denied-failed user m etag again (ok none) r h g = cc (h, g)
  denied-failed user m etag again (ok (some (a, owner))) r h g = elim (Bool-cases (owner == user)) [
    | inl e ↦ cc (rw e at h)
    | inr e ↦ cc (rw e at h, g)
  ]

  authorized-IsKept :
      (user : ℕ) (upload_id : String) (n : ℕ) (body : Result (List ℕ))
      (x : Result (Option (Attachment × ℕ))) (c : Access) (m : ℕ) (etag : String) (again : Bool)
      (v w' : World)
      → access_of user x ≡ c
      → ((o : Option (Attachment × ℕ)) → x ≡ ok o → upload_of upload_id v.db ≡ o)
      → Returns (put_authorized chunk_size store upload_id n body c) v (received m etag again) w'
      → (m ≡ n) × IsKept user upload_id n etag w'.db
  unfolding put_authorized
  authorized-IsKept user upload_id n body x (denied r) m etag again v w' is_access found h =
      let (reply, _) = Returns-pure r (received m etag again) v w' h in
      absurd (denied-failed user m etag again x r is_access reply)
  authorized-IsKept user upload_id n body x (granted a) m etag again v w' is_access found h =
      elim (Bool-cases (is_uploading a.status)) [
        | inr over ↦
            let (other, _) = Returns-pure _ (received m etag again) v w' (rw over at h) in cc other
        | inl going ↦
            let q : Db → Option UploadPart = λ db. first (is_part upload_id n) db.upload_parts in
            let (y, u, tried, rest) =
              Returns-bind (attempt (query q)) _ v (received m etag again) w' (rw going at h) in
            let (answer, left) = Returns-attempt (query q) v y u tried in
            let still : u.db ≡ v.db = rw (← left) (query-kept q v) in
            replayed-IsKept user upload_id n a body y m etag again u w'
              (rw still (found (some (a, user)) (granted-owner user x a is_access))) going
              (λ o e. rw still (Returns-query q v o u (answer ∙ e, left)).0) rest
      ]

-- If a part is answered as received, then whatever its user sends as the same part later on, to a
-- database that answers and whose tables are still the same, and whatever the object store would
-- answer, the reply has the same number and etag, marked as a duplicate, and nothing changes.
pub put_part-repeated :
    (chunk_size : ℕ) (store store' : String → ℕ → List ℕ → Result String) (user : ℕ)
    (upload_id : String) (n m : ℕ) (body body' : Result (List ℕ)) (etag : String) (again : Bool)
    (w w' : World)
    → Returns (put_part chunk_size store user upload_id (some n) body) w (received m etag again) w'
    → put_part chunk_size store' user upload_id (some n) body' (calm w')
      ≡ (ok (received m etag true), calm w')
unfolding put_part authorize_upload
put_part-repeated chunk_size store store' user upload_id n m body body' etag again w w' h =
    elim (Bool-cases (ltb n 1 || ltb 10000 n)) [
      | inl outside ↦
          let (other, _) = Returns-pure _ (received m etag again) w w' (rw outside at h) in cc other
      | inr bounds ↦
          let (c, v, authorized, rest) =
            Returns-bind (authorize_upload upload_id user) _ w (received m etag again) w'
              (rw bounds at h) in
          let (x, u, tried, answer) =
            Returns-bind (attempt (query (upload_of upload_id))) _ w c v authorized in
          let (found, left) = Returns-attempt (query (upload_of upload_id)) w x u tried in
          let (is_access, still) = Returns-pure _ c u v answer in
          let same : v.db ≡ w.db = rw (← still, ← left) (query-kept (upload_of upload_id) w) in
          let (number, kept) =
            authorized-IsKept chunk_size store user upload_id n body x c m etag again v w' is_access
              (λ o e. rw same (Returns-query (upload_of upload_id) w o u (found ∙ e, left)).0)
              rest in
          rw number (kept-replayed chunk_size store' user upload_id n etag body' w' bounds kept)
    ]
