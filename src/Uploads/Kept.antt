-- ===== src/Uploads/Kept.antt =====
-- A part in the ledger of its upload.
use text.Mathlib.TextPositions.{eq_refl}
use cc_005_offline_inspectio.Base.{
  ℕ, String, Bool, true, false, ◌||◌, none, some, List, [], ◌∷◌, ltb, ==_iff, ◌≡◌, ◌≢◌, refl, ◌∙◌,
  inl, inr, Bool-cases,
}
use cc_005_offline_inspectio.Base.Rows.{first, exists, insert}
use cc_005_offline_inspectio.Base.Rows.Laws.{first-insert}
use cc_005_offline_inspectio.Db.{Db, Attachment, UploadPart}
use cc_005_offline_inspectio.Tx.{Result, ok, err, World, pure, statement, query, attempt, ◌>>=◌}
use cc_005_offline_inspectio.Tx.Inversion.{
  Returns, Returns-pure, Returns-bind, Returns-attempt, Returns-statement,
}
use cc_005_offline_inspectio.Sync.Replay.{calm}
use cc_005_offline_inspectio.Uploads.{
  received, access_of, authorize_upload, upload_of, is_part, part_recorded, record_part,
  replay_part, put_authorized, put_part, insert_part, is_uploading,
}

-- the part is in the ledger of an upload of the user that goes on
abbrev pub IsKept : ℕ → String → ℕ → String → Db → Type 0
IsKept user upload_id n etag db =
    (a : Attachment) × (p : UploadPart) × (upload_of upload_id db ≡ some (a, user))
    × (is_uploading a.status ≡ true)
    × (first (is_part upload_id n) db.upload_parts ≡ some p)
    × (p.etag ≡ etag)

exists-first :
    (q : UploadPart → Bool) (xs : List UploadPart) → exists q xs ≡ true → first q xs ≢ none
unfolding exists first
exists-first q [] h e = cc h
exists-first q (x ∷ xs) h e = elim (Bool-cases (q x)) [
  | inl here ↦ cc (rw here at e)
  | inr there ↦ exists-first q xs (rw there at h) (rw there at e)
]

is_part_self :
    (upload_id : String) (n : ℕ) (etag : String)
    → is_part upload_id n (record { upload_id = upload_id; part_number = n; etag = etag }) ≡ true
is_part_self upload_id n etag = rw (eq_refl upload_id, (==_iff n n).1 refl)

inserted-IsKept :
    (user : ℕ) (upload_id : String) (n : ℕ) (etag : String) (a : Attachment) (db db' : Db)
    → upload_of upload_id db ≡ some (a, user)
    → is_uploading a.status ≡ true
    → first (is_part upload_id n) db.upload_parts ≡ none
    → insert_part (record { upload_id = upload_id; part_number = n; etag = etag }) db ≡ ok (tt, db')
    → IsKept user upload_id n etag db'
unfolding insert_part
inserted-IsKept user upload_id n etag a db db' found going new done =
    elim (Bool-cases (exists (is_part upload_id n) db.upload_parts)) [
      | inl there ↦ absurd (exists-first (is_part upload_id n) db.upload_parts there new)
      | inr free ↦
          let p : UploadPart = record { upload_id = upload_id; part_number = n; etag = etag } in
          let same : record db { upload_parts = insert p db.upload_parts } ≡ db' =
            cc (rw free at done) in
          let row : first (is_part upload_id n) (insert p db.upload_parts) ≡ some p =
            first-insert (is_part upload_id n) p db.upload_parts
            ∙ rw (new, is_part_self upload_id n etag) in
          rw (← same) (a, p, found, going, row, refl)
    ]

pub recorded-IsKept :
    (user : ℕ) (upload_id : String) (n : ℕ) (a : Attachment) (x : Result String) (m : ℕ)
    (etag : String) (again : Bool) (v w' : World)
    → upload_of upload_id v.db ≡ some (a, user)
    → is_uploading a.status ≡ true
    → first (is_part upload_id n) v.db.upload_parts ≡ none
    → Returns (record_part upload_id n x) v (received m etag again) w'
    → (m ≡ n) × IsKept user upload_id n etag w'.db
unfolding record_part part_recorded
recorded-IsKept user upload_id n a (err e) m etag again v w' found going new h =
    let (other, _) = Returns-pure _ (received m etag again) v w' h in cc other
recorded-IsKept user upload_id n a (ok tag) m etag again v w' found going new h =
    let p : UploadPart = record { upload_id = upload_id; part_number = n; etag = tag } in
    let (d, u, tried, rest) =
      Returns-bind (attempt (statement (insert_part p))) _ v (received m etag again) w' h in
    let (did, left) = Returns-attempt (statement (insert_part p)) v d u tried in
    let (reply, still) = Returns-pure _ (received m etag again) u w' rest in
    rw (← still) (go d u did left reply)
  where
    go :
        (d : Result (Unit {0})) (u : World)
        → (statement
            (insert_part (record { upload_id = upload_id; part_number = n; etag = tag }))
            v).0
          ≡ d
        → (statement
            (insert_part (record { upload_id = upload_id; part_number = n; etag = tag }))
            v).1
          ≡ u
        → part_recorded n tag d ≡ received m etag again
        → (m ≡ n) × IsKept user upload_id n etag u.db
    go (err e) u did left reply = cc reply
    go (ok _) u did left reply =
        let same : tag ≡ etag = cc reply in
        (
          cc reply,
          rw (← same) (
              inserted-IsKept user upload_id n tag a v.db u.db found going new
                (Returns-statement _ v tt u (did, left))),
        )

module _ (chunk_size : ℕ) (store : String → ℕ → List ℕ → Result String) where
  pub kept-replayed :
      (user : ℕ) (upload_id : String) (n : ℕ) (etag : String) (body : Result (List ℕ)) (v : World)
      → (ltb n 1 || ltb 10000 n) ≡ false
      → IsKept user upload_id n etag v.db
      → put_part chunk_size store user upload_id (some n) body (calm v)
        ≡ (ok (received n etag true), calm v)
  unfolding put_part authorize_upload access_of put_authorized replay_part attempt query statement
      pure ◌>>=◌
  kept-replayed user upload_id n etag body v bounds (a, p, found, going, held, same) =
      rw (bounds, found, (==_iff user user).1 refl, going, held, same)
