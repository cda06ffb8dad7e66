-- ===== src/Uploads/Start/Blocking.antt =====
-- An upload that has begun, and the inspection that waits for it.
use text.Mathlib.TextPositions.{eq_refl}
use cc_005_offline_inspectio.Base.{
  positive, not, ℕ, String, Bool, true, false, ◌||◌, Option, none, some, List, [], ◌∷◌, ◌==◌,
  ==_iff, str_eq, ◌≡◌, ◌<◌, refl, sym, ap, ◌∙◌, inl, inr, Bool-cases, arith,
}
use cc_005_offline_inspectio.Base.Rows.{first, select, exists, insert, length}
use cc_005_offline_inspectio.Base.Rows.Laws.{first-insert, first_of_exists}
use cc_005_offline_inspectio.Models.{uploading}
use cc_005_offline_inspectio.Models.Outside.{Outside}
use cc_005_offline_inspectio.Db.{Db, Attachment, Inspection, inspection, has_id}
use cc_005_offline_inspectio.Tx.{Result, ok, err, World, new_uuid, now, query, statement, attempt}
use cc_005_offline_inspectio.Tx.Inversion.{
  Returns, Returns-pure, Returns-bind, Returns-attempt, Returns-query, Returns-statement,
}
use cc_005_offline_inspectio.Sync.Statements.{incomplete_attachments}
use cc_005_offline_inspectio.Uploads.{started, Started, upload_of}
use cc_005_offline_inspectio.Uploads.Completion.{query-kept}
use cc_005_offline_inspectio.Uploads.Start.{
  Request, insert_attachment, new_attachment, row_inserted, start_upload, start_on, start_parsed,
  create_upload,
}

insert_attachment-ok :
    (a : Attachment) (db db' : Db)
    → insert_attachment a db ≡ ok (tt, db')
    → (exists (λ b. str_eq b.upload_id a.upload_id) db.attachments ≡ false)
      × (record db { attachments = insert a db.attachments } ≡ db')
unfolding insert_attachment
insert_attachment-ok a db db' h = elim (Bool-cases (exists (λ b. b.id == a.id) db.attachments)) [
  | inl e ↦ cc (rw e at h)
  | inr e ↦ elim (Bool-cases (exists (λ b. str_eq b.upload_id a.upload_id) db.attachments)) [
    | inl f ↦ cc (rw (e, f) at h)
    | inr f ↦ elim (Bool-cases (exists (has_id a.inspection_id) db.inspections)) [
      | inr g ↦ cc (rw (e, f, g) at h)
      | inl g ↦ elim (Bool-cases (exists (λ u. u.id == a.created_by) db.users)) [
        | inr k ↦ cc (rw (e, f, g, k) at h)
        | inl k ↦ (f, cc (rw (e, f, g, k) at h))
      ]
    ]
  ]
]

select-insert-some :
    {A : Type 0} (p : A → Bool) (x : A) (xs : List A)
    → p x ≡ true
    → 0 < length (select p (insert x xs))
unfolding select
select-insert-some p x [] h = rw h (omega arith)
select-insert-some p x (y ∷ ys) h = elim (Bool-cases (p y)) [
  | inl e ↦ rw e (omega arith)
  | inr e ↦ rw e (select-insert-some p x ys h)
]

-- the upload is the user's, goes on, and belongs to an inspection that waits for it
abbrev pub IsBegun : ℕ → ℕ → Started → Db → Type 0
IsBegun user id s db =
    (a : Attachment) × (upload_of s.upload_id db ≡ some (a, user))
    × (a.id ≡ s.attachment_id)
    × (a.inspection_id ≡ id)
    × (a.status ≡ uploading)
    × (0 < incomplete_attachments id db)

inserted-IsBegun :
    (user id : ℕ) (r : Inspection) (a : Attachment) (s : Started) (db db' : Db)
    → inspection db id ≡ some r
    → r.owner_id ≡ user
    → a.inspection_id ≡ id
    → a.status ≡ uploading
    → a.id ≡ s.attachment_id
    → a.upload_id ≡ s.upload_id
    → insert_attachment a db ≡ ok (tt, db')
    → IsBegun user id s db'
unfolding incomplete_attachments
inserted-IsBegun user id r a s db db' row owner here going number name done =
    let (new, same) = insert_attachment-ok a db db' done in
    let found : first (λ b. str_eq b.upload_id a.upload_id) (insert a db.attachments) ≡ some a =
      first-insert (λ b. str_eq b.upload_id a.upload_id) a db.attachments
      ∙ rw (first_of_exists _ db.attachments new, eq_refl a.upload_id) in
    rw (← same, ← name)
      (
        a,
        rw (found, here, row, owner),
        number,
        here,
        going,
        select-insert-some _ a db.attachments (rw (here, (==_iff id id).1 refl, going)),
      )

-- the inspection is the user's and not deleted
abbrev pub IsMine : ℕ → ℕ → Db → Type 0
IsMine user id db =
    (r : Inspection) × (inspection db id ≡ some r) × (r.owner_id ≡ user) × (r.is_deleted ≡ false)

module _ (o : Outside) (chunk_size : ℕ) (key_of : String → ℕ → String)
    (begin : String → String → Result String) where
  start_upload-IsBegun :
      (user id : ℕ) (r : Inspection) (req : Request) (new : ℕ) (x : Result String) (s : Started)
      (w w' : World)
      → inspection w.db id ≡ some r
      → r.owner_id ≡ user
      → Returns (start_upload o chunk_size key_of begin user id req new x) w (started s) w'
      → IsBegun user id s w'.db
  unfolding start_upload row_inserted now
  start_upload-IsBegun user id r req new (err e) s w w' row owner h =
      let (other, _) = Returns-pure _ (started s) w w' h in cc other
  start_upload-IsBegun user id r req new (ok upload_id) s w w' row owner h =
      let (at, v, clock, rest) = Returns-bind now _ w (started s) w' h in
      let (done, u, tried, last) = Returns-bind (attempt _) _ v (started s) w' rest in
      let (did, left) = Returns-attempt _ v done u tried in
      let (reply, still) = Returns-pure _ (started s) u w' last in
      let same : w.db ≡ v.db = ap (λ (x : World). x.db) clock.1 in
      rw (← still) (go at v u done did left reply same)
    where
      key : String
      key = key_of req.inspection_id new

      go :
          (at : ℕ) (v u : World) (done : Result (Unit {0}))
          → (statement (insert_attachment (new_attachment user id new upload_id key req at)) v).0
            ≡ done
          → (statement (insert_attachment (new_attachment user id new upload_id key req at)) v).1
            ≡ u
          → row_inserted o chunk_size key_of begin new upload_id key done ≡ started s
          → w.db ≡ v.db
          → IsBegun user id s u.db
      go at v u (err e) did left reply same = cc reply
      go at v u (ok _) did left reply same =
          inserted-IsBegun user id r (new_attachment user id new upload_id key req at) s v.db u.db
            (rw (← same) row) owner refl refl (cc reply) (cc reply)
            (Returns-statement _ v tt u (did, left))

  start_on-IsBegun :
      (user id : ℕ) (req : Request) (x : Result (Option Inspection)) (s : Started) (w w' : World)
      → ((f : Option Inspection) → x ≡ ok f → inspection w.db id ≡ f)
      → Returns (start_on o chunk_size key_of begin user id req x) w (started s) w'
      → IsMine user id w.db × IsBegun user id s w'.db
  unfolding start_on new_uuid
  start_on-IsBegun user id req (err e) s w w' found h =
      let (other, _) = Returns-pure _ (started s) w w' h in cc other
  start_on-IsBegun user id req (ok none) s w w' found h =
      let (other, _) = Returns-pure _ (started s) w w' h in cc other
  start_on-IsBegun user id req (ok (some r)) s w w' found h =
      elim (Bool-cases (r.owner_id == user)) [
        | inr e ↦ let (other, _) = Returns-pure _ (started s) w w' (rw e at h) in cc other
        | inl e ↦ elim (Bool-cases r.is_deleted) [
          | inl f ↦ let (other, _) = Returns-pure _ (started s) w w' (rw (e, f) at h) in cc other
          | inr f ↦
              let (new, v, made, rest) =
                Returns-bind new_uuid _ w (started s) w' (rw (e, f) at h) in
              let same : w.db ≡ v.db = ap (λ (x : World). x.db) made.1 in
              let owner : r.owner_id ≡ user = (==_iff r.owner_id user).0 e in
              let row = found (some r) refl in
              (
                (r, row, owner, f),
                start_upload-IsBegun user id r req new _ s v w' (rw (← same) row) owner rest,
              )
        ]
      ]

  -- If the answer is that an upload has begun, then the body names an inspection of the user's that is
  -- not deleted, a file name and a part; and afterwards the upload is found under its id as the
  -- user's, goes on, and is counted among the attachments that its inspection waits for.
  pub create_upload-IsBegun :
      (user : ℕ) (body : Option Request) (s : Started) (w w' : World)
      → Returns (create_upload o chunk_size key_of begin user body) w (started s) w'
      → (req : Request) × (id : ℕ) × (body ≡ some req)
        × (o.parse_uuid req.inspection_id ≡ some id)
        × (str_eq req.filename "" ≡ false)
        × (positive req.total_parts ≡ true)
        × IsMine user id w.db
        × IsBegun user id s w'.db
  unfolding create_upload start_parsed
  create_upload-IsBegun user none s w w' h =
      let (other, _) = Returns-pure _ (started s) w w' h in cc other
  create_upload-IsBegun user (some req) s w w' h =
      elim (Bool-cases (str_eq req.filename "" || not (positive req.total_parts))) [
        | inl e ↦ let (other, _) = Returns-pure _ (started s) w w' (rw e at h) in cc other
        | inr e ↦
            let (id, parsed, mine, begun) = go (o.parse_uuid req.inspection_id) refl (rw e at h) in
            (req, id, refl, parsed, ground arith, ground arith, mine, begun)
      ]
    where
      go :
          (x : Option ℕ)
          → o.parse_uuid req.inspection_id ≡ x
          → Returns (start_parsed o chunk_size key_of begin user req x) w (started s) w'
          → (id : ℕ) × (o.parse_uuid req.inspection_id ≡ some id)
            × IsMine user id w.db
            × IsBegun user id s w'.db
      go none e k = let (other, _) = Returns-pure _ (started s) w w' k in cc other
      go (some id) e k =
          let (x, v, asked, rest) =
            Returns-bind (attempt (query (λ db. inspection db id))) _ w (started s) w' k in
          let (did, left) = Returns-attempt (query (λ db. inspection db id)) w x v asked in
          let same : w.db ≡ v.db = rw (← left) (sym (query-kept (λ db. inspection db id) w)) in
          let (mine, begun) =
            start_on-IsBegun user id req x s v w'
              (λ f g. rw (← same) (Returns-query (λ db. inspection db id) w f v (did ∙ g, left)).0)
              rest in
          (id, e, rw same mine, begun)
