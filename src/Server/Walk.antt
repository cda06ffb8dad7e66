-- ===== src/Server/Walk.antt =====
-- A relation on the tables that the statements of the uploads and the deliveries of a user respect is
-- respected by every handler that runs for the user.
use cc_005_offline_inspectio.Base.{
  ℕ, String, not, ◌+◌, Option, none, some, List, [], ◌∷◌, ◌≡◌, ◌==◌, ltb, inl, inr, Bool-cases,
  arith,
}
use mathlib.Core.Path.{subst}
use cc_005_offline_inspectio.Base.Rows.{length, exists, insert}
use cc_005_offline_inspectio.Models.{Op}
use cc_005_offline_inspectio.Models.Outside.{Outside}
use cc_005_offline_inspectio.Db.{Db, Attachment, UploadPart, Inspection}
use cc_005_offline_inspectio.Tx.{
  Result, ok, err, World, Tx, query, query_rows, attempt, statement, ◌>>=◌,
}
use cc_005_offline_inspectio.Tx.Respects.{
  IsPreorder, Respects, Respects-pure, Respects-query, Respects-query_rows, Respects-attempt,
  Respects-if, Respects-now, Respects-new_uuid, Respects-bind, Respects-run, Respects-statement,
  ok_table,
}
use cc_005_offline_inspectio.Sync.Ledger.{apply_op, apply_ops, sync}
use cc_005_offline_inspectio.Uploads.{
  is_part, Reply, Access, granted, denied, is_uploading, is_finished, limited,
}
use cc_005_offline_inspectio.Uploads as Uploads
use cc_005_offline_inspectio.Uploads.Start as Start
use cc_005_offline_inspectio.Uploads.Start.{insert_attachment}

-- what a handler for `user` does to the tables
pub record Serves (R : Db → Db → Type 0) (o : Outside) (user : ℕ) : Type 0 where
  pub preorder : IsPreorder R
  pub attachments : (db : Db) (l : List Attachment) → R db (record db { attachments = l })
  pub upload_parts : (db : Db) (l : List UploadPart) → R db (record db { upload_parts = l })
  pub delivery : (op : Op) (w : World) → R w.db (apply_op o user op w).1.db

-- a query whose error is looked at, and what goes on with its answer
pub Respects-asked :
    {A B : Type 0} {R : Db → Db → Type 0} (p : IsPreorder R) (q : Db → A) (f : Result A → Tx B)
    → ((r : Result A) → Respects R (f r))
    → Respects R (attempt (query q) >>= f)
Respects-asked p q f h = Respects-bind p _ f (Respects-attempt p (query q) (Respects-query p q)) h

-- the rows of a query whose error is looked at
pub Respects-asked_rows :
    {A B : Type 0} {R : Db → Db → Type 0} (p : IsPreorder R) (q : Db → List A)
    (f : Result (List A) → Tx B)
    → ((r : Result (List A)) → Respects R (f r))
    → Respects R (attempt (query_rows q) >>= f)
Respects-asked_rows p q f h =
    Respects-bind p _ f (Respects-attempt p (query_rows q) (Respects-query_rows p q)) h

inserted :
    (a : Attachment) (db db' : Db) (u : Unit {0})
    → insert_attachment a db ≡ ok (u, db')
    → record db { attachments = insert a db.attachments } ≡ db'
unfolding insert_attachment
inserted a db db' u e = ground arith

module _ {R : Db → Db → Type 0} {o : Outside} {user : ℕ} (k : Serves R o user) where
  apply_ops-R : (ops : List Op) (w : World) → R w.db (apply_ops o user ops w).1.db
  unfolding apply_ops
  apply_ops-R [] w = k.preorder.self w.db
  apply_ops-R (op ∷ ops) w =
      let v = (apply_op o user op w).1 in
      k.preorder.through w.db v.db _ (k.delivery op w) (apply_ops-R ops v)

  pub sync-R : (req : Option (List Op)) (w : World) → R w.db (sync o user req w).1.db
  unfolding sync
  sync-R none w = k.preorder.self w.db
  sync-R (some ops) w = apply_ops-R ops w

  insert_part-Respects : (p : UploadPart) → Respects R (statement (Uploads.insert_part p))
  unfolding Uploads.insert_part
  insert_part-Respects p = Respects-statement k.preorder _ λ db u db' e.
      elim (Bool-cases (exists (is_part p.upload_id p.part_number) db.upload_parts)) [
        | inl there ↦ subst (R db) (ok_table (rw there at e)) (k.preorder.self db)
        | inr new ↦ subst (R db) (ok_table (rw new at e)) (k.upload_parts db _)
      ]

  insert_attachment-Respects : (a : Attachment) → Respects R (statement (insert_attachment a))
  insert_attachment-Respects a =
      Respects-statement k.preorder _
        (λ db u db' e. subst (R db) (inserted a db db' u e) (k.attachments db _))

  set_completed-Respects : (id : ℕ) → Respects R (statement (Uploads.set_completed id))
  unfolding Uploads.set_completed
  set_completed-Respects id = Respects-run k.preorder tt _ (λ db. k.attachments db _)

  authorize-Respects : (id : String) → Respects R (Uploads.authorize_upload id user)
  unfolding Uploads.authorize_upload
  authorize-Respects id = Respects-asked k.preorder _ _ (λ r. Respects-pure k.preorder _)

  record_part-Respects :
      (id : String) (n : ℕ) (r : Result String) → Respects R (Uploads.record_part id n r)
  unfolding Uploads.record_part
  record_part-Respects id n (err e) = Respects-pure k.preorder _
  record_part-Respects id n (ok etag) =
      Respects-bind k.preorder _ _ (Respects-attempt k.preorder _ (insert_part-Respects _))
        (λ r. Respects-pure k.preorder _)

  module _ (size : ℕ) (store : String → ℕ → List ℕ → Result String) where
    store_part-Respects :
        (id : String) (a : Attachment) (n : ℕ) (body : Result (List ℕ))
        → Respects R (Uploads.store_part size store id a n body)
    unfolding Uploads.store_part
    store_part-Respects id a n (err e) = Respects-pure k.preorder _
    store_part-Respects id a n (ok bs) =
        let part = limited (size + 1) bs in
        Respects-if k.preorder (ltb size (length part)) _ _ (Respects-pure k.preorder _) (
          Respects-if k.preorder (length part == 0) _ _ (Respects-pure k.preorder _)
            (record_part-Respects id n (store a.object_key n part)))

    replay_part-Respects :
        (id : String) (a : Attachment) (n : ℕ) (body : Result (List ℕ))
        (r : Result (Option UploadPart))
        → Respects R (Uploads.replay_part size store id a n body r)
    unfolding Uploads.replay_part
    replay_part-Respects id a n body (err e) = Respects-pure k.preorder _
    replay_part-Respects id a n body (ok (some p)) = Respects-pure k.preorder _
    replay_part-Respects id a n body (ok none) = store_part-Respects id a n body

    put_authorized-Respects :
        (id : String) (n : ℕ) (body : Result (List ℕ)) (access : Access)
        → Respects R (Uploads.put_authorized size store id n body access)
    unfolding Uploads.put_authorized
    put_authorized-Respects id n body (denied r) = Respects-pure k.preorder _
    put_authorized-Respects id n body (granted a) =
        Respects-if k.preorder _ _ _ (Respects-pure k.preorder _)
          (Respects-asked k.preorder _ _ (replay_part-Respects id a n body))

    pub put_part-Respects :
        (id : String) (part : Option ℕ) (body : Result (List ℕ))
        → Respects R (Uploads.put_part size store user id part body)
    unfolding Uploads.put_part
    put_part-Respects id none body = Respects-pure k.preorder _
    put_part-Respects id (some n) body =
        Respects-if k.preorder _ _ _ (Respects-pure k.preorder _)
          (Respects-bind k.preorder _ _ (authorize-Respects id) (put_authorized-Respects id n body))

  module _ (store : String → List UploadPart → Result (Unit {0})) where
    complete_stored-Respects :
        (a : Attachment) (ps : List UploadPart) (r : Result (Unit {0}))
        → Respects R (Uploads.complete_stored store a ps r)
    unfolding Uploads.complete_stored
    complete_stored-Respects a ps (err e) = Respects-pure k.preorder _
    complete_stored-Respects a ps (ok _) =
        Respects-bind k.preorder _ _ (Respects-attempt k.preorder _ (set_completed-Respects a.id))
          (λ r. Respects-pure k.preorder _)

    complete_gap-Respects :
        (a : Attachment) (ps : List UploadPart) (gap : Option ℕ)
        → Respects R (Uploads.complete_without_gap store a ps gap)
    unfolding Uploads.complete_without_gap
    complete_gap-Respects a ps (some n) = Respects-pure k.preorder _
    complete_gap-Respects a ps none = complete_stored-Respects a ps _

    complete_parts-Respects :
        (a : Attachment) (r : Result (List UploadPart))
        → Respects R (Uploads.complete_parts store a r)
    unfolding Uploads.complete_parts
    complete_parts-Respects a (err e) = Respects-pure k.preorder _
    complete_parts-Respects a (ok []) = Respects-pure k.preorder _
    complete_parts-Respects a (ok (p ∷ ps)) = complete_gap-Respects a (p ∷ ps) _

    complete_authorized-Respects :
        (id : String) (access : Access) → Respects R (Uploads.complete_authorized store id access)
    unfolding Uploads.complete_authorized
    complete_authorized-Respects id (denied r) = Respects-pure k.preorder _
    complete_authorized-Respects id (granted a) =
        Respects-if k.preorder _ _ _ (Respects-pure k.preorder _)
          (Respects-asked_rows k.preorder _ _ (complete_parts-Respects a))

    pub complete_upload-Respects :
        (id : String) → Respects R (Uploads.complete_upload store user id)
    unfolding Uploads.complete_upload
    complete_upload-Respects id =
        Respects-bind k.preorder _ _ (authorize-Respects id) (complete_authorized-Respects id)

  module _ (size : ℕ) (key_of : String → ℕ → String) (begin : String → String → Result String) where
    start_upload-Respects :
        (id : ℕ) (req : Start.Request) (new : ℕ) (r : Result String)
        → Respects R (Start.start_upload o size key_of begin user id req new r)
    unfolding Start.start_upload
    start_upload-Respects id req new (err e) = Respects-pure k.preorder _
    start_upload-Respects id req new (ok upload_id) =
        Respects-bind k.preorder _ _ (Respects-now k.preorder) λ at.
          Respects-bind k.preorder _ _
            (Respects-attempt k.preorder _ (insert_attachment-Respects _))
            (λ r. Respects-pure k.preorder _)

    start_on-Respects :
        (id : ℕ) (req : Start.Request) (r : Result (Option Inspection))
        → Respects R (Start.start_on o size key_of begin user id req r)
    unfolding Start.start_on
    start_on-Respects id req (err e) = Respects-pure k.preorder _
    start_on-Respects id req (ok none) = Respects-pure k.preorder _
    start_on-Respects id req (ok (some row)) =
        Respects-if k.preorder (not (row.owner_id == user)) _ _ (Respects-pure k.preorder _) (
          Respects-if k.preorder row.is_deleted _ _ (Respects-pure k.preorder _) (
            Respects-bind k.preorder _ _ (Respects-new_uuid k.preorder)
              (λ new. start_upload-Respects id req new _)))

    start_parsed-Respects :
        (req : Start.Request) (id : Option ℕ)
        → Respects R (Start.start_parsed o size key_of begin user req id)
    unfolding Start.start_parsed
    start_parsed-Respects req none = Respects-pure k.preorder _
    start_parsed-Respects req (some id) = Respects-asked k.preorder _ _ (start_on-Respects id req)

    pub create_upload-Respects :
        (req : Option Start.Request) → Respects R (Start.create_upload o size key_of begin user req)
    unfolding Start.create_upload
    create_upload-Respects none = Respects-pure k.preorder _
    create_upload-Respects (some req) =
        Respects-if k.preorder _ _ _ (Respects-pure k.preorder _) (start_parsed-Respects req _)
