-- ===== src/Uploads/Completes.antt =====
-- An upload whose parts are all there.
use mathlib.Core.Option
use cc_005_offline_inspectio.Base.{
  ℕ, zero, suc, String, true, false, Option, none, some, List, [], ◌∷◌, ◌==◌, ==_iff, ◌+◌, ◌≡◌, ◌∙◌,
  ◌<◌, refl, inl, inr, Bool-cases, str_eq, arith, if◌then◌else◌,
}
use cc_005_offline_inspectio.Base.Rows.{length, first, update}
use cc_005_offline_inspectio.Db.{Db, Attachment, Inspection, UploadPart, inspection}
use cc_005_offline_inspectio.Models.{completed}
use cc_005_offline_inspectio.Tx.{Result, ok, World, pure, statement, query, attempt, ◌>>=◌}
use cc_005_offline_inspectio.Sync.Replay.{calm}
use cc_005_offline_inspectio.Uploads.{
  finished, finished_before, access_of, authorize_upload, upload_of, joined, with_owner, first_gap,
  parts_of, set_completed, completion, complete_stored, complete_without_gap, complete_parts,
  complete_authorized, complete_upload, is_finished,
}
use cc_005_offline_inspectio.Uploads.Completion.{numbers, count_from}

numbers-first_gap :
    (n k : ℕ) (ps : List UploadPart)
    → numbers ps ≡ count_from n k
    → (first_gap n ps ≡ none) × (length ps ≡ k)
unfolding first_gap
numbers-first_gap n zero [] h = (refl, refl)
numbers-first_gap n (suc k) [] h = cc h
numbers-first_gap n zero (p ∷ ps) h = cc h
numbers-first_gap n (suc k) (p ∷ ps) h =
    let here : p.part_number ≡ n = cc h in
    let (rest, size) = numbers-first_gap (n + 1) k ps (cc h) in
    (rw ((==_iff p.part_number n).1 here, rest) refl, rw size refl)

-- an attachment after `set_completed`
abbrev done : ℕ → Attachment → Attachment
done id a = if a.id == id then record a { status = completed } else a

abbrev done_row : ℕ → Attachment × ℕ → Attachment × ℕ
done_row id (a, owner) = (done id a, owner)

first-done :
    (upload_id : String) (id : ℕ) (xs : List Attachment)
    → first
        (λ a. str_eq a.upload_id upload_id)
        (update (λ a. a.id == id) (λ a. record a { status = completed }) xs)
      ≡ Option.map (done id) (first (λ a. str_eq a.upload_id upload_id) xs)
unfolding first update
first-done upload_id id [] = refl
first-done upload_id id (x ∷ xs) = elim (Bool-cases (x.id == id)) [
  | inl e ↦ elim (Bool-cases (str_eq x.upload_id upload_id)) [
    | inl k ↦ rw (e, k, e) refl
    | inr k ↦ rw (e, k) (first-done upload_id id xs)
  ]
  | inr e ↦ elim (Bool-cases (str_eq x.upload_id upload_id)) [
    | inl k ↦ rw (e, k, e) refl
    | inr k ↦ rw (e, k) (first-done upload_id id xs)
  ]
]

joined-done :
    (id : ℕ) (db db' : Db) (o : Option Attachment)
    → db'.inspections ≡ db.inspections
    → joined db' (Option.map (done id) o) ≡ Option.map (done_row id) (joined db o)
joined-done id db db' none same = refl
joined-done id db db' (some a) same = elim (Bool-cases (a.id == id)) [
  | inl e ↦ rw (e, same) (owned (inspection db a.inspection_id) e)
  | inr e ↦ rw (e, same) (kept (inspection db a.inspection_id) e)
]
  where
    owned :
        (r : Option Inspection)
        → (a.id == id) ≡ true
        → with_owner (record a { status = completed }) r ≡ Option.map (done_row id) (with_owner a r)
    owned none e = refl
    owned (some r) e = rw e refl

    kept :
        (r : Option Inspection)
        → (a.id == id) ≡ false
        → with_owner a r ≡ Option.map (done_row id) (with_owner a r)
    kept none e = refl
    kept (some r) e = rw e refl

-- the tables after `set_completed`
abbrev completed_in : ℕ → Db → Db
completed_in id db = record db {
  attachments = update (λ a. a.id == id) (λ a. record a { status = completed }) db.attachments;
}

module _ (store : String → List UploadPart → Result (Unit {0})) where
  parts-finished :
      (a : Attachment) (ps : List UploadPart) (k : ℕ) (w : World)
      → 0 < k
      → numbers ps ≡ count_from 1 k
      → store a.object_key ps ≡ ok tt
      → complete_parts store a (ok ps) (calm w)
        ≡ (ok (finished k), record (calm w) { db = completed_in a.id w.db })
  unfolding complete_parts complete_without_gap complete_stored completion set_completed statement
      attempt pure ◌>>=◌
  parts-finished a [] zero w some_part h stored = absurd (omega (arith, some_part))
  parts-finished a [] (suc k) w some_part h stored = cc h
  parts-finished a (p ∷ ps) k w some_part h stored =
      let (no_gap, size) = numbers-first_gap 1 k (p ∷ ps) h in rw (no_gap, stored, size) refl

  -- An upload of the user's that is not completed, whose parts in the ledger are numbered from one to a
  -- number without a gap, is completed with that number of parts, if the database answers and the
  -- object store takes the parts: afterwards it is found as completed, and completing it again says so
  -- and changes nothing, whatever the object store would answer.
  pub complete_upload-completes :
      (user : ℕ) (upload_id : String) (a : Attachment) (k : ℕ) (w : World)
      → upload_of upload_id w.db ≡ some (a, user)
      → is_finished a.status ≡ false
      → 0 < k
      → numbers (parts_of upload_id w.db) ≡ count_from 1 k
      → store a.object_key (parts_of upload_id w.db) ≡ ok tt
      → (v : World) × (complete_upload store user upload_id (calm w) ≡ (ok (finished k), v))
        × (upload_of upload_id v.db ≡ some (record a { status = completed }, user))
        × ((other : String → List UploadPart → Result (Unit {0}))
            → complete_upload other user upload_id v ≡ (ok finished_before, v))
  unfolding complete_upload authorize_upload access_of complete_authorized query statement attempt
      pure ◌>>=◌
  complete_upload-completes user upload_id a k w found going some_part whole stored =
      let after : upload_of upload_id (completed_in a.id w.db)
          ≡ some (record a { status = completed }, user) =
        rw (first-done upload_id a.id w.db.attachments) (
          joined-done a.id w.db (completed_in a.id w.db) _ refl
          ∙ rw (found, (==_iff a.id a.id).1 refl) refl) in
      (
        record (calm w) { db = completed_in a.id w.db },
        rw (found, (==_iff user user).1 refl, going)
            (parts-finished a (parts_of upload_id w.db) k w some_part whole stored),
        after,
        λ other. rw (after, (==_iff user user).1 refl) refl,
      )
