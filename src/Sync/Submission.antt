-- ===== src/Sync/Submission.antt =====
-- The gate before a review, in the upsert branch of `applyOpTx`.
use mathlib.Core.Path.{subst}
use cc_005_offline_inspectio.Base.{
  ℕ, true, false, none, some, ◌≡◌, refl, ap, ◌∙◌, sym, inl, inr, ==_iff, ◌<◌, ltb, arith,
}
use cc_005_offline_inspectio.Models.{
  status, Op, upsert, OpResult, OpStatus, attachments_incomplete, not_fully_uploaded,
}
use cc_005_offline_inspectio.Models.Outside.{Outside}
use cc_005_offline_inspectio.Db.{Db, Inspection, inspection}
use cc_005_offline_inspectio.Tx.{World, Result, ok, err, pure, ◌>>=◌}
use cc_005_offline_inspectio.Tx.Inversion.{query-bind}
use cc_005_offline_inspectio.Sync.Statements.{incomplete_attachments}
use cc_005_offline_inspectio.Sync.Validate.{change_of, validate_changes}
use cc_005_offline_inspectio.Sync.Upsert.{
  answer, asks_submission, is_delete, submit_guard, upsert_inspection, edited_inspection,
  upsert_or_delete,
}
use cc_005_offline_inspectio.Sync.Resolve.{apply_kind, apply_op_tx}
use cc_005_offline_inspectio.Sync.Ledger.{
  apply_op, with_ids, in_transaction, deliver, replay_or, first_delivery, apply_and_record,
  record_outcome, is_known, is_ledgered_status, stored_result, used_by_others,
}
use cc_005_offline_inspectio.Sync.Effect.{apply_op-Effect}
use cc_005_offline_inspectio.Sync.Replay.{calm}

-- nothing changed, and an answer, if there is one, says that attachments are missing
abbrev IsHeld : Db → Result OpResult × World → Type 0
IsHeld db (err e, v) = v.db ≡ db
IsHeld db (ok res, v) = (v.db ≡ db) × (res.status ≡ OpStatus.incomplete)

IsHeld-status :
    (db : Db) (x : Result OpResult × World) (res : OpResult)
    → IsHeld db x
    → x.0 ≡ ok res
    → is_ledgered_status res.status ≡ false
unfolding is_ledgered_status
IsHeld-status db (ok r, v) res h e = let same : r ≡ res = cc e in rw (← same, h.1)
IsHeld-status db (err m, v) res h e = cc e

module _ (o : Outside) (user op_id id : ℕ) (op : Op) (r : Inspection) (edit : op.kind ≡ upsert)
    (own : r.owner_id ≡ user) (live : r.is_deleted ≡ false)
    (passes : validate_changes op.changes false ≡ none)
    (asks : asks_submission (change_of status op.changes) ≡ true) where
  upsert-IsHeld :
      (db : Db) (w : World)
      → w.db ≡ db
      → 0 < incomplete_attachments id db
      → IsHeld db (upsert_inspection o user op_id id op false w)
  unfolding upsert_inspection submit_guard
  upsert-IsHeld db w same missing = rw asks (
      query-bind (IsHeld db) (incomplete_attachments id) _ w (λ e v still. still ∙ same)
        (λ v still.
          let more : ltb 0 (incomplete_attachments id w.db) ≡ true = rw same (ground arith) in
          rw more (unfold pure in (still ∙ same, refl))))

  not_delete : is_delete op.kind ≡ false
  unfolding is_delete
  not_delete = ap is_delete edit

  found-IsHeld :
      (db : Db) (w : World)
      → w.db ≡ db
      → 0 < incomplete_attachments id db
      → IsHeld db (upsert_or_delete o user op_id id op (some r) w)
  unfolding upsert_or_delete edited_inspection
  found-IsHeld db w same missing =
      rw ((==_iff r.owner_id user).1 own, live, not_delete, passes)
        (upsert-IsHeld db w same missing)

  apply_op_tx-IsHeld :
      (w : World)
      → inspection w.db id ≡ some r
      → 0 < incomplete_attachments id w.db
      → IsHeld w.db (apply_op_tx o user op_id id op w)
  unfolding apply_op_tx apply_kind
  apply_op_tx-IsHeld w found missing =
      subst (λ k. IsHeld w.db (apply_kind o user op_id id op k w)) (sym edit)
        (query-bind (IsHeld w.db) (λ db. inspection db id) (upsert_or_delete o user op_id id op) w
          (λ e v still. still) (λ v still. rw found (found-IsHeld w.db v still missing)))

  -- A live inspection's own user cannot submit it while one of its attachments is not completed: a
  -- valid upsert that asks for it changes nothing at all, not even the ledger, whatever the database
  -- answers. So a later delivery of it is judged anew.
  pub submission-held :
      (w : World)
      → o.parse_uuid op.op_id ≡ some op_id
      → o.parse_uuid op.inspection_id ≡ some id
      → inspection w.db id ≡ some r
      → 0 < incomplete_attachments id w.db
      → (apply_op o user op w).1.db ≡ w.db
  submission-held w op_id_parsed id_parsed found missing = elim (apply_op-Effect o user op w) [
    | inl same ↦ same
    | inr c ↦
        let d = c.did in
        let same_op : c.op_id ≡ op_id = cc (c.op_id_parsed, op_id_parsed) in
        let same_id : c.id ≡ id = cc (c.id_parsed, id_parsed) in
        let ran : (apply_op_tx o user op_id id op d.before).0 ≡ ok c.result =
          rw (same_op, same_id) at (d.ran.0) in
        cc (
          d.terminal,
          IsHeld-status d.before.db _ c.result
              (apply_op_tx-IsHeld d.before (rw d.started found) (rw d.started missing)) ran,
        )
  ]

  -- The client of such an upsert, if the operation's id is in nobody's ledger and the database answers
  -- every call, is told that the attachments are incomplete, and how many are missing.
  pub submission-told :
      (w : World)
      → o.parse_uuid op.op_id ≡ some op_id
      → o.parse_uuid op.inspection_id ≡ some id
      → inspection w.db id ≡ some r
      → 0 < incomplete_attachments id w.db
      → stored_result op_id user w.db ≡ none
      → used_by_others op_id user w.db ≡ 0
      → (apply_op o user op (calm w)).0
        ≡ answer op OpStatus.incomplete attachments_incomplete
            (not_fully_uploaded (incomplete_attachments id w.db))
  unfolding apply_op with_ids in_transaction deliver replay_or first_delivery apply_and_record
      apply_op_tx apply_kind upsert_or_delete edited_inspection upsert_inspection submit_guard
      record_outcome is_ledgered_status is_known is_delete ◌>>=◌
  submission-told w op_id_parsed id_parsed found missing new unused =
      let more : ltb 0 (incomplete_attachments id w.db) ≡ true = ground (arith, missing) in
      simp
        (
          op_id_parsed,
          id_parsed,
          edit,
          new,
          unused,
          found,
          (==_iff r.owner_id user).1 own,
          live,
          passes,
          asks,
        )
        (rw more)
