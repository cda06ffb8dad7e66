-- ===== src/Sync/Replay.antt =====
-- Repeated deliveries of an operation.
use cc_005_offline_inspectio.Base.{
  Option-cases, ◌≢◌, ◌⊎◌, ℕ, true, some, [], ◌≡◌, inl, inr, ◌==◌, ◌&&◌, both_true, arith,
}
use cc_005_offline_inspectio.Base.Rows.Laws.{exists_of_first, first-insert}
use cc_005_offline_inspectio.Models.{Op, OpResult, OpStatus}
use cc_005_offline_inspectio.Models.Outside.{Outside}
use cc_005_offline_inspectio.Db.{Db, ProcessedOp}
use cc_005_offline_inspectio.Tx.{World, ◌>>=◌}
use cc_005_offline_inspectio.Sync.Ledger.{
  apply_op, with_ids, in_transaction, deliver, replay_or, is_known, is_ledgered_status,
  stored_result, replayed,
}
use cc_005_offline_inspectio.Sync.Delivery.{in_ledger, entry_of}
use cc_005_offline_inspectio.Sync.Effect.{Commits, apply_op-Effect}
use cc_005_offline_inspectio.Sync.History.{Later, Later-KeepsResults}

in_ledger_of_stored :
    (op_id user : ℕ) (db : Db) (p : ProcessedOp)
    → stored_result op_id user db ≡ some p
    → in_ledger op_id db ≡ true
in_ledger_of_stored op_id user db p e =
    exists_of_first _ _ db.processed_ops e
      (λ q h. (both_true (q.op_id == op_id) (q.user_id == user) h).0)

-- the same moment, with a database that answers every call
abbrev pub calm : World → World
calm w = record w { outcomes = [] }

module _ (o : Outside) (user : ℕ) (op : Op) (op_id id : ℕ) (p : ProcessedOp)
    (op_id_parsed : o.parse_uuid op.op_id ≡ some op_id)
    (id_parsed : o.parse_uuid op.inspection_id ≡ some id) where
  -- An operation whose id is in the ledger changes nothing, whatever the database answers.
  replay-unchanged :
      (w : World) → stored_result op_id user w.db ≡ some p → (apply_op o user op w).1.db ≡ w.db
  replay-unchanged w stored = elim (apply_op-Effect o user op w) [
    | inl same ↦ same
    | inr c ↦
        let same : c.op_id ≡ op_id = cc (c.op_id_parsed, op_id_parsed) in
        cc (rw same at (c.did.fresh), in_ledger_of_stored op_id user w.db p stored)
  ]

  replay-answer :
      (w : World) (prev : OpResult)
      → is_known op.kind ≡ true
      → stored_result op_id user w.db ≡ some p
      → o.reread p.result ≡ some prev
      → (apply_op o user op (calm w)).0 ≡ replayed prev
  unfolding apply_op with_ids in_transaction deliver replay_or ◌>>=◌
  replay-answer w prev known stored again = rw (op_id_parsed, id_parsed, known, stored, again)

module _ (o : Outside) (user : ℕ) (op : Op) where
  -- a commit leaves the result where a second delivery finds it
  stored_of_commit :
      (res : OpResult) (a b : Db) (c : Commits o user op res a b)
      → stored_result c.op_id user b ≡ some (entry_of user c.op_id c.result)
  stored_of_commit res a b c =
      rw
        (
          c.did.recorded,
          first-insert (λ q. q.op_id == c.op_id && q.user_id == user)
              (entry_of user c.op_id c.result) a.processed_ops,
        )
        (elim (Option-cases (stored_result c.op_id user a)) [
          | inl free ↦ rw free (ground arith)
          | inr (p, used) ↦ cc (c.did.fresh, in_ledger_of_stored c.op_id user a p used)
        ])

  -- Exactly once. If a first delivery changed the tables, then after any further deliveries, of any
  -- users, with any answers of the database, a second delivery of the same operation changes nothing.
  -- The ledger still has one terminal result under its id and user, which the first delivery reported
  -- unless it reported an error.
  pub exactly_once :
      (w : World)
      → (apply_op o user op w).1.db ≢ w.db
      → (v : World) → Later o (apply_op o user op w).1.db v.db
      → ((apply_op o user op v).1.db ≡ v.db)
        × ((op_id : ℕ) × (r : OpResult) × (o.parse_uuid op.op_id ≡ some op_id)
            × (stored_result op_id user v.db ≡ some (entry_of user op_id r))
            × (is_ledgered_status r.status ≡ true)
            × (((apply_op o user op w).0 ≡ r) ⊎ ((apply_op o user op w).0.status ≡ OpStatus.error)))
  exactly_once w changed v later = elim (apply_op-Effect o user op w) [
    | inl same ↦ absurd (changed same)
    | inr c ↦
        let stored =
          (Later-KeepsResults o _ later).result c.op_id user _ (stored_of_commit _ _ _ c) in
        let p = entry_of user c.op_id c.result in
        (
          replay-unchanged o user op c.op_id c.id p c.op_id_parsed c.id_parsed v stored,
          (c.op_id, c.result, c.op_id_parsed, stored, c.did.terminal, c.reported),
        )
  ]

  -- Suppose the ledger reads every result back, as `kept` says. If a first delivery changed the tables
  -- and reported no error, then after any further deliveries, of any users, a second delivery of the
  -- same operation that the database answers is told the result that the first one reported, as it was
  -- kept, with its status marked as a duplicate.
  pub redelivery-replayed :
      (kept : OpResult → OpResult)
      → ((r : OpResult) → o.reread r ≡ some (kept r))
      → (w : World) → (apply_op o user op w).1.db ≢ w.db
      → (apply_op o user op w).0.status ≢ OpStatus.error
      → (v : World) → Later o (apply_op o user op w).1.db v.db
      → (apply_op o user op (calm v)).0 ≡ replayed (kept (apply_op o user op w).0)
  redelivery-replayed kept back w changed fine v later = elim (apply_op-Effect o user op w) [
    | inl same ↦ absurd (changed same)
    | inr c ↦
        let stored =
          (Later-KeepsResults o _ later).result c.op_id user _ (stored_of_commit _ _ _ c) in
        let p = entry_of user c.op_id c.result in
        elim c.reported [
          | inl same ↦ rw same (
              replay-answer o user op c.op_id c.id p c.op_id_parsed c.id_parsed v (kept c.result)
                c.known stored (back c.result))
          | inr bad ↦ absurd (fine bad)
        ]
  ]
