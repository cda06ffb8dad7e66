-- ===== src/Sync/History.antt =====
-- Any deliveries, of any users, in any order and with any answers of the database: what the tables
-- keep along the way.
use mathlib.Core.Path.{subst}
use cc_005_offline_inspectio.Base.{ℕ, some, ◌≡◌, sym, inl, inr, ◌==◌, ◌&&◌}
use cc_005_offline_inspectio.Base.Rows.Laws.{first-insert}
use cc_005_offline_inspectio.Models.{Op, OpResult}
use cc_005_offline_inspectio.Models.Outside.{Outside}
use cc_005_offline_inspectio.Db.{Db, ProcessedOp}
use cc_005_offline_inspectio.Tx.{World}
use cc_005_offline_inspectio.Sync.Ledger.{apply_op, stored_result}
use cc_005_offline_inspectio.Sync.Evolves.{Evolves, Evolves-IsPreorder}
use cc_005_offline_inspectio.Sync.Delivery.{Committed, entry_of}
use cc_005_offline_inspectio.Sync.Effect.{apply_op-Effect}

-- the tables after some deliveries from `a`
pub data Later (o : Outside) (a : Db) : Db → Type 0 where
  here : Later o a a
  delivered :
      {b c : Db}
      → Later o a b
      → (user : ℕ) (op : Op) (w : World) → w.db ≡ b
      → (apply_op o user op w).1.db ≡ c
      → Later o a c

-- a result in the ledger stays the one that is found
pub record KeepsResults (a b : Db) : Type 0 where
  pub result :
      (op_id user : ℕ) (p : ProcessedOp)
      → stored_result op_id user a ≡ some p
      → stored_result op_id user b ≡ some p

Committed-Evolves :
    {o : Outside} {user op_id id : ℕ} {op : Op} {res : OpResult} (a b : Db)
    → Committed o user op_id id op res a b
    → Evolves a b
Committed-Evolves a b c = record {
  row = λ j r e.
      let (r', found, continues) = c.evolves.row j r e in (r', rw c.recorded found, continues);
}

Committed-KeepsResults :
    {o : Outside} {user op_id id : ℕ} {op : Op} {res : OpResult} (a b : Db)
    → Committed o user op_id id op res a b
    → KeepsResults a b
Committed-KeepsResults {user} {op_id} {id} {res} a b c = record {
  result = λ k u p e. rw (
    c.recorded,
    first-insert (λ q. q.op_id == k && q.user_id == u) (entry_of user op_id res) a.processed_ops,
    e,
  );
}

module _ (o : Outside) (user : ℕ) (op : Op) (w : World) where
  apply_op-Evolves : Evolves w.db (apply_op o user op w).1.db
  apply_op-Evolves = elim (apply_op-Effect o user op w) [
    | inl same ↦ subst (Evolves w.db) (sym same) (Evolves-IsPreorder.self w.db)
    | inr c ↦ Committed-Evolves _ _ c.did
  ]

  apply_op-KeepsResults : KeepsResults w.db (apply_op o user op w).1.db
  apply_op-KeepsResults = elim (apply_op-Effect o user op w) [
    | inl same ↦ subst (KeepsResults w.db) (sym same) (record { result = λ k u p e. e })
    | inr c ↦ Committed-KeepsResults _ _ c.did
  ]

module _ (o : Outside) (a : Db) where
  -- After any deliveries a row of `inspections` is still there, with its owner, deleted if it was, and
  -- with a revision that is not lower.
  pub Later-Evolves : {b : Db} → Later o a b → Evolves a b
  Later-Evolves here = Evolves-IsPreorder.self a
  Later-Evolves (delivered {b} {c} l user op w e f) =
      Evolves-IsPreorder.through a b c (Later-Evolves l)
        (subst (λ x. Evolves x c) e (subst (Evolves w.db) f (apply_op-Evolves o user op w)))

  pub Later-KeepsResults : {b : Db} → Later o a b → KeepsResults a b
  Later-KeepsResults here = record { result = λ k u p e. e }
  Later-KeepsResults (delivered {b} {c} l user op w e f) =
      let step : KeepsResults b c =
        subst (λ x. KeepsResults x c) e
          (subst (KeepsResults w.db) f (apply_op-KeepsResults o user op w)) in
      record { result = λ k u p h. step.result k u p ((Later-KeepsResults l).result k u p h) }
