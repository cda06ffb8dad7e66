-- ===== src/Sync/Delivery.antt =====
-- What the body of the transaction of `applyOp` has done when it ends with a commit.
use mathlib.Core.Path.{subst, ap₂}
use cc_005_offline_inspectio.Base.{
  List, ℕ, Bool, true, false, not, Option, none, some, ◌≡◌, refl, ap, ◌∙◌, sym, inl, inr,
  Bool-cases, if◌then◌else◌, ltb, ◌==◌,
}
use cc_005_offline_inspectio.Base.Rows.{exists, insert}
use cc_005_offline_inspectio.Models.{Op, OpResult, id_of_other_user, op_id_collision, OpStatus}
use cc_005_offline_inspectio.Models.Outside.{Outside}
use cc_005_offline_inspectio.Db.{Db, Inspection, ProcessedOp, inspection}
use cc_005_offline_inspectio.Tx.{Tx, World, Result, ok, err, pure, query, statement, attempt}
use cc_005_offline_inspectio.Tx.Inversion.{
  Returns, Returns-pure, Returns-statement, Returns-query, Returns-attempt, Returns-bind, table_or,
}
use cc_005_offline_inspectio.Sync.Statements.{insert_processed}
use cc_005_offline_inspectio.Sync.Upsert.{answer}
use cc_005_offline_inspectio.Sync.Resolve.{apply_op_tx}
use cc_005_offline_inspectio.Sync.Ledger.{
  rolled_back, committed, is_ledgered_status, ending_of, write_entry, apply_and_record,
  record_outcome, replay_or, first_delivery, reread_entry, deliver, used_by_others, stored_result,
}
use cc_005_offline_inspectio.Sync.Steps.Operation.{apply_op_tx-Respects}
use cc_005_offline_inspectio.Sync.Confined.{Confined, Confined-Steps}
use cc_005_offline_inspectio.Sync.Ownership.{IsRefusal-same, apply_op_tx-IsRefusal}
use cc_005_offline_inspectio.Sync.Evolves.{Evolves, Evolves-Steps}

abbrev pub entry_of : ℕ → ℕ → OpResult → ProcessedOp
entry_of user op_id res = record { op_id = op_id; user_id = user; result = res }

abbrev pub in_ledger : ℕ → Db → Bool
in_ledger op_id db = exists (λ p. p.op_id == op_id) db.processed_ops

-- From the tables `a` the operation made `applied`, and the entry of its result gave `b`.
pub record Committed (o : Outside) (user op_id id : ℕ) (op : Op) (res : OpResult) (a b : Db)
    : Type 0 where
  pub before : World
  pub after : World
  pub started : before.db ≡ a
  pub ran : Returns (apply_op_tx o user op_id id op) before res after
  pub applied : Db
  pub left : after.db ≡ applied
  pub confined : Confined user id a applied
  pub evolves : Evolves a applied
  pub refused :
      (r : Inspection) → inspection a id ≡ some r → (r.owner_id == user) ≡ false → applied ≡ a
  pub fresh : in_ledger op_id a ≡ false
  pub terminal : is_ledgered_status res.status ≡ true
  pub recorded :
      b ≡ record applied { processed_ops = insert (entry_of user op_id res) a.processed_ops }

insert_processed-ok :
    (p : ProcessedOp) (db db' : Db)
    → insert_processed p db ≡ ok (tt, db')
    → (in_ledger p.op_id db ≡ false)
      × (db' ≡ record db { processed_ops = insert p db.processed_ops })
insert_processed-ok p db db' e = elim (Bool-cases (in_ledger p.op_id db)) [
  | inl used ↦ cc (rw used at e)
  | inr free ↦ (free, sym (ap (table_or db) (rw free at e)))
]

-- what an ending with a commit says of the entry
abbrev Recorded : ℕ → ℕ → OpResult → OpResult → Db → Db → Type 0
Recorded user op_id r res a b =
    (r ≡ res)
    × (in_ledger op_id a ≡ false)
    × (b ≡ record a { processed_ops = insert (entry_of user op_id r) a.processed_ops })

ending-committed :
    (user op_id : ℕ) (op : Op) (r res : OpResult) (a b : Db) (written : Result (Unit {0}))
    → ending_of op r written ≡ committed res
    → ((u : Unit {0}) → written ≡ ok u → insert_processed (entry_of user op_id r) a ≡ ok (u, b))
    → Recorded user op_id r res a b
unfolding ending_of
ending-committed user op_id op r res a b (ok u) e h =
    let (free, db) = insert_processed-ok (entry_of user op_id r) a b (h u refl) in (cc e, free, db)
ending-committed user op_id op r res a b (err m) e h = cc e

write_entry-committed :
    (user op_id : ℕ) (op : Op) (r res : OpResult) (w w' : World)
    → Returns (write_entry user op_id op r) w (committed res) w'
    → Recorded user op_id r res w.db w'.db
unfolding write_entry
write_entry-committed user op_id op r res w w' h =
    let insertion : Tx (Unit {0}) = statement (insert_processed (entry_of user op_id r)) in
    let (written, v, tried, left) =
      Returns-bind (attempt insertion) (λ x. pure (ending_of op r x)) w (committed res) w' h in
    let (answered, left_at) = Returns-attempt insertion w written v tried in
    let (ending, same) = Returns-pure (ending_of op r written) (committed res) v w' left in
    ending-committed user op_id op r res w.db w'.db written ending λ u e.
      Returns-statement (insert_processed (entry_of user op_id r)) w u w'
        (answered ∙ e, left_at ∙ same)

record_outcome-committed :
    (user op_id : ℕ) (op : Op) (r res : OpResult) (w w' : World)
    → Returns (record_outcome user op_id op r) w (committed res) w'
    → (is_ledgered_status r.status ≡ true) × Recorded user op_id r res w.db w'.db
unfolding record_outcome
record_outcome-committed user op_id op r res w w' h = go (is_ledgered_status r.status) refl h
  where
    go :
        (b : Bool)
        → is_ledgered_status r.status ≡ b
        → Returns
            (if not b then pure (rolled_back r) else write_entry user op_id op r)
            w
            (committed res)
            w'
        → (is_ledgered_status r.status ≡ true) × Recorded user op_id r res w.db w'.db
    go true e h = (e, write_entry-committed user op_id op r res w w' h)
    go false e h =
        let (ending, _) = Returns-pure (rolled_back r) (committed res) w w' h in cc ending

module _ (o : Outside) (user op_id id : ℕ) (op : Op) (res : OpResult) where
  apply_and_record-committed :
      (w w' : World)
      → Returns (apply_and_record o user op_id id op) w (committed res) w'
      → Committed o user op_id id op res w.db w'.db
  unfolding apply_and_record
  apply_and_record-committed w w' h =
      let (r, v, applied, recorded) =
        Returns-bind (apply_op_tx o user op_id id op) (record_outcome user op_id op) w
          (committed res) w' h in
      let (terminal, written) = record_outcome-committed user op_id op r res v w' recorded in
      let (same, free, b) = written in
      let confined : Confined user id w.db v.db =
        rw applied.1 at ((apply_op_tx-Respects o (Confined-Steps user id) op_id op).at w) in
      let evolves : Evolves w.db v.db =
        rw applied.1 at ((apply_op_tx-Respects o (Evolves-Steps user id) op_id op).at w) in
      record {
        before = w;
        after = v;
        started = refl;
        ran = rw same at applied;
        applied = v.db;
        left = refl;
        confined = confined;
        evolves = evolves;
        refused = λ s found foreign.
            rw applied.1 at
              (IsRefusal-same w.db _ (apply_op_tx-IsRefusal o user op_id id op s foreign w found));
        fresh =
            subst (λ l. exists (λ p. p.op_id == op_id) l ≡ false) confined.books.processed_ops free;
        terminal = rw same at terminal;
        recorded =
            b
            ∙ ap (λ (l : List ProcessedOp). record v.db { processed_ops = l })
                (ap₂ (λ (x : OpResult) (l : List ProcessedOp). insert (entry_of user op_id x) l)
                  same confined.books.processed_ops);
      }

  first_delivery-committed :
      (w w' : World)
      → Returns (first_delivery o user op_id id op) w (committed res) w'
      → Committed o user op_id id op res w.db w'.db
  unfolding first_delivery
  first_delivery-committed w w' h =
      let (others, v, counted, rest) =
        Returns-bind (query (used_by_others op_id user)) _ w (committed res) w' h in
      let (_, same) = Returns-query (used_by_others op_id user) w others v counted in
      go (ltb 0 others) v (sym same) rest
    where
      go :
          (b : Bool) (v : World)
          → v.db ≡ w.db
          → Returns
              (if b
                then pure
                    (rolled_back (answer op OpStatus.invalid op_id_collision id_of_other_user))
                else apply_and_record o user op_id id op)
              v
              (committed res)
              w'
          → Committed o user op_id id op res w.db w'.db
      go true v same h = let (ending, _) = Returns-pure _ (committed res) v w' h in cc ending
      go false v same h =
          subst (λ a. Committed o user op_id id op res a w'.db) same
            (apply_and_record-committed v w' h)

  -- A transaction that commits has applied the operation once and entered its result.
  pub deliver-committed :
      (w w' : World)
      → Returns (deliver o user op_id id op) w (committed res) w'
      → Committed o user op_id id op res w.db w'.db
  unfolding deliver replay_or
  deliver-committed w w' h =
      let (_, v, locked, rest) = Returns-bind (query (λ db. tt)) _ w (committed res) w' h in
      let (_, same) = Returns-query (λ db. tt {0}) w tt v locked in
      let (stored, u, found, last) =
        Returns-bind (query (stored_result op_id user)) _ v (committed res) w' rest in
      let (_, still) = Returns-query (stored_result op_id user) v stored u found in
      go (reread_entry o stored) u (sym (same ∙ still)) last
    where
      go :
          (r : Option OpResult) (u : World)
          → u.db ≡ w.db
          → Returns (replay_or r (first_delivery o user op_id id op)) u (committed res) w'
          → Committed o user op_id id op res w.db w'.db
      go none u same h =
          subst (λ a. Committed o user op_id id op res a w'.db) same
            (first_delivery-committed u w' h)
      go (some prev) u same h = let (ending, _) = Returns-pure _ (committed res) u w' h in cc ending
