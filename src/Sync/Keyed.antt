-- ===== src/Sync/Keyed.antt =====
-- The unique keys and indexes of backend/internal/db/migrations/0001_init.sql that the sync engine
-- relies on.
use mathlib.Core.Path.{subst}
use cc_005_offline_inspectio.Base.{
  ℕ, String, Bool, true, false, ◌≡◌, refl, sym, ◌∙◌, inl, inr, ◌==◌, ==_iff, both_true, ◌&&◌, arith,
}
use cc_005_offline_inspectio.Base.Rows.{exists, update, insert}
use cc_005_offline_inspectio.Base.Rows.Unique.{IsUnique, insert-IsUnique, update-IsUnique}
use cc_005_offline_inspectio.Json.{Json}
use cc_005_offline_inspectio.Models.{Field, title, field_eq, field_eq_iff, Op, OpResult}
use cc_005_offline_inspectio.Models.Outside.{Outside}
use cc_005_offline_inspectio.Db.{
  Db, Inspection, Conflict, ProcessedOp, has_id, of_field, open_on, is_open,
}
use cc_005_offline_inspectio.Tx.{World}
use cc_005_offline_inspectio.Tx.Respects.{IsPreorder}
use cc_005_offline_inspectio.Sync.Statements.{tombstone, next_rev}
use cc_005_offline_inspectio.Sync.Fields.{set_column, set_items, new_inspection, rev_row, rewritten}
use cc_005_offline_inspectio.Sync.Conflicts.{conflict_row, chosen}
use cc_005_offline_inspectio.Sync.Resolve.{settled}
use cc_005_offline_inspectio.Sync.Ledger.{apply_op}
use cc_005_offline_inspectio.Sync.Steps.{Steps}
use cc_005_offline_inspectio.Sync.Steps.Operation.{apply_op_tx-Respects}
use cc_005_offline_inspectio.Sync.Delivery.{Committed, entry_of}
use cc_005_offline_inspectio.Sync.Effect.{apply_op-Effect}
use cc_005_offline_inspectio.Sync.History.{Later, here, delivered}

-- every key has at most one row, and every field at most one open conflict
pub record IsKeyed (db : Db) : Type 0 where
  pub inspections : (id : ℕ) → IsUnique (has_id id) db.inspections
  pub field_revs : (id : ℕ) (f : Field) → IsUnique (of_field id f) db.field_revs
  pub conflicts : (id : ℕ) → IsUnique (λ (c : Conflict). c.id == id) db.conflicts
  pub open_conflicts : (id : ℕ) (f : Field) → IsUnique (open_on id f) db.conflicts
  pub processed_ops : (id : ℕ) → IsUnique (λ (p : ProcessedOp). p.op_id == id) db.processed_ops

abbrev pub KeepsKeys : Db → Db → Type 0
KeepsKeys a b = IsKeyed a → IsKeyed b

KeepsKeys-IsPreorder : IsPreorder KeepsKeys
KeepsKeys-IsPreorder = record { self = λ a h. h; through = λ a b c f g h. g (f h) }

set_column-id : (f : Field) (s : String) (r : Inspection) → (set_column f s r).id ≡ r.id
unfolding set_column
set_column-id title s r = refl
set_column-id _ s r = refl

same_key : (b c : Bool) → b ≡ c → b ≡ true → c ≡ true
same_key b c e h = cc

module _ (user id : ℕ) where
  update-KeepsKeys :
      (g : Inspection → Inspection) (db : Db)
      → ((r : Inspection) → (g r).id ≡ r.id)
      → KeepsKeys db (record db { inspections = update (has_id id) g db.inspections })
  update-KeepsKeys g db same k = record {
    inspections = λ j.
        update-IsUnique (has_id j) (has_id id) g db.inspections (λ r h. rw (same r) at h)
          (k.inspections j);
    field_revs = k.field_revs;
    conflicts = k.conflicts;
    open_conflicts = k.open_conflicts;
    processed_ops = k.processed_ops;
  }

  insert-KeepsKeys :
      (at : ℕ) (r : Inspection) (db : Db)
      → r.id ≡ id
      → exists (has_id id) db.inspections ≡ false
      → KeepsKeys db (record db { inspections = insert r db.inspections })
  insert-KeepsKeys at r db at_id new k = record {
    inspections = λ j.
        insert-IsUnique (has_id j) r db.inspections
          (λ h. let same : id ≡ j = (==_iff id j).0 (rw at_id at h) in rw (← same) new)
          (k.inspections j);
    field_revs = k.field_revs;
    conflicts = k.conflicts;
    open_conflicts = k.open_conflicts;
    processed_ops = k.processed_ops;
  }

  add_rev-KeepsKeys :
      (at : ℕ) (f : Field) (j : Json) (op_id : ℕ) (db : Db)
      → exists (of_field id f) db.field_revs ≡ false
      → KeepsKeys db (record db { field_revs = insert (rev_row at id f j op_id) db.field_revs })
  add_rev-KeepsKeys at f j op_id db new k = record {
    inspections = k.inspections;
    field_revs = λ i g.
        insert-IsUnique (of_field i g) (rev_row at id f j op_id) db.field_revs
          (λ h.
            let (ids, fields) = both_true (id == i) (field_eq f g) h in
            let same_id : id ≡ i = (==_iff id i).0 ids in
            let same_field : f ≡ g = (field_eq_iff f g).0 fields in
            rw (← same_id, ← same_field) new)
          (k.field_revs i g);
    conflicts = k.conflicts;
    open_conflicts = k.open_conflicts;
    processed_ops = k.processed_ops;
  }

  rewrite-KeepsKeys :
      (at : ℕ) (f : Field) (j : Json) (op_id : ℕ) (db : Db)
      → KeepsKeys db
          (record db { field_revs = update (of_field id f) (rewritten at j op_id) db.field_revs })
  rewrite-KeepsKeys at f j op_id db k = record {
    inspections = k.inspections;
    field_revs = λ i g.
        update-IsUnique (of_field i g) (of_field id f) (rewritten at j op_id) db.field_revs
          (λ r h. h) (k.field_revs i g);
    conflicts = k.conflicts;
    open_conflicts = k.open_conflicts;
    processed_ops = k.processed_ops;
  }

  add_conflict-KeepsKeys :
      (f : Field) (c : Conflict) (db : Db)
      → c.inspection_id ≡ id
      → c.field ≡ f
      → exists (λ (d : Conflict). d.id == c.id) db.conflicts ≡ false
      → exists (open_on id f) db.conflicts ≡ false
      → KeepsKeys db (record db { conflicts = insert c db.conflicts })
  add_conflict-KeepsKeys f c db at_id on new free k = record {
    inspections = k.inspections;
    field_revs = k.field_revs;
    conflicts = λ i.
        insert-IsUnique (λ d. d.id == i) c db.conflicts
          (λ h. let same : c.id ≡ i = (==_iff c.id i).0 h in rw (← same) new) (k.conflicts i);
    open_conflicts = λ i g.
        insert-IsUnique (open_on i g) c db.conflicts
          (λ h.
            let (ids, rest) =
              both_true (c.inspection_id == i) (field_eq c.field g && is_open c.status) h in
            let (fields, _) = both_true (field_eq c.field g) (is_open c.status) rest in
            let same_id : id ≡ i = sym at_id ∙ (==_iff c.inspection_id i).0 ids in
            let same_field : f ≡ g = sym on ∙ (field_eq_iff c.field g).0 fields in
            rw (← same_id, ← same_field) free)
          (k.open_conflicts i g);
    processed_ops = k.processed_ops;
  }

  change-KeepsKeys :
      (c : ℕ) (g : Conflict → Conflict) (db : Db)
      → ((d : Conflict) → (g d).id ≡ d.id)
      → ((i : ℕ) (f : Field) (d : Conflict) → open_on i f (g d) ≡ true → open_on i f d ≡ true)
      → KeepsKeys db (record db { conflicts = update (λ d. d.id == c) g db.conflicts })
  change-KeepsKeys c g db same shut k = record {
    inspections = k.inspections;
    field_revs = k.field_revs;
    conflicts = λ i.
        update-IsUnique (λ d. d.id == i) (λ d. d.id == c) g db.conflicts (λ d h. rw (same d) at h)
          (k.conflicts i);
    open_conflicts = λ i f.
        update-IsUnique (open_on i f) (λ d. d.id == c) g db.conflicts (shut i f)
          (k.open_conflicts i f);
    processed_ops = k.processed_ops;
  }

  pub KeepsKeys-Steps : Steps KeepsKeys user id
  KeepsKeys-Steps = record {
    preorder = KeepsKeys-IsPreorder;
    column = λ f s db. update-KeepsKeys (set_column f s) db (set_column-id f s);
    items = λ j db. update-KeepsKeys (set_items j) db (λ r. refl);
    delete = λ at db. update-KeepsKeys (tombstone at) db (λ r. refl);
    bump = λ at db. update-KeepsKeys (next_rev at) db (λ r. refl);
    create = λ at j d db new. insert-KeepsKeys at (new_inspection at user id j d) db refl new;
    add_rev = λ at f j op_id db new. add_rev-KeepsKeys at f j op_id db new;
    rewrite = λ at f j op_id db. rewrite-KeepsKeys at f j op_id db;
    add_conflict = λ at new_id f cur op_id j k db new free.
        add_conflict-KeepsKeys f (conflict_row at new_id id f cur op_id j k) db refl refl new free;
    choose = λ c j op_id db. change-KeepsKeys c (chosen j op_id) db (λ d. refl) (λ i f d h. h);
    settle =
        λ c at j db. change-KeepsKeys c (settled at j) db (λ d. refl) (λ i f d h. ground arith);
  }

Committed-KeepsKeys :
    {o : Outside} {user op_id id : ℕ} {op : Op} {res : OpResult} (a b : Db)
    → Committed o user op_id id op res a b
    → KeepsKeys a b
Committed-KeepsKeys {o} {user} {op_id} {id} {op} {res} a b c k =
    let step : KeepsKeys a c.applied =
      rw (c.ran.1, c.left, c.started) at
        ((apply_op_tx-Respects o (KeepsKeys-Steps user id) op_id op).at c.before) in
    let h = step k in
    rw c.recorded (record {
      inspections = h.inspections;
      field_revs = h.field_revs;
      conflicts = h.conflicts;
      open_conflicts = h.open_conflicts;
      processed_ops = λ i.
          insert-IsUnique (λ p. p.op_id == i) (entry_of user op_id res) a.processed_ops
            (λ e. let same : op_id ≡ i = (==_iff op_id i).0 e in rw (← same) c.fresh)
            (k.processed_ops i);
    })

apply_op-KeepsKeys :
    (o : Outside) (user : ℕ) (op : Op) (w : World) → KeepsKeys w.db (apply_op o user op w).1.db
apply_op-KeepsKeys o user op w = elim (apply_op-Effect o user op w) [
  | inl same ↦ λ k. rw same k
  | inr c ↦ Committed-KeepsKeys _ _ c.did
]

-- The keys stay unique over any deliveries: each inspection, field of an inspection, conflict and
-- operation of the ledger has at most one row, and each field at most one open conflict.
pub Later-IsKeyed : (o : Outside) (a : Db) {b : Db} → IsKeyed a → Later o a b → IsKeyed b
Later-IsKeyed o a k here = k
Later-IsKeyed o a k (delivered {b} {c} l user op w e f) =
    subst IsKeyed f (apply_op-KeepsKeys o user op w (subst IsKeyed (sym e) (Later-IsKeyed o a k l)))
