-- ===== src/Sync/Steps/Operation.antt =====
-- The end of the walk: whole operations.
use cc_005_offline_inspectio.Base.{not, ◌==◌, ℕ, Bool, true, false, Option, none, some}
use cc_005_offline_inspectio.Models.{Op, OpType, resolve_conflict, Message}
use cc_005_offline_inspectio.Models.Outside.{Outside}
use cc_005_offline_inspectio.Db.{Db, Inspection, Conflict}
use cc_005_offline_inspectio.Tx.Respects.{
  IsPreorder, Respects, Respects-run, Respects-with_json, Respects-bind, Respects-pure,
  Respects-now, Respects-query, Respects-if, Respects-throw,
}
use cc_005_offline_inspectio.Snapshot.{load_dto, or_no_rows}
use cc_005_offline_inspectio.Sync.Statements.{to_jsonb, set_conflict}
use cc_005_offline_inspectio.Sync.Upsert.{
  is_delete, submit_guard, bump_if, merge_changes, upsert_inspection, created_inspection,
  edited_inspection, delete_inspection, upsert_or_delete,
}
use cc_005_offline_inspectio.Sync.Resolve.{
  settled, settle, settle_found, resolve_on, apply_resolve, apply_kind, apply_op_tx,
}
use cc_005_offline_inspectio.Sync.Steps.{Steps, write_steps}
use cc_005_offline_inspectio.Sync.Steps.Walk.{
  write_field-Respects, merge_fields-Respects, create_inspection-Respects,
}

module _ {R : Db → Db → Type 0} (p : IsPreorder R) where
  or_no_rows-Respects : {A : Type 0} (r : Option A) → Respects R (or_no_rows r)
  or_no_rows-Respects none = Respects-throw p _
  or_no_rows-Respects (some r) = Respects-pure p r

  pub load_dto-Respects : (id user : ℕ) → Respects R (load_dto id user)
  unfolding load_dto
  load_dto-Respects id user = Respects-bind p _ _ (Respects-query p _) λ found.
      Respects-bind p _ _ (or_no_rows-Respects found) λ r.
        Respects-bind p _ _ (Respects-query p _)
          λ as'. Respects-bind p _ _ (Respects-query p _) (λ cs. Respects-pure p _)

  submit_guard-Respects : (id : ℕ) (op : Op) → Respects R (submit_guard id op.changes)
  unfolding submit_guard
  submit_guard-Respects id op = Respects-if p _ _ _ (Respects-query p _) (Respects-pure p 0)

module _ {R : Db → Db → Type 0} {user id : ℕ} (o : Outside) (k : Steps R user id) where
  bump_if-Respects : (b : Bool) → Respects R (bump_if b id)
  unfolding bump_if
  bump_if-Respects true =
      Respects-bind k.preorder _ _ (Respects-now k.preorder)
        (λ at. Respects-run k.preorder tt _ (λ db. k.bump at db))
  bump_if-Respects false = Respects-pure k.preorder tt

  merge_changes-Respects :
      (op_id : ℕ) (op : Op) (created : Bool) → Respects R (merge_changes o user op_id id op created)
  unfolding merge_changes
  merge_changes-Respects op_id op created =
      Respects-bind k.preorder _ _ (Respects-query k.preorder _) λ revs.
        Respects-bind k.preorder _ _ (merge_fields-Respects o k op_id revs op.changes _) λ t.
          Respects-bind k.preorder _ _ (bump_if-Respects _) λ _.
            Respects-bind k.preorder _ _ (load_dto-Respects k.preorder id user)
              (λ snap. Respects-pure k.preorder _)

  upsert_inspection-Respects :
      (op_id : ℕ) (op : Op) (created : Bool)
      → Respects R (upsert_inspection o user op_id id op created)
  unfolding upsert_inspection
  upsert_inspection-Respects op_id op created =
      Respects-bind k.preorder _ _ (submit_guard-Respects k.preorder id op) λ missing.
        Respects-if k.preorder _ _ _ (Respects-pure k.preorder _)
          (merge_changes-Respects op_id op created)

  created_inspection-Respects :
      (op_id : ℕ) (op : Op) (m : Option Message)
      → Respects R (created_inspection o user op_id id op m)
  unfolding created_inspection
  created_inspection-Respects op_id op (some m) = Respects-pure k.preorder _
  created_inspection-Respects op_id op none =
      Respects-bind k.preorder _ _ (create_inspection-Respects o k op_id op.changes)
        (λ _. upsert_inspection-Respects op_id op true)

  edited_inspection-Respects :
      (op_id : ℕ) (op : Op) (m : Option Message)
      → Respects R (edited_inspection o user op_id id op m)
  unfolding edited_inspection
  edited_inspection-Respects op_id op (some m) = Respects-pure k.preorder _
  edited_inspection-Respects op_id op none = upsert_inspection-Respects op_id op false

  delete_inspection-Respects : (op : Op) → Respects R (delete_inspection id op)
  unfolding delete_inspection
  delete_inspection-Respects op = Respects-bind k.preorder _ _ (Respects-now k.preorder) λ at.
      Respects-bind k.preorder _ _ (Respects-run k.preorder tt _ (λ db. k.delete at db))
        (λ _. Respects-pure k.preorder _)

  upsert_or_delete-Respects :
      (op_id : ℕ) (op : Op) (r : Option Inspection)
      → Respects R (upsert_or_delete o user op_id id op r)
  unfolding upsert_or_delete
  upsert_or_delete-Respects op_id op none =
      Respects-if k.preorder _ _ _ (Respects-pure k.preorder _)
        (created_inspection-Respects op_id op _)
  upsert_or_delete-Respects op_id op (some r) =
      Respects-if k.preorder (not (r.owner_id == user)) _ _ (Respects-pure k.preorder _) (
        Respects-if k.preorder r.is_deleted _ _
          (Respects-if k.preorder (is_delete op.kind) _ _ (Respects-pure k.preorder _)
            (Respects-pure k.preorder _))
          (Respects-if k.preorder (is_delete op.kind) _ _ (delete_inspection-Respects op)
            (edited_inspection-Respects op_id op _)))

  settle-Respects : (op_id : ℕ) (op : Op) (c : Conflict) → Respects R (settle o user op_id id op c)
  unfolding settle
  settle-Respects op_id op c =
      Respects-bind k.preorder _ _
        (write_field-Respects o (write_steps k) op.field op.new_value op_id false)
        λ _. Respects-bind k.preorder _ _ (Respects-now k.preorder) λ at.
          Respects-bind k.preorder _ _
            (Respects-with_json k.preorder (to_jsonb o op.new_value)
              (λ j. set_conflict c.id (settled at j))
              (λ j. Respects-run k.preorder tt _ (λ db. k.settle c.id at j db)))
            λ _.
              Respects-bind k.preorder _ _ (Respects-run k.preorder tt _ (λ db. k.bump at db)) λ _.
                Respects-bind k.preorder _ _ (load_dto-Respects k.preorder id user)
                  (λ snap. Respects-pure k.preorder _)

  settle_found-Respects :
      (op_id : ℕ) (op : Op) (c : Option Conflict) → Respects R (settle_found o user op_id id op c)
  unfolding settle_found
  settle_found-Respects op_id op none = Respects-pure k.preorder _
  settle_found-Respects op_id op (some c) = settle-Respects op_id op c

  resolve_on-Respects :
      (op_id : ℕ) (op : Op) (r : Option Inspection) → Respects R (resolve_on o user op_id id op r)
  unfolding resolve_on
  resolve_on-Respects op_id op none = Respects-pure k.preorder _
  resolve_on-Respects op_id op (some r) =
      Respects-if k.preorder _ _ _ (Respects-pure k.preorder _) (
        Respects-bind k.preorder _ _ (Respects-query k.preorder _) (settle_found-Respects op_id op))

  apply_kind-Respects :
      (op_id : ℕ) (op : Op) (kind : OpType) → Respects R (apply_kind o user op_id id op kind)
  unfolding apply_kind apply_resolve
  apply_kind-Respects op_id op resolve_conflict =
      Respects-if k.preorder _ _ _ (Respects-pure k.preorder _)
        (Respects-bind k.preorder _ _ (Respects-query k.preorder _) (resolve_on-Respects op_id op))
  apply_kind-Respects op_id op _ =
      Respects-bind k.preorder _ _ (Respects-query k.preorder _)
        (upsert_or_delete-Respects op_id op)

  -- What every write respects, the application of an operation respects, errors included.
  pub apply_op_tx-Respects : (op_id : ℕ) (op : Op) → Respects R (apply_op_tx o user op_id id op)
  unfolding apply_op_tx
  apply_op_tx-Respects op_id op = apply_kind-Respects op_id op op.kind
