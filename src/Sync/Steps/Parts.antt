-- ===== src/Sync/Steps/Parts.antt =====
-- The start of the walk: the column that `writeField` writes, and `recordConflict`.
use cc_005_offline_inspectio.Base.{ℕ, String, Option, none, some}
use cc_005_offline_inspectio.Json.{Json}
use cc_005_offline_inspectio.Json.Equality.{RawMessage}
use cc_005_offline_inspectio.Models.{
  Field, title, status, findings, notes, checked_items, photo_caption, other, FieldChange,
}
use cc_005_offline_inspectio.Models.Outside.{Outside}
use cc_005_offline_inspectio.Merge.{decode_str}
use cc_005_offline_inspectio.Db.{Db, FieldRev, Conflict}
use cc_005_offline_inspectio.Tx.{statement, Statement}
use cc_005_offline_inspectio.Tx.Respects.{
  Respects, Respects-run, Respects-guarded_twice, Respects-with_json, Respects-bind, Respects-pure,
  Respects-statement, Respects-now, Respects-query, Respects-if, Respects-throw, Respects-new_uuid,
}
use cc_005_offline_inspectio.Sync.Statements.{
  insert_conflict, set_conflict, to_jsonb, skipping_parameter,
}
use cc_005_offline_inspectio.Sync.Fields.{write_column}
use cc_005_offline_inspectio.Sync.Conflicts.{
  conflict_row, chosen, open_new, refresh_open, open_or_refresh, record_conflict,
}
use cc_005_offline_inspectio.Sync.Steps.{ColumnSteps, ConflictSteps}

module _ {R : Db → Db → Type 0} {id : ℕ} (o : Outside) (k : ColumnSteps R id) where
  pub write_column-Respects : (f : Field) (v : RawMessage) → Respects R (write_column o id f v)
  unfolding write_column
  write_column-Respects checked_items v =
      Respects-with_json k.preorder (to_jsonb o v) _
        (λ j. Respects-run k.preorder tt _ (λ db. k.items j db))
  write_column-Respects (other s) v = Respects-throw k.preorder _
  write_column-Respects title v = Respects-run k.preorder tt _ (k.column title (decode_str v))
  write_column-Respects status v = Respects-run k.preorder tt _ (k.column status (decode_str v))
  write_column-Respects findings v = Respects-run k.preorder tt _ (k.column findings (decode_str v))
  write_column-Respects notes v = Respects-run k.preorder tt _ (k.column notes (decode_str v))
  write_column-Respects photo_caption v =
      Respects-run k.preorder tt _ (k.column photo_caption (decode_str v))

module _ {R : Db → Db → Type 0} {id : ℕ} (o : Outside) (k : ConflictSteps R id) where
  insert_conflict-Respects :
      (at new_id : ℕ) (f : Field) (cur : FieldRev) (op_id : ℕ) (j l : Json)
      → Respects R (statement (insert_conflict (conflict_row at new_id id f cur op_id j l)))
  insert_conflict-Respects at new_id f cur op_id j l =
      Respects-guarded_twice k.preorder _ _ _ _ (conflict_row at new_id id f cur op_id j l) _
        (λ db kept held. k.add_conflict at new_id f cur op_id j l db kept held)

  open_new-Respects :
      (op_id : ℕ) (f : Field) (cur : FieldRev) (ch : FieldChange)
      → Respects R (open_new o op_id id f cur ch)
  unfolding open_new
  open_new-Respects op_id f cur ch =
      Respects-bind k.preorder _ _ (Respects-new_uuid k.preorder) λ new_id.
        Respects-bind k.preorder _ _ (Respects-now k.preorder) λ at.
          Respects-bind k.preorder _ _
            (Respects-with_json k.preorder (to_jsonb o (some cur.value)) _ (λ j.
              Respects-with_json k.preorder (to_jsonb o ch.v)
                (λ l. insert_conflict (conflict_row at new_id id f cur op_id j l))
                (λ l. insert_conflict-Respects at new_id f cur op_id j l)))
            (λ c. Respects-pure k.preorder _)

  skipping-Respects :
      (m : Option String) (s : Statement (Unit {0}))
      → Respects R (statement s)
      → Respects R (statement (skipping_parameter m s))
  skipping-Respects none s h = h
  skipping-Respects (some e) s h = Respects-statement k.preorder _ (λ db b db' q. cc q)

  refresh_open-Respects :
      (op_id : ℕ) (f : Field) (ch : FieldChange) (c : Conflict)
      → Respects R (refresh_open o op_id f ch c)
  unfolding refresh_open
  refresh_open-Respects op_id f ch c =
      Respects-if k.preorder _ _ _
        (Respects-bind k.preorder _ _
          (skipping-Respects o.skipped_parameter _ (
            Respects-with_json k.preorder (to_jsonb o ch.v)
              (λ j. set_conflict c.id (chosen j op_id))
              (λ j. Respects-run k.preorder tt _ (λ db. k.choose c.id j op_id db))))
          (λ _. Respects-pure k.preorder _))
        (Respects-pure k.preorder _)

  pub record_conflict-Respects :
      (op_id : ℕ) (f : Field) (cur : FieldRev) (ch : FieldChange)
      → Respects R (record_conflict o op_id id f cur ch)
  unfolding record_conflict open_or_refresh
  record_conflict-Respects op_id f cur ch =
      Respects-bind k.preorder _ _ (Respects-query k.preorder _) (elim [
        | none ↦ open_new-Respects op_id f cur ch
        | some c ↦ refresh_open-Respects op_id f ch c
      ])
