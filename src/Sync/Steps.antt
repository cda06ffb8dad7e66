-- ===== src/Sync/Steps.antt =====
-- A relation on the tables that every write of the sync engine respects is respected by the whole
-- operation. `Steps` lists the writes; the walk through the code is done here, once.
pub mod Parts
pub mod Walk
pub mod Operation
use cc_005_offline_inspectio.Base.{
  ℕ, String, Bool, true, false, Option, none, some, [], ◌∷◌, ◌≡◌, refl, if◌then◌else◌, inl, inr,
  Bool-cases, ◌==◌,
}
use cc_005_offline_inspectio.Base.Rows.{exists, update, insert}
use cc_005_offline_inspectio.Json.{Json}
use cc_005_offline_inspectio.Json.Equality.{RawMessage}
use cc_005_offline_inspectio.Models.{
  Field, title, status, findings, notes, checked_items, photo_caption, other, FieldChange, Changes,
  Op, OpType, ConflictDto, Message, OpResult,
}
use cc_005_offline_inspectio.Models.Outside.{Outside}
use cc_005_offline_inspectio.Merge.{FieldVerdict, noop, apply, conflict, decode_str}
use cc_005_offline_inspectio.Db.{Db, Inspection, FieldRev, Conflict, has_id, of_field, open_on}
use cc_005_offline_inspectio.Tx.{Tx, statement, ◌>>=◌, Result, ok, err}
use cc_005_offline_inspectio.Tx.Respects
use cc_005_offline_inspectio.Tx.Respects.{IsPreorder, Respects, respects_rules}
use cc_005_offline_inspectio.Sync.Statements
use cc_005_offline_inspectio.Sync.Statements.{to_jsonb, tombstone, next_rev}
use cc_005_offline_inspectio.Sync.Fields.{
  Defaults, insert_field, insert_fields, create_inspection, set_column, set_items, write_column,
  rewritten, write_field, new_inspection, rev_row,
}
use cc_005_offline_inspectio.Sync.Conflicts.{conflict_row, chosen}
use cc_005_offline_inspectio.Sync.Resolve.{settled}

-- the writes of `writeField` to the columns of the inspection `id`
pub record ColumnSteps (R : Db → Db → Type 0) (id : ℕ) : Type 0 where
  pub preorder : IsPreorder R
  pub column :
      (f : Field) (s : String) (db : Db)
      → R db (record db { inspections = update (has_id id) (set_column f s) db.inspections })
  pub items :
      (j : Json) (db : Db)
      → R db (record db { inspections = update (has_id id) (set_items j) db.inspections })

-- the writes of `writeField` to the inspection `id` and the lineage of its fields
pub record WriteSteps (R : Db → Db → Type 0) (id : ℕ) : Type 0 where
  pub columns : ColumnSteps R id
  pub add_rev :
      (at : ℕ) (f : Field) (j : Json) (op_id : ℕ) (db : Db)
      → exists (of_field id f) db.field_revs ≡ false
      → R db (record db { field_revs = insert (rev_row at id f j op_id) db.field_revs })
  pub rewrite :
      (at : ℕ) (f : Field) (j : Json) (op_id : ℕ) (db : Db)
      → R db
          (record db { field_revs = update (of_field id f) (rewritten at j op_id) db.field_revs })

-- the writes of `recordConflict`
pub record ConflictSteps (R : Db → Db → Type 0) (id : ℕ) : Type 0 where
  pub preorder : IsPreorder R
  pub add_conflict :
      (at new_id : ℕ) (f : Field) (cur : FieldRev) (op_id : ℕ) (j k : Json) (db : Db)
      → exists (λ d. d.id == new_id) db.conflicts ≡ false
      → exists (open_on id f) db.conflicts ≡ false
      → R db (record db {
        conflicts = insert (conflict_row at new_id id f cur op_id j k) db.conflicts;
      })
  pub choose :
      (c : ℕ) (j : Json) (op_id : ℕ) (db : Db)
      → R db (record db { conflicts = update (λ d. d.id == c) (chosen j op_id) db.conflicts })

-- the writes of an operation of `user` on the inspection `id`
pub record Steps (R : Db → Db → Type 0) (user id : ℕ) : Type 0 where
  pub preorder : IsPreorder R
  pub column :
      (f : Field) (s : String) (db : Db)
      → R db (record db { inspections = update (has_id id) (set_column f s) db.inspections })
  pub items :
      (j : Json) (db : Db)
      → R db (record db { inspections = update (has_id id) (set_items j) db.inspections })
  pub delete :
      (at : ℕ) (db : Db)
      → R db (record db { inspections = update (has_id id) (tombstone at) db.inspections })
  pub bump :
      (at : ℕ) (db : Db)
      → R db (record db { inspections = update (has_id id) (next_rev at) db.inspections })
  pub create :
      (at : ℕ) (j : Json) (d : Defaults) (db : Db)
      → exists (has_id id) db.inspections ≡ false
      → R db (record db { inspections = insert (new_inspection at user id j d) db.inspections })
  pub add_rev :
      (at : ℕ) (f : Field) (j : Json) (op_id : ℕ) (db : Db)
      → exists (of_field id f) db.field_revs ≡ false
      → R db (record db { field_revs = insert (rev_row at id f j op_id) db.field_revs })
  pub rewrite :
      (at : ℕ) (f : Field) (j : Json) (op_id : ℕ) (db : Db)
      → R db
          (record db { field_revs = update (of_field id f) (rewritten at j op_id) db.field_revs })
  pub add_conflict :
      (at new_id : ℕ) (f : Field) (cur : FieldRev) (op_id : ℕ) (j k : Json) (db : Db)
      → exists (λ d. d.id == new_id) db.conflicts ≡ false
      → exists (open_on id f) db.conflicts ≡ false
      → R db (record db {
        conflicts = insert (conflict_row at new_id id f cur op_id j k) db.conflicts;
      })
  pub choose :
      (c : ℕ) (j : Json) (op_id : ℕ) (db : Db)
      → R db (record db { conflicts = update (λ d. d.id == c) (chosen j op_id) db.conflicts })
  pub settle :
      (c at : ℕ) (j : Json) (db : Db)
      → R db (record db { conflicts = update (λ d. d.id == c) (settled at j) db.conflicts })

module _ {R : Db → Db → Type 0} {user id : ℕ} (k : Steps R user id) where
  pub column_steps : ColumnSteps R id
  column_steps = record { preorder = k.preorder; column = k.column; items = k.items }

  pub write_steps : WriteSteps R id
  write_steps = record { columns = column_steps; add_rev = k.add_rev; rewrite = k.rewrite }

  pub conflict_steps : ConflictSteps R id
  conflict_steps = record {
    preorder = k.preorder;
    add_conflict = k.add_conflict;
    choose = k.choose;
  }
