-- ===== src/Sync/Steps/Walk.antt =====
-- The walk: each function of the sync engine respects what its writes respect.
use cc_005_offline_inspectio.Base.{ℕ, Bool, true, false, Option, none, some, List, [], ◌∷◌}
use cc_005_offline_inspectio.Json.{Json}
use cc_005_offline_inspectio.Json.Equality.{RawMessage}
use cc_005_offline_inspectio.Models.{Field, checked_items, FieldChange, Changes}
use cc_005_offline_inspectio.Models.Outside.{Outside}
use cc_005_offline_inspectio.Merge.{FieldVerdict, noop, apply, conflict}
use cc_005_offline_inspectio.Db.{Db, FieldRev}
use cc_005_offline_inspectio.Tx.{statement}
use cc_005_offline_inspectio.Tx.Respects.{
  Respects, Respects-run, Respects-guarded, Respects-guarded_twice, Respects-with_json,
  Respects-bind, Respects-pure, Respects-now, Respects-if,
}
use cc_005_offline_inspectio.Sync.Statements.{insert_inspection, to_jsonb}
use cc_005_offline_inspectio.Sync.Fields.{
  new_inspection, default_of, defaults_of, Defaults, insert_field, insert_fields, create_inspection,
  write_field,
}
use cc_005_offline_inspectio.Sync.Upsert.{
  Tally, tally, rev_of, merge_verdict, merge_field, merge_fields,
}
use cc_005_offline_inspectio.Sync.Steps.{Steps, WriteSteps, write_steps, conflict_steps}
use cc_005_offline_inspectio.Sync.Steps.Parts.{write_column-Respects, record_conflict-Respects}

module _ {R : Db → Db → Type 0} {id : ℕ} (o : Outside) (k : WriteSteps R id) where
  insert_field-Respects :
      (at : ℕ) (f : Field) (v : RawMessage) (op_id : ℕ)
      → Respects R (insert_field o at id f v op_id)
  unfolding insert_field
  insert_field-Respects at f v op_id = Respects-with_json k.columns.preorder (to_jsonb o v) _ (λ j.
      Respects-guarded k.columns.preorder _ _ tt _ (λ db kept. k.add_rev at f j op_id db kept))

  insert_fields-Respects :
      (at : ℕ) (d : Defaults) (op_id : ℕ) → Respects R (insert_fields o at id d op_id)
  unfolding insert_fields
  insert_fields-Respects at [] op_id = Respects-pure k.columns.preorder tt
  insert_fields-Respects at ((f, v) ∷ d) op_id =
      Respects-bind k.columns.preorder _ _ (insert_field-Respects at f v op_id)
        (λ _. insert_fields-Respects at d op_id)

  pub write_field-Respects :
      (f : Field) (v : RawMessage) (op_id : ℕ) (b : Bool)
      → Respects R (write_field o id f v op_id b)
  unfolding write_field
  write_field-Respects f v op_id b =
      Respects-bind k.columns.preorder _ _ (write_column-Respects o k.columns f v) λ _.
        Respects-bind k.columns.preorder _ _ (Respects-now k.columns.preorder) λ at.
          Respects-if k.columns.preorder b _ _ (insert_field-Respects at f v op_id) (
            Respects-with_json k.columns.preorder (to_jsonb o v) _
              (λ j. Respects-run k.columns.preorder tt _ (λ db. k.rewrite at f j op_id db)))

module _ {R : Db → Db → Type 0} {user id : ℕ} (o : Outside) (k : Steps R user id) where
  create_row-Respects :
      (at : ℕ) (j : Json) (d : Defaults)
      → Respects R (statement (insert_inspection (new_inspection at user id j d)))
  create_row-Respects at j d =
      Respects-guarded_twice k.preorder _ _ _ _ tt _ (λ db kept held. k.create at j d db kept)

  pub create_inspection-Respects :
      (op_id : ℕ) (changes : Changes) → Respects R (create_inspection o user op_id id changes)
  unfolding create_inspection
  create_inspection-Respects op_id changes =
      Respects-bind k.preorder _ _ (Respects-now k.preorder) λ at.
        Respects-bind k.preorder _ _
          (Respects-with_json k.preorder
            (to_jsonb o (default_of checked_items (defaults_of changes)))
            (λ j. insert_inspection (new_inspection at user id j (defaults_of changes)))
            (λ j. create_row-Respects at j (defaults_of changes)))
          (λ _. insert_fields-Respects o (write_steps k) at (defaults_of changes) op_id)

  merge_verdict-Respects :
      (op_id : ℕ) (f : Field) (cur : FieldRev) (ch : FieldChange) (verdict : FieldVerdict)
      → Respects R (merge_verdict o op_id id f cur ch verdict)
  unfolding merge_verdict
  merge_verdict-Respects op_id f cur ch apply =
      Respects-bind k.preorder _ _ (write_field-Respects o (write_steps k) f ch.v op_id false)
        (λ _. Respects-pure k.preorder _)
  merge_verdict-Respects op_id f cur ch conflict =
      Respects-bind k.preorder _ _ (record_conflict-Respects o (conflict_steps k) op_id f cur ch)
        (λ c. Respects-pure k.preorder _)
  merge_verdict-Respects op_id f cur ch noop = Respects-pure k.preorder _

  pub merge_field-Respects :
      (op_id : ℕ) (f : Field) (ch : FieldChange) (cur : Option FieldRev)
      → Respects R (merge_field o op_id id f ch cur)
  unfolding merge_field
  merge_field-Respects op_id f ch none =
      Respects-bind k.preorder _ _ (write_field-Respects o (write_steps k) f ch.v op_id true)
        (λ _. Respects-pure k.preorder _)
  merge_field-Respects op_id f ch (some cur) = merge_verdict-Respects op_id f cur ch _

  pub merge_fields-Respects :
      (op_id : ℕ) (revs : List FieldRev) (changes : Changes) (t : Tally)
      → Respects R (merge_fields o op_id id revs changes t)
  unfolding merge_fields
  merge_fields-Respects op_id revs [] t = Respects-pure k.preorder t
  merge_fields-Respects op_id revs ((f, ch) ∷ rest) t =
      Respects-bind k.preorder _ _ (merge_field-Respects op_id f ch (rev_of f revs))
        (λ m. merge_fields-Respects op_id revs rest (tally t m))
