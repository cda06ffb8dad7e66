-- ===== src/Sync/Lineage.antt =====
-- The lineage of a field, its stored value and the operation that wrote it, under `writeField` and
-- `recordConflict`.
use cc_005_offline_inspectio.Base.{
  ℕ, Bool, true, false, Option, none, some, ◌≡◌, refl, ap, ◌∙◌, sym, inl, inr, Bool-cases,
  if◌then◌else◌, arith,
}
use mathlib.Core.Option
use cc_005_offline_inspectio.Base.Rows.{first, update, insert, exists}
use cc_005_offline_inspectio.Base.Rows.Laws.{first-insert, or_new-false, first_of_exists}
use cc_005_offline_inspectio.Json.{Json}
use cc_005_offline_inspectio.Json.Equality.{RawMessage}
use cc_005_offline_inspectio.Models.{Field, field_eq, field_eq_iff, FieldChange}
use cc_005_offline_inspectio.Models.Outside.{Outside}
use cc_005_offline_inspectio.Db.{Db, FieldRev, of_field, field_rev}
use cc_005_offline_inspectio.Db.Laws.{field_rev-update}
use cc_005_offline_inspectio.Tx.{World, Result, ok, err, Statement, with_json, statement, now}
use cc_005_offline_inspectio.Tx.Respects.{IsPreorder, Respects}
use cc_005_offline_inspectio.Tx.Inversion.{Returns, Returns-bind, Returns-statement, table_or}
use cc_005_offline_inspectio.Sync.Statements.{to_jsonb, set_rev, insert_rev}
use cc_005_offline_inspectio.Sync.Fields.{
  write_column, write_field, insert_field, rewritten, rev_row,
}
use cc_005_offline_inspectio.Sync.Conflicts.{record_conflict}
use cc_005_offline_inspectio.Sync.Steps.Parts.{write_column-Respects, record_conflict-Respects}

-- a field's stored value, and the operation that wrote it
abbrev pub Lineage : Type 0
Lineage = Json × ℕ

abbrev pub lineage_of : FieldRev → Lineage
lineage_of r = (r.value, r.op_id)

abbrev pub lineage : Db → ℕ → Field → Option Lineage
lineage db id f = Option.map lineage_of (field_rev db id f)

-- the lineage that a write of `v` by `op_id` leaves
abbrev written_of : ℕ → Result Json → Option Lineage
written_of op_id (ok j) = some (j, op_id)
written_of op_id (err e) = none

pub written_lineage : Outside → ℕ → RawMessage → Option Lineage
written_lineage o op_id v = written_of op_id (to_jsonb o v)

abbrev pub SameRevs : Db → Db → Type 0
SameRevs a b = b.field_revs ≡ a.field_revs

pub SameRevs-IsPreorder : IsPreorder SameRevs
SameRevs-IsPreorder = record { self = λ a. refl; through = λ a b c f g. g ∙ f }

module _ (o : Outside) (id : ℕ) where
  write_column-SameRevs : (f : Field) (v : RawMessage) → Respects SameRevs (write_column o id f v)
  write_column-SameRevs =
      write_column-Respects o
        (record { preorder = SameRevs-IsPreorder; column = λ f s db. refl; items = λ j db. refl })

  -- The recording of a conflict leaves every field's lineage alone.
  pub record_conflict-SameRevs :
      (op_id : ℕ) (f : Field) (cur : FieldRev) (ch : FieldChange) (w : World)
      → (record_conflict o op_id id f cur ch w).1.db.field_revs ≡ w.db.field_revs
  record_conflict-SameRevs op_id f cur ch w =
      (record_conflict-Respects o
          (record {
            preorder = SameRevs-IsPreorder;
            add_conflict = λ at new_id g c op j k db _ _. refl;
            choose = λ c j op db. refl;
          })
          op_id f cur ch).at
        w

  -- an insertion or an update of the lineage of `f`
  abbrev rev_statement : ℕ → Field → RawMessage → ℕ → Bool → Statement (Unit {0})
  rev_statement at f v op_id true =
      with_json (to_jsonb o v) (λ j. insert_rev (rev_row at id f j op_id))
  rev_statement at f v op_id false =
      with_json (to_jsonb o v) (λ j. set_rev id f (rewritten at j op_id))

  rev_action :
      (at : ℕ) (f : Field) (v : RawMessage) (op_id : ℕ) (b : Bool) (w w' : World)
      → Returns
          (if b
            then insert_field o at id f v op_id
            else statement (rev_statement at f v op_id false))
          w
          tt
          w'
      → rev_statement at f v op_id b w.db ≡ ok (tt, w'.db)
  unfolding insert_field
  rev_action at f v op_id true w w' h = Returns-statement _ w tt w' h
  rev_action at f v op_id false w w' h = Returns-statement _ w tt w' h

  -- what a successful write has found and left
  write_field-revs :
      (f : Field) (v : RawMessage) (op_id : ℕ) (b : Bool) (w w' : World)
      → Returns (write_field o id f v op_id b) w tt w'
      → (at : ℕ) × (m : Db) × (m.field_revs ≡ w.db.field_revs)
        × (rev_statement at f v op_id b m ≡ ok (tt, w'.db))
  unfolding write_field now
  write_field-revs f v op_id b w w' h =
      let (_, u, column, rest) = Returns-bind (write_column o id f v) _ w tt w' h in
      let (at, x, clock, last) = Returns-bind now _ u tt w' rest in
      (
        at,
        x.db,
        ap (λ (y : World). y.db.field_revs) (sym clock.1)
            ∙ rw column.1 at ((write_column-SameRevs f v).at w),
        rev_action at f v op_id b x w' last,
      )

  -- an update of the one row of a field, and the insertion of it
  update-lineage :
      (at : ℕ) (f g : Field) (j : Json) (op_id : ℕ) (m : Db) (r : FieldRev)
      → field_rev m id f ≡ some r
      → Option.map lineage_of
          (first (of_field id g) (update (of_field id f) (rewritten at j op_id) m.field_revs))
        ≡ (if field_eq f g then some (j, op_id) else lineage m id g)
  update-lineage at f g j op_id m r found =
      rw (field_rev-update id id f g (rewritten at j op_id) m.field_revs (λ x. refl) (λ x. refl))
        (elim (Bool-cases (field_eq f g)) [
          | inl e ↦ rw (e, ← (field_eq_iff f g).0 e, found) (ground arith)
          | inr e ↦ rw e (ground arith)
        ])

  insert-lineage :
      (at : ℕ) (f g : Field) (j : Json) (op_id : ℕ) (m : Db)
      → exists (of_field id f) m.field_revs ≡ false
      → Option.map lineage_of
          (first (of_field id g) (insert (rev_row at id f j op_id) m.field_revs))
        ≡ (if field_eq f g then some (j, op_id) else lineage m id g)
  insert-lineage at f g j op_id m free =
      rw (first-insert (of_field id g) (rev_row at id f j op_id) m.field_revs)
        (elim (Bool-cases (field_eq f g)) [
          | inl e ↦
              rw (e, ← (field_eq_iff f g).0 e, first_of_exists (of_field id f) m.field_revs free)
                (ground (arith, (field_eq_iff f f).1 refl))
          | inr e ↦
              rw e
                (ap (Option.map lineage_of) (or_new-false (of_field id g) _ _ (ground (arith, e))))
        ])

  statement-lineage :
      (at : ℕ) (f g : Field) (x : Result Json) (op_id : ℕ) (b : Bool) (m d : Db)
      → (b ≡ false → (r : FieldRev) × (field_rev m id f ≡ some r))
      → with_json x
          (λ j.
            if b then insert_rev (rev_row at id f j op_id) else set_rev id f (rewritten at j op_id))
          m
        ≡ ok (tt, d)
      → lineage d id g ≡ (if field_eq f g then written_of op_id x else lineage m id g)
  statement-lineage at f g (err e) op_id b m d known h = cc h
  statement-lineage at f g (ok j) op_id true m d known h =
      elim (Bool-cases (exists (of_field id f) m.field_revs)) [
        | inl used ↦ cc (rw used at h)
        | inr free ↦ rw (← ap (table_or m) (rw free at h)) (insert-lineage at f g j op_id m free)
      ]
  statement-lineage at f g (ok j) op_id false m d known h =
      let (r, found) = known refl in
      rw (← ap (table_or m) h) (update-lineage at f g j op_id m r found)

  rev_statement-lineage :
      (at : ℕ) (f g : Field) (v : RawMessage) (op_id : ℕ) (b : Bool) (m d : Db)
      → (b ≡ false → (r : FieldRev) × (field_rev m id f ≡ some r))
      → rev_statement at f v op_id b m ≡ ok (tt, d)
      → lineage d id g ≡ (if field_eq f g then written_lineage o op_id v else lineage m id g)
  unfolding written_lineage
  rev_statement-lineage at f g v op_id true m d known h =
      statement-lineage at f g (to_jsonb o v) op_id true m d known h
  rev_statement-lineage at f g v op_id false m d known h =
      statement-lineage at f g (to_jsonb o v) op_id false m d known h

  -- A successful `writeField` gives its field the written value and operation, and leaves the others.
  pub write_field-lineage :
      (f g : Field) (v : RawMessage) (op_id : ℕ) (b : Bool) (w w' : World)
      → (b ≡ false → (r : FieldRev) × (field_rev w.db id f ≡ some r))
      → Returns (write_field o id f v op_id b) w tt w'
      → lineage w'.db id g ≡ (if field_eq f g then written_lineage o op_id v else lineage w.db id g)
  write_field-lineage f g v op_id b w w' known h =
      let (at, m, same, did) = write_field-revs f v op_id b w w' h in
      rw same at (
        rev_statement-lineage at f g v op_id b m w'.db
          (λ e. let (r, found) = known e in (r, rw same found)) did)
