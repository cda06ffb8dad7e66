-- ===== src/Sync/Merging.antt =====
-- The loop of `applyOpTx` over the changes against a merge that looks at each field alone.
use cc_005_offline_inspectio.Base.{
  ℕ, true, false, Option, none, some, List, [], ◌∷◌, ◌≡◌, ◌≢◌, refl, ap, ◌∙◌, sym, inl, inr,
  Bool-cases, Option-cases, if◌then◌else◌, arith,
}
use mathlib.Core.Option
use cc_005_offline_inspectio.Models.{Field, field_eq, field_eq_iff, FieldChange, Changes}
use cc_005_offline_inspectio.Models.Outside.{Outside}
use cc_005_offline_inspectio.Merge.{FieldVerdict, noop, apply, conflict, classify_field}
use cc_005_offline_inspectio.Db.{Db, FieldRev, field_rev}
use cc_005_offline_inspectio.Tx.{World}
use cc_005_offline_inspectio.Tx.Inversion.{Returns, Returns-bind, Returns-pure}
use cc_005_offline_inspectio.Sync.Validate.{change_of}
use cc_005_offline_inspectio.Sync.Fields.{write_field}
use cc_005_offline_inspectio.Sync.Conflicts.{record_conflict}
use cc_005_offline_inspectio.Sync.Upsert.{
  Merged, Tally, tally, rev_of, merge_verdict, merge_field, merge_fields,
}
use cc_005_offline_inspectio.Sync.Lineage.{
  Lineage, lineage_of, lineage, written_lineage, write_field-lineage, record_conflict-SameRevs,
}

abbrev of_verdict : FieldVerdict → Option Lineage → Lineage → Option Lineage
of_verdict apply new old = new
of_verdict conflict new old = some old
of_verdict noop new old = some old

-- What the merge makes of one field: a field that no change names stays, a new one is written, and an
-- existing one is written only if the verdict is to apply.
abbrev pub merged_lineage : Outside → ℕ → Option Lineage → Option FieldChange → Option Lineage
merged_lineage o op_id old none = old
merged_lineage o op_id none (some ch) = written_lineage o op_id ch.v
merged_lineage o op_id (some (x, op)) (some ch) =
    of_verdict (classify_field o (some x) ch.v ch.base) (written_lineage o op_id ch.v) (x, op)

-- a Go map has each key once
abbrev pub UniqueFields : Changes → Type 0
UniqueFields [] = Unit {0}
UniqueFields ((f, _) ∷ rest) = (change_of f rest ≡ none) × UniqueFields rest

row_of_lineage :
    (db : Db) (id : ℕ) (f : Field) {l : Lineage}
    → lineage db id f ≡ some l
    → (r : FieldRev) × (field_rev db id f ≡ some r)
row_of_lineage db id f e = elim (Option-cases (field_rev db id f)) [
  | inl none_there ↦ cc (rw none_there at e)
  | inr found ↦ found
]

module _ (o : Outside) (op_id id : ℕ) where
  kept-lineage :
      (f g : Field) (cur : FieldRev) (a b : Db)
      → lineage a id f ≡ some (lineage_of cur)
      → b.field_revs ≡ a.field_revs
      → lineage b id g ≡ (if field_eq f g then some (lineage_of cur) else lineage a id g)
  kept-lineage f g cur a b found same = elim (Bool-cases (field_eq f g)) [
    | inl e ↦ rw (e, same, ← (field_eq_iff f g).0 e, found)
    | inr e ↦ rw (e, same)
  ]

  merge_verdict-lineage :
      (f g : Field) (cur : FieldRev) (ch : FieldChange) (verdict : FieldVerdict) (m : Merged)
      (w w' : World)
      → lineage w.db id f ≡ some (lineage_of cur)
      → Returns (merge_verdict o op_id id f cur ch verdict) w m w'
      → lineage w'.db id g ≡ (
          if field_eq f g
          then of_verdict verdict (written_lineage o op_id ch.v) (lineage_of cur)
          else lineage w.db id g)
  unfolding merge_verdict
  merge_verdict-lineage f g cur ch apply m w w' found h =
      let (_, v, wrote, rest) = Returns-bind (write_field o id f ch.v op_id false) _ w m w' h in
      let (_, same) = Returns-pure _ m v w' rest in
      rw (← same) (
        write_field-lineage o id f g ch.v op_id false w v (λ _. row_of_lineage w.db id f found)
          wrote)
  merge_verdict-lineage f g cur ch conflict m w w' found h =
      let (c, v, recorded, rest) = Returns-bind (record_conflict o op_id id f cur ch) _ w m w' h in
      let (_, same) = Returns-pure _ m v w' rest in
      kept-lineage f g cur w.db w'.db found (
        ap (λ (y : World). y.db.field_revs) (sym same)
        ∙ rw recorded.1 at (record_conflict-SameRevs o id op_id f cur ch w))
  merge_verdict-lineage f g cur ch noop m w w' found h =
      let (_, same) = Returns-pure _ m w w' h in
      kept-lineage f g cur w.db w'.db found (ap (λ (y : World). y.db.field_revs) (sym same))

  merge_field-lineage :
      (f g : Field) (ch : FieldChange) (cur : Option FieldRev) (m : Merged) (w w' : World)
      → lineage w.db id f ≡ Option.map lineage_of cur
      → Returns (merge_field o op_id id f ch cur) w m w'
      → lineage w'.db id g ≡ (
          if field_eq f g
          then merged_lineage o op_id (lineage w.db id f) (some ch)
          else lineage w.db id g)
  unfolding merge_field
  merge_field-lineage f g ch none m w w' found h =
      let (_, v, wrote, rest) = Returns-bind (write_field o id f ch.v op_id true) _ w m w' h in
      let (_, same) = Returns-pure _ m v w' rest in
      rw (found, ← same) (write_field-lineage o id f g ch.v op_id true w v (λ e. cc e) wrote)
  merge_field-lineage f g ch (some cur) m w w' found h = rw found (
      merge_verdict-lineage f g cur ch (classify_field o (some cur.value) ch.v ch.base) m w w' found
        h)

  -- the lineage that was loaded before the loop is still that of the fields to come
  abbrev IsLoaded : List FieldRev → Changes → Db → Type 0
  IsLoaded revs changes db =
      (f : Field)
      → change_of f changes ≢ none
      → lineage db id f ≡ Option.map lineage_of (rev_of f revs)

  -- one round: what it leaves of `f`, and that the other fields stay
  abbrev IsRound : Field → FieldChange → Db → Db → Type 0
  IsRound f ch a b =
      (k : Field)
      → lineage b id k ≡ (
          if field_eq f k
          then merged_lineage o op_id (lineage a id f) (some ch)
          else lineage a id k)

  IsLoaded-rest :
      (revs : List FieldRev) (f : Field) (ch : FieldChange) (rest : Changes) (a b : Db)
      → change_of f rest ≡ none
      → IsLoaded revs ((f, ch) ∷ rest) a
      → IsRound f ch a b
      → IsLoaded revs rest b
  unfolding change_of
  IsLoaded-rest revs f ch rest a b once loaded step k named = elim (Bool-cases (field_eq f k)) [
    | inl e ↦ absurd (named (rw (← (field_eq_iff f k).0 e) once))
    | inr e ↦ (rw e at (step k)) ∙ loaded k (rw e named)
  ]

  after_round :
      (f : Field) (ch : FieldChange) (rest : Changes) (a b c : Db) (g : Field)
      → change_of f rest ≡ none
      → IsRound f ch a b
      → lineage c id g ≡ merged_lineage o op_id (lineage b id g) (change_of g rest)
      → lineage c id g ≡ merged_lineage o op_id (lineage a id g) (change_of g ((f, ch) ∷ rest))
  unfolding change_of
  after_round f ch rest a b c g once step ih = elim (Bool-cases (field_eq f g)) [
    | inl e ↦
        let same = (field_eq_iff f g).0 e in
        let settled : change_of g rest ≡ none = rw (← same) once in
        let left : lineage b id g ≡ merged_lineage o op_id (lineage a id f) (some ch) =
          rw e at (step g) in
        rw (ih, settled, left, e, same)
    | inr e ↦ rw (ih, step g, e)
  ]

  pub loop-lineage :
      (revs : List FieldRev) (changes : Changes) (t t' : Tally) (w w' : World)
      → UniqueFields changes
      → IsLoaded revs changes w.db
      → Returns (merge_fields o op_id id revs changes t) w t' w'
      → (g : Field)
      → lineage w'.db id g ≡ merged_lineage o op_id (lineage w.db id g) (change_of g changes)
  unfolding merge_fields change_of
  loop-lineage revs [] t t' w w' unique loaded h g =
      let (_, same) = Returns-pure t t' w w' h in rw same
  loop-lineage revs ((f, ch) ∷ rest) t t' w w' (once, unique) loaded h g =
      let (m, v, first_step, others) =
        Returns-bind (merge_field o op_id id f ch (rev_of f revs)) _ w t' w' h in
      let at_f : lineage w.db id f ≡ Option.map lineage_of (rev_of f revs) =
        loaded f (ground (arith, (field_eq_iff f f).1 refl)) in
      let step : IsRound f ch w.db v.db =
        λ k. merge_field-lineage f k ch (rev_of f revs) m w v at_f first_step in
      after_round f ch rest w.db v.db w'.db g once step (
        loop-lineage revs rest (tally t m) t' v w' unique
          (IsLoaded-rest revs f ch rest w.db v.db once loaded step) others g)
