-- ===== src/Sync/Unlost.antt =====
-- The conflicting edits of an upsert, after its whole loop.
use cc_005_offline_inspectio.Base.{
  ℕ, Bool, true, false, not, Option, none, some, List, [], ◌∷◌, ◌≡◌, refl, ap, ◌∙◌, sym, inl, inr,
  ◌==◌, Bool-cases, Option-cases, ◌&&◌,
}
use cc_005_offline_inspectio.Base.Rows.{first, select}
use cc_005_offline_inspectio.Base.Rows.Laws.{first-select}
use cc_005_offline_inspectio.Json.Equality.{RawMessage}
use cc_005_offline_inspectio.Models.{
  Field, field_eq, field_eq_iff, FieldChange, Changes, Op, OpResult,
}
use cc_005_offline_inspectio.Models.Outside.{Outside}
use cc_005_offline_inspectio.Merge.{FieldVerdict, noop, apply, conflict, classify_field}
use cc_005_offline_inspectio.Db.{Db, FieldRev, open_on, field_rev}
use cc_005_offline_inspectio.Tx.{World, pure, query, ◌>>=◌}
use cc_005_offline_inspectio.Tx.Respects.{
  Respects, Respects-bind, Respects-now, Respects-run, Respects-pure,
}
use cc_005_offline_inspectio.Tx.Inversion.{Returns, Returns-pure, Returns-bind, Returns-query}
use cc_005_offline_inspectio.Snapshot.{load_dto}
use cc_005_offline_inspectio.Sync.Validate.{change_of}
use cc_005_offline_inspectio.Sync.Fields.{write_field}
use cc_005_offline_inspectio.Sync.Conflicts.{record_conflict}
use cc_005_offline_inspectio.Sync.Upsert.{
  Merged, Tally, tally, rev_of, bump_if, merge_verdict, merge_field, merge_fields, merge_changes,
}
use cc_005_offline_inspectio.Sync.Steps.Walk.{merge_field-Respects}
use cc_005_offline_inspectio.Sync.Steps.Operation.{load_dto-Respects}
use cc_005_offline_inspectio.Sync.Lineage.{Lineage, lineage}
use cc_005_offline_inspectio.Sync.Merging.{UniqueFields}
use cc_005_offline_inspectio.Sync.Resolution.{
  SameConflicts, SameConflicts-IsPreorder, write_field-SameConflicts,
}
use cc_005_offline_inspectio.Sync.Keyed.{IsKeyed, KeepsKeys-Steps}
use cc_005_offline_inspectio.Sync.Pending.{IsPending, OthersStay, record_conflict-IsRecorded}

bump_if-SameConflicts : (b : Bool) (id : ℕ) → Respects SameConflicts (bump_if b id)
unfolding bump_if
bump_if-SameConflicts true id =
    Respects-bind SameConflicts-IsPreorder _ _ (Respects-now SameConflicts-IsPreorder)
      (λ at. Respects-run SameConflicts-IsPreorder tt _ (λ db. refl))
bump_if-SameConflicts false id = Respects-pure SameConflicts-IsPreorder tt

-- a table of conflicts that is the same leaves each field's open conflict
same-OthersStay : (id : ℕ) (f : Field) (a b : Db) → b.conflicts ≡ a.conflicts → OthersStay id f a b
same-OthersStay id f a b e g apart = ap (first (open_on id g)) e

module _ (o : Outside) (op_id id : ℕ) where
  -- what a round leaves: the other open conflicts, and on a conflict the wanted value
  write-OthersStay :
      (f : Field) (v : RawMessage) (b : Bool) (m r : Merged) (w w' : World)
      → Returns (write_field o id f v op_id b >>= λ _. pure m) w r w'
      → OthersStay id f w.db w'.db
  write-OthersStay f v b m r w w' h =
      let (_, u, wrote, rest) = Returns-bind (write_field o id f v op_id b) _ w r w' h in
      let (_, left) = Returns-pure m r u w' rest in
      rw left at (
        same-OthersStay id f w.db u.db
          (rw wrote.1 at (write_field-SameConflicts o id f v op_id b w)))

  record-IsPending :
      (f : Field) (cur : FieldRev) (ch : FieldChange) (m : Merged) (w w' : World)
      → IsKeyed w.db
      → Returns (merge_verdict o op_id id f cur ch conflict) w m w'
      → IsPending o op_id ch.v w'.db id f × OthersStay id f w.db w'.db
  unfolding merge_verdict
  record-IsPending f cur ch m w w' keys h =
      let (dto, u, recorded, rest) =
        Returns-bind (record_conflict o op_id id f cur ch) _ w m w' h in
      let (_, left) = Returns-pure _ m u w' rest in
      rw left at (record_conflict-IsRecorded o op_id id f ch cur dto w u keys recorded)

  round-OthersStay :
      (f : Field) (ch : FieldChange) (cur : Option FieldRev) (m : Merged) (w w' : World)
      → IsKeyed w.db
      → Returns (merge_field o op_id id f ch cur) w m w'
      → OthersStay id f w.db w'.db
  unfolding merge_field merge_verdict
  round-OthersStay f ch none m w w' keys h = write-OthersStay f ch.v true _ m w w' h
  round-OthersStay f ch (some cur) m w w' keys h =
      go (classify_field o (some cur.value) ch.v ch.base) h
    where
      go :
          (verdict : FieldVerdict)
          → Returns (merge_verdict o op_id id f cur ch verdict) w m w'
          → OthersStay id f w.db w'.db
      go apply h = write-OthersStay f ch.v false _ m w w' h
      go conflict h = (record-IsPending f cur ch m w w' keys h).1
      go noop h =
          let (_, left) = Returns-pure _ m w w' h in
          same-OthersStay id f w.db w'.db (ap (λ (z : World). z.db.conflicts) (sym left))

  stays-IsPending :
      (f g : Field) (v : RawMessage) (a b : Db)
      → OthersStay id f a b
      → field_eq f g ≡ false
      → IsPending o op_id v a id g
      → IsPending o op_id v b id g
  stays-IsPending f g v a b stay apart (c, found, own, value) =
      (c, stay g apart ∙ found, own, value)

  -- the rounds on other fields
  rest-IsPending :
      (revs : List FieldRev) (changes : Changes) (g : Field) (v : RawMessage) (t t' : Tally)
      (w w' : World)
      → IsKeyed w.db
      → change_of g changes ≡ none
      → Returns (merge_fields o op_id id revs changes t) w t' w'
      → IsPending o op_id v w.db id g
      → IsPending o op_id v w'.db id g
  unfolding merge_fields change_of
  rest-IsPending revs [] g v t t' w w' keys absent h p =
      let (_, left) = Returns-pure t t' w w' h in rw left at p
  rest-IsPending revs ((f, ch) ∷ rest) g v t t' w w' keys absent h p =
      let (m, u, round, others) =
        Returns-bind (merge_field o op_id id f ch (rev_of f revs)) _ w t' w' h in
      elim (Bool-cases (field_eq f g)) [
        | inl e ↦ cc (rw e at absent)
        | inr e ↦
            rest-IsPending revs rest g v (tally t m) t' u w'
              (rw round.1 at (
                (merge_field-Respects o (KeepsKeys-Steps 0 id) op_id f ch (rev_of f revs)).at w
                  keys))
              (rw e at absent) others
              (stays-IsPending f g v w.db u.db
                (round-OthersStay f ch (rev_of f revs) m w u keys round) e p)
      ]

  loop-IsPending :
      (revs : List FieldRev) (changes : Changes) (g : Field) (ch : FieldChange) (cur : FieldRev)
      (t t' : Tally) (w w' : World)
      → UniqueFields changes
      → IsKeyed w.db
      → change_of g changes ≡ some ch
      → rev_of g revs ≡ some cur
      → classify_field o (some cur.value) ch.v ch.base ≡ conflict
      → Returns (merge_fields o op_id id revs changes t) w t' w'
      → IsPending o op_id ch.v w'.db id g
  unfolding merge_fields change_of merge_field
  loop-IsPending revs [] g ch cur t t' w w' unique keys named known clash h = cc named
  loop-IsPending revs ((f, c) ∷ rest) g ch cur t t' w w' (once, unique) keys named known clash h =
      let (m, u, round, others) =
        Returns-bind (merge_field o op_id id f c (rev_of f revs)) _ w t' w' h in
      let keys' : IsKeyed u.db =
        rw round.1 at
          ((merge_field-Respects o (KeepsKeys-Steps 0 id) op_id f c (rev_of f revs)).at w keys) in
      elim (Bool-cases (field_eq f g)) [
        | inl e ↦
            let same = (field_eq_iff f g).0 e in
            let wanted : c ≡ ch = cc (rw e at named) in
            let kept =
              record-IsPending g cur ch m w u keys (rw (same, wanted, known, clash) at round) in
            rest-IsPending revs rest g ch.v (tally t m) t' u w' keys' (rw (← same) once) others
              kept.0
        | inr e ↦
            loop-IsPending revs rest g ch cur (tally t m) t' u w' unique keys' (rw e at named) known
              clash others
      ]

row_of :
    (db : Db) (id : ℕ) (f : Field) (l : Lineage)
    → lineage db id f ≡ some l
    → (r : FieldRev) × (field_rev db id f ≡ some r) × (r.value ≡ l.0)
row_of db id f l e = elim (Option-cases (field_rev db id f)) [
  | inl absent ↦ cc (rw absent at e)
  | inr (r, found) ↦ (r, found, cc (rw found at e))
]

-- No conflicting edit is lost. If the merge of an operation's changes succeeds, then for every changed
-- field whose verdict is a conflict there is an open conflict on the field afterwards that holds the
-- value that the operation wanted, under the operation's id. The fields of the changes are taken to be
-- distinct and the keys of the tables to be unique.
pub merge_changes-IsPending :
    (o : Outside) (user op_id id : ℕ) (op : Op) (created : Bool) (res : OpResult) (w w' : World)
    (g : Field) (ch : FieldChange) (server : Lineage)
    → UniqueFields op.changes
    → IsKeyed w.db
    → change_of g op.changes ≡ some ch
    → lineage w.db id g ≡ some server
    → classify_field o (some server.0) ch.v ch.base ≡ conflict
    → Returns (merge_changes o user op_id id op created) w res w'
    → IsPending o op_id ch.v w'.db id g
unfolding merge_changes
merge_changes-IsPending o user op_id id op created res w w' g ch server unique keys named there
      clash h =
    let of_inspection : FieldRev → Bool = λ r. r.inspection_id == id in
    let q : Db → List FieldRev = λ db. select of_inspection db.field_revs in
    let (revs, u, loaded, rest) = Returns-bind (query q) _ w res w' h in
    let (rows, same) = Returns-query q w revs u loaded in
    let (t, v, merged, after) =
      Returns-bind (merge_fields o op_id id revs op.changes (created, [])) _ u res w' rest in
    let (_, x, bumped, last) = Returns-bind (bump_if (t.0 && not created) id) _ v res w' after in
    let (snap, y, scanned, done) = Returns-bind (load_dto id user) _ x res w' last in
    let (_, left) = Returns-pure _ res y w' done in
    let (r, found, value) = row_of w.db id g server there in
    let known : rev_of g revs ≡ some r =
      rw (← rows) (first-select of_inspection (λ r. field_eq r.field g) w.db.field_revs ∙ found) in
    let (c, open_there, own, wanted) =
      loop-IsPending o op_id id revs op.changes g ch r (created, []) t u v unique (rw same at keys)
        named known (rw (← value) at clash) merged in
    let end : w'.db.conflicts ≡ v.db.conflicts =
      ap (λ (z : World). z.db.conflicts) (sym left)
      ∙ rw scanned.1 at ((load_dto-Respects SameConflicts-IsPreorder id user).at x)
      ∙ rw bumped.1 at ((bump_if-SameConflicts (t.0 && not created) id).at v) in
    (c, ap (first (open_on id g)) end ∙ open_there, own, wanted)
