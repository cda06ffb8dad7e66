-- ===== src/Sync/Resolution.antt =====
-- What a resolved conflict leaves.
use cc_005_offline_inspectio.Base.{
  ℕ, Bool, false, Option, none, some, ◌≡◌, refl, ap, ◌∙◌, sym, inl, inr, ◌==◌, ==_iff, Bool-cases,
  arith, if◌then◌else◌,
}
use cc_005_offline_inspectio.Base.Rows.{update}
use cc_005_offline_inspectio.Base.Rows.Unique.{first-update_only}
use cc_005_offline_inspectio.Json.{Json}
use cc_005_offline_inspectio.Json.Equality.{RawMessage}
use cc_005_offline_inspectio.Models.{Field, field_eq, editable, Op, OpResult, OpStatus}
use cc_005_offline_inspectio.Models.Outside.{Outside}
use cc_005_offline_inspectio.Db.{
  Db, Inspection, Conflict, FieldRev, open_on, inspection, field_rev, open_conflict_on,
}
use cc_005_offline_inspectio.Tx.{World, Result, ok, err, with_json, query, statement, now}
use cc_005_offline_inspectio.Tx.Respects.{IsPreorder}
use cc_005_offline_inspectio.Tx.Inversion.{
  Returns, Returns-pure, Returns-bind, Returns-query, Returns-statement, table_or,
}
use cc_005_offline_inspectio.Snapshot.{load_dto}
use cc_005_offline_inspectio.Sync.Statements.{to_jsonb, set_conflict, set_inspection, next_rev}
use cc_005_offline_inspectio.Sync.Fields.{write_field}
use cc_005_offline_inspectio.Sync.Resolve.{settled, settle, settle_found, resolve_on, apply_resolve}
use cc_005_offline_inspectio.Sync.Steps.Walk.{write_field-Respects}
use cc_005_offline_inspectio.Sync.Steps.Operation.{load_dto-Respects}
use cc_005_offline_inspectio.Sync.Lineage.{lineage, written_lineage, write_field-lineage}
use cc_005_offline_inspectio.Sync.Keyed.{IsKeyed}

abbrev pub SameConflicts : Db → Db → Type 0
SameConflicts a b = b.conflicts ≡ a.conflicts

pub SameConflicts-IsPreorder : IsPreorder SameConflicts
SameConflicts-IsPreorder = record { self = λ a. refl; through = λ a b c f g. g ∙ f }

-- A write of a field leaves the table of conflicts alone.
pub write_field-SameConflicts :
    (o : Outside) (id : ℕ) (f : Field) (v : RawMessage) (op_id : ℕ) (b : Bool) (w : World)
    → (write_field o id f v op_id b w).1.db.conflicts ≡ w.db.conflicts
write_field-SameConflicts o id f v op_id b w =
    (write_field-Respects {R = SameConflicts} {id = id} o
        (record {
          columns = record {
            preorder = SameConflicts-IsPreorder;
            column = λ f s db. refl;
            items = λ j db. refl;
          };
          add_rev = λ at f j op_id db _. refl;
          rewrite = λ at f j op_id db. refl;
        })
        f v op_id b).at
      w

abbrev Same : Db → Db → Type 0
Same a b = b ≡ a

load_dto-same : (id user : ℕ) (w : World) → (load_dto id user w).1.db ≡ w.db
load_dto-same id user w =
    let preorder : IsPreorder Same = record { self = λ a. refl; through = λ a b c f g. g ∙ f } in
    (load_dto-Respects preorder id user).at w

shut-statement :
    (x : Result Json) (at c : ℕ) (a b : Db)
    → with_json x (λ j. set_conflict c (settled at j)) a ≡ ok (tt, b)
    → (j : Json) × (b ≡ record a { conflicts = update (λ d. d.id == c) (settled at j) a.conflicts })
shut-statement (ok j) at c a b h = (j, sym (ap (table_or a) h))
shut-statement (err e) at c a b h = cc h

-- what a resolution with the value `v` has done to the field `f`
abbrev pub IsResolved : Outside → ℕ → ℕ → Field → RawMessage → Db → Db → Type 0
IsResolved o op_id id f v a b =
    (c : Conflict) × (open_conflict_on a id f ≡ some c)
    × (open_conflict_on b id f ≡ none)
    × ((g : Field)
        → lineage b id g ≡ (if field_eq f g then written_lineage o op_id v else lineage a id g))

module _ (o : Outside) (user op_id id : ℕ) (op : Op) where
  settle-IsResolved :
      (c : Conflict) (res : OpResult) (w w' : World) (r : FieldRev)
      → IsKeyed w.db
      → field_rev w.db id op.field ≡ some r
      → open_conflict_on w.db id op.field ≡ some c
      → Returns (settle o user op_id id op c) w res w'
      → IsResolved o op_id id op.field op.new_value w.db w'.db
  unfolding settle now
  settle-IsResolved c res w w' r keys known found h =
      let (_, v, wrote, after_write) =
        Returns-bind (write_field o id op.field op.new_value op_id false) _ w res w' h in
      let (at, x, clock, after_clock) = Returns-bind now _ v res w' after_write in
      let (_, y, shut, after_shut) = Returns-bind (statement _) _ x res w' after_clock in
      let (_, z, bumped, after_bump) = Returns-bind (statement _) _ y res w' after_shut in
      let (snap, u, loaded, last) = Returns-bind (load_dto id user) _ z res w' after_bump in
      let (_, left) = Returns-pure _ res u w' last in
      let (j, closed) =
        shut-statement (to_jsonb o op.new_value) at c.id x.db y.db
          (Returns-statement _ x tt y shut) in
      let raised : z.db ≡ _ =
        sym (
          ap (table_or y.db) (Returns-statement (set_inspection id (next_rev at)) y tt z bumped)) in
      let end : w'.db ≡ z.db =
        ap (λ (k : World). k.db) (sym left) ∙ rw loaded.1 at (load_dto-same id user z) in
      let ticked : x.db ≡ v.db = ap (λ (k : World). k.db) (sym clock.1) in
      let conflicts : v.db.conflicts ≡ w.db.conflicts =
        rw wrote.1 at (write_field-SameConflicts o id op.field op.new_value op_id false w) in
      (
        c,
        found,
        rw (end, raised, closed, ticked, conflicts)
            (first-update_only (open_on id op.field) (λ d. d.id == c.id) (settled at j)
              w.db.conflicts c (keys.open_conflicts id op.field) found ((==_iff c.id c.id).1 refl)
              (λ d _. ground arith)),
        λ g.
            rw (end, raised, closed, ticked)
              (write_field-lineage o id op.field g op.new_value op_id false w v (λ _. (r, known))
                wrote),
      )

  resolve_on-IsResolved :
      (i : Option Inspection) (res : OpResult) (w w' : World) (r : FieldRev)
      → IsKeyed w.db
      → field_rev w.db id op.field ≡ some r
      → res.status ≡ OpStatus.applied
      → Returns (resolve_on o user op_id id op i) w res w'
      → IsResolved o op_id id op.field op.new_value w.db w'.db
  unfolding resolve_on settle_found
  resolve_on-IsResolved none res w w' r keys known done h =
      let (other, _) = Returns-pure _ res w w' h in cc (other, done)
  resolve_on-IsResolved (some i) res w w' r keys known done h =
      elim (Bool-cases (i.owner_id == user)) [
        | inr foreign ↦
            let (other, _) = Returns-pure _ res w w' (rw foreign at h) in
            cc (ap (λ (x : OpResult). x.status) other, done)
        | inl own ↦
            let q : Db → Option Conflict = λ db. open_conflict_on db id op.field in
            let (x, v, asked, rest) = Returns-bind (query q) _ w res w' (rw own at h) in
            let (found, same) = Returns-query q w x v asked in go x v found same rest
      ]
    where
      go :
          (x : Option Conflict) (v : World)
          → open_conflict_on w.db id op.field ≡ x
          → w.db ≡ v.db
          → Returns (settle_found o user op_id id op x) v res w'
          → IsResolved o op_id id op.field op.new_value w.db w'.db
      go none v found same rest =
          let (other, _) = Returns-pure _ res v w' rest in
          cc (ap (λ (x : OpResult). x.status) other, done)
      go (some c) v found same rest = rw same (
          settle-IsResolved c res v w' r (rw same at keys) (rw same at known) (rw same at found)
            rest)

  -- A resolution that is answered as applied found an open conflict on its field and closed it: no
  -- open conflict of the field is left, the field's lineage is the chosen value, written by this
  -- operation, and the lineage of the other fields stays. The keys are taken to be unique, and the
  -- field to have a lineage.
  pub apply_resolve-IsResolved :
      (res : OpResult) (w w' : World) (r : FieldRev)
      → IsKeyed w.db
      → field_rev w.db id op.field ≡ some r
      → Returns (apply_resolve o user op_id id op) w res w'
      → res.status ≡ OpStatus.applied
      → IsResolved o op_id id op.field op.new_value w.db w'.db
  unfolding apply_resolve
  apply_resolve-IsResolved res w w' r keys known h done = elim (Bool-cases (editable op.field)) [
    | inr bad ↦
        let (other, _) = Returns-pure _ res w w' (rw bad at h) in
        cc (ap (λ (x : OpResult). x.status) other, done)
    | inl good ↦
        let q : Db → Option Inspection = λ db. inspection db id in
        let (i, v, asked, rest) = Returns-bind (query q) _ w res w' (rw good at h) in
        let (_, same) = Returns-query q w i v asked in
        rw same (resolve_on-IsResolved i res v w' r (rw same at keys) (rw same at known) done rest)
  ]
