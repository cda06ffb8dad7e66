-- ===== src/Sync/Upserted.antt =====
-- The three-way merge of a whole upsert.
use cc_005_offline_inspectio.Base.{
  ℕ, Bool, true, false, not, ◌&&◌, none, [], ◌≡◌, ◌≢◌, refl, ap, ◌∙◌, sym, ◌==◌,
}
use mathlib.Core.Option
use cc_005_offline_inspectio.Base.Rows.{select}
use cc_005_offline_inspectio.Base.Rows.Laws.{first-select}
use cc_005_offline_inspectio.Models.{Field, field_eq, Op, OpResult}
use cc_005_offline_inspectio.Models.Outside.{Outside}
use cc_005_offline_inspectio.Tx.{World, query}
use cc_005_offline_inspectio.Tx.Respects.{
  Respects, Respects-bind, Respects-now, Respects-run, Respects-pure,
}
use cc_005_offline_inspectio.Tx.Inversion.{Returns, Returns-bind, Returns-pure, Returns-query}
use cc_005_offline_inspectio.Snapshot.{load_dto}
use cc_005_offline_inspectio.Sync.Validate.{change_of}
use cc_005_offline_inspectio.Sync.Upsert.{bump_if, merge_fields, merge_changes, rev_of}
use cc_005_offline_inspectio.Sync.Steps.Operation.{load_dto-Respects}
use cc_005_offline_inspectio.Sync.Lineage.{lineage, lineage_of, SameRevs, SameRevs-IsPreorder}
use cc_005_offline_inspectio.Sync.Merging.{merged_lineage, UniqueFields, loop-lineage}

bump_if-SameRevs : (b : Bool) (id : ℕ) → Respects SameRevs (bump_if b id)
unfolding bump_if
bump_if-SameRevs true id =
    Respects-bind SameRevs-IsPreorder _ _ (Respects-now SameRevs-IsPreorder)
      (λ at. Respects-run SameRevs-IsPreorder tt _ (λ db. refl))
bump_if-SameRevs false id = Respects-pure SameRevs-IsPreorder tt

-- If the merge of an operation's changes into an inspection succeeds, then the lineage of each field
-- is afterwards what the merge of that field alone makes of it: the fields that the operation does not
-- name stay, a field is overwritten exactly where the verdict on it is to apply, and a conflict or a
-- no-op leaves the server's value and its operation in place. The order of the changes plays no part.
pub merge_changes-lineage :
    (o : Outside) (user op_id id : ℕ) (op : Op) (created : Bool) (res : OpResult) (w w' : World)
    → UniqueFields op.changes
    → Returns (merge_changes o user op_id id op created) w res w'
    → (g : Field)
    → lineage w'.db id g ≡ merged_lineage o op_id (lineage w.db id g) (change_of g op.changes)
unfolding merge_changes
merge_changes-lineage o user op_id id op created res w w' unique h g =
    let (revs, u, loaded, rest) =
      Returns-bind (query (λ db. select (λ r. r.inspection_id == id) db.field_revs)) _ w res w' h in
    let (rows, same) =
      Returns-query (λ db. select (λ r. r.inspection_id == id) db.field_revs) w revs u loaded in
    let (t, v, merged, after) =
      Returns-bind (merge_fields o op_id id revs op.changes (created, [])) _ u res w' rest in
    let (_, x, bumped, last) = Returns-bind (bump_if (t.0 && not created) id) _ v res w' after in
    let (snap, y, scanned, done) = Returns-bind (load_dto id user) _ x res w' last in
    let (_, left) = Returns-pure _ res y w' done in
    let end : w'.db.field_revs ≡ v.db.field_revs =
      ap (λ (z : World). z.db.field_revs) (sym left)
      ∙ rw scanned.1 at ((load_dto-Respects SameRevs-IsPreorder id user).at x)
      ∙ rw bumped.1 at ((bump_if-SameRevs (t.0 && not created) id).at v) in
    let fresh : (f : Field)
        → change_of f op.changes ≢ none
        → lineage u.db id f ≡ Option.map lineage_of (rev_of f revs) =
      λ f _.
        rw (← rows, ← same)
          (sym (
            ap (Option.map lineage_of) (
              first-select (λ r. r.inspection_id == id) (λ r. field_eq r.field f)
                w.db.field_revs))) in
    rw (end, same)
      (loop-lineage o op_id id revs op.changes (created, []) t u v unique fresh merged g)
