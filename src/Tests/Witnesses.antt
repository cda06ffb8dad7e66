-- ===== src/Tests/Witnesses.antt =====
-- The theorems with hypotheses at concrete inputs.
use cc_005_offline_inspectio.Base.{
  ℕ, ◌≡◌, ◌≢◌, ◌⊎◌, ◌↔◌, ◌<◌, refl, ap, true, false, some, none, [], arith,
}
use cc_005_offline_inspectio.Base.Rows.{length, first, select}
use cc_005_offline_inspectio.Json.{Value}
use cc_005_offline_inspectio.Json.Equality.{decode_any, equal_json, equal_json_iff}
use cc_005_offline_inspectio.Models.{
  Op, OpStatus, OpResult, Field, title, status, attachments_incomplete, not_fully_uploaded, no_code,
  no_message,
}
use cc_005_offline_inspectio.Merge.{conflict, classify_field}
use cc_005_offline_inspectio.Merge.Laws.{Agrees, classify_field-Agrees}
use cc_005_offline_inspectio.Db.{Db, inspection, field_rev}
use cc_005_offline_inspectio.Tx.{World, Result, ok, err}
use cc_005_offline_inspectio.Tx.Inversion.{Returns}
use cc_005_offline_inspectio.Sync.Statements.{incomplete_attachments}
use cc_005_offline_inspectio.Sync.Validate.{validate_changes, change_of}
use cc_005_offline_inspectio.Sync.Validate.Laws.{
  validate_changes_iff, All, IsAllowed, IsStatusChange,
}
use cc_005_offline_inspectio.Sync.Upsert.{answer, merge_changes}
use cc_005_offline_inspectio.Sync.Ledger.{apply_op, is_ledgered_status, replayed, stored_result}
use cc_005_offline_inspectio.Sync.Effect.{Effect, apply_op-Effect}
use cc_005_offline_inspectio.Sync.Evolves.{Evolves}
use cc_005_offline_inspectio.Sync.Confined.{owner}
use cc_005_offline_inspectio.Sync.History.{Later, here, delivered, Later-Evolves}
use cc_005_offline_inspectio.Sync.Isolation.{apply_op-isolated, apply_op-owner}
use cc_005_offline_inspectio.Sync.Replay.{calm, exactly_once, redelivery-replayed}
use cc_005_offline_inspectio.Sync.Delivery.{entry_of}
use cc_005_offline_inspectio.Sync.Submission.{submission-held, submission-told}
use cc_005_offline_inspectio.Sync.Lineage.{lineage}
use cc_005_offline_inspectio.Sync.Merging.{merged_lineage}
use cc_005_offline_inspectio.Sync.Upserted.{merge_changes-lineage}
use cc_005_offline_inspectio.Tests.Setting.{
  outside, alice, bob, world, text, retitle, remove, row, busy, submit,
}
use cc_005_offline_inspectio.Tests.Runs.{run}

abbrev first_op : Op
first_op = retitle "op-1" "" "A"

abbrev once : World
once = (apply_op outside alice first_op world).1

abbrev twice : World
twice = (apply_op outside alice (retitle "op-2" "x" "B") once).1

one_entry : length once.db.processed_ops ≡ 1
unfolding run
one_entry = refl

no_entry : length world.db.processed_ops ≡ 0
no_entry = refl

first_op_writes : once.db ≢ world.db
first_op_writes e = cc (one_entry, no_entry, ap (λ (d : Db). length d.processed_ops) e)

twice-Later : Later outside once.db twice.db
twice-Later = delivered here alice (retitle "op-2" "x" "B") once refl refl

exactly_once_example :
    ((apply_op outside alice first_op twice).1.db ≡ twice.db)
    × ((op_id : ℕ) × (r : OpResult) × (outside.parse_uuid first_op.op_id ≡ some op_id)
        × (stored_result op_id alice twice.db ≡ some (entry_of alice op_id r))
        × (is_ledgered_status r.status ≡ true)
        × (((apply_op outside alice first_op world).0 ≡ r)
            ⊎ ((apply_op outside alice first_op world).0.status ≡ OpStatus.error)))
exactly_once_example = exactly_once outside alice first_op world first_op_writes twice twice-Later

first_op_applied : (apply_op outside alice first_op world).0.status ≡ OpStatus.applied
unfolding run
first_op_applied = refl

redelivery-replayed_example :
    (apply_op outside alice first_op (calm twice)).0
    ≡ replayed (apply_op outside alice first_op world).0
redelivery-replayed_example =
    redelivery-replayed outside alice first_op (λ r. r) (λ r. refl) world first_op_writes
      (λ e. cc (e, first_op_applied)) twice twice-Later

apply_op-Effect_example :
    Effect outside bob (remove "op-2") once (apply_op outside bob (remove "op-2") once)
apply_op-Effect_example = apply_op-Effect outside bob (remove "op-2") once

row_there : inspection busy.db 10 ≡ some row
unfolding first
row_there = refl

apply_op-isolated_example :
    (inspection (apply_op outside bob (remove "op-2") busy).1.db 10 ≡ some row)
    × ((f : Field)
        → field_rev (apply_op outside bob (remove "op-2") busy).1.db 10 f ≡ field_rev busy.db 10 f)
apply_op-isolated_example =
    apply_op-isolated outside bob (remove "op-2") busy 10 row row_there (λ e. omega arith)

first_owner : owner once.db 10 ≡ some alice
unfolding run
first_owner = refl

apply_op-owner_example : (owner world.db 10 ≡ some alice) ⊎ (alice ≡ alice)
apply_op-owner_example = apply_op-owner outside alice first_op world 10 alice first_owner

Later-Evolves_example : Evolves once.db twice.db
Later-Evolves_example = Later-Evolves outside once.db twice-Later

photo_missing : incomplete_attachments 10 busy.db ≡ 1
unfolding incomplete_attachments select
photo_missing = refl

submit_passes : validate_changes (submit "op-2").changes false ≡ none
unfolding run
submit_passes = refl

some_missing : 0 < incomplete_attachments 10 busy.db
some_missing = rw photo_missing (omega arith)

submission-held_example : (apply_op outside alice (submit "op-2") busy).1.db ≡ busy.db
unfolding run
submission-held_example =
    submission-held outside alice 2 10 (submit "op-2") row refl refl refl submit_passes refl busy
      refl refl row_there some_missing

submission-told_example :
    (apply_op outside alice (submit "op-2") (calm busy)).0
    ≡ answer
        (submit "op-2")
        OpStatus.incomplete
        attachments_incomplete
        (not_fully_uploaded (incomplete_attachments 10 busy.db))
unfolding run
submission-told_example =
    submission-told outside alice 2 10 (submit "op-2") row refl refl refl submit_passes refl busy
      refl refl row_there some_missing refl refl

validate_changes_iff_example : (validate_changes (submit "op-2").changes false ≡ none) ↔ (
    ((submit "op-2").changes ≢ [])
    × All (IsAllowed false) (submit "op-2").changes
    × IsStatusChange (change_of status (submit "op-2").changes))
validate_changes_iff_example = validate_changes_iff (submit "op-2").changes false

classify_field-Agrees_example :
    (classify_field outside (text "A") (text "B") (text "x") ≡ conflict)
    ↔ Agrees outside conflict (text "A") (text "B") (text "x")
classify_field-Agrees_example =
    classify_field-Agrees outside (text "A") (text "B") (text "x") conflict

equal_json_iff_example : (equal_json outside.parse_float (text "A") (text "B") ≡ true) ↔ (
    (v : Value) × (decode_any outside.parse_float (text "A") ≡ some v)
    × (decode_any outside.parse_float (text "B") ≡ some v))
equal_json_iff_example = equal_json_iff outside.parse_float (text "A") (text "B")

abbrev merged : Result OpResult × World
merged = merge_changes outside alice 2 10 (retitle "op-2" "x" "B") false busy

abbrev result_in : Result OpResult → OpResult
result_in (ok r) = r
result_in (err e) = answer (remove "") OpStatus.error no_code no_message

merged_fine :
    Returns
      (merge_changes outside alice 2 10 (retitle "op-2" "x" "B") false)
      busy
      (result_in merged.0)
      merged.1
unfolding run
merged_fine = (refl, refl)

merge_changes-lineage_example :
    lineage merged.1.db 10 title
    ≡ merged_lineage outside 2
        (lineage busy.db 10 title)
        (change_of title (retitle "op-2" "x" "B").changes)
unfolding run
merge_changes-lineage_example =
    merge_changes-lineage outside alice 2 10 (retitle "op-2" "x" "B") false (result_in merged.0)
      busy merged.1 (refl, tt) merged_fine title
