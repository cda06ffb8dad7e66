-- ===== src/Tests/Runs.antt =====
-- Runs of the sync engine on `Setting`.
use cc_005_offline_inspectio.Base.{ℕ, List, [], ◌∷◌, map, ◌≡◌, refl}
use cc_005_offline_inspectio.Base.Rows.{first, select, update, exists, order_by}
use cc_005_offline_inspectio.Json.{unmarshal}
use cc_005_offline_inspectio.Json.Equality.{deep_equal, equal_json, decode_any}
use cc_005_offline_inspectio.Models.{
  Op, OpStatus, OpResult, field_eq, editable, applied, duplicate, conflict,
}
use cc_005_offline_inspectio.Merge.{classify_field, decode_str}
use cc_005_offline_inspectio.Tx.{World, attempt, ◌>>=◌}
use cc_005_offline_inspectio.Snapshot.{load_dto, attachments_of, open_conflicts_of}
use cc_005_offline_inspectio.Sync.Statements.{to_jsonb, incomplete_attachments}
use cc_005_offline_inspectio.Sync.Validate.{validate_changes, check_fields, check_status, change_of}
use cc_005_offline_inspectio.Sync.Fields.{
  create_inspection, insert_fields, insert_field, with_title, with_changes, write_field,
  write_column, set_column,
}
use cc_005_offline_inspectio.Sync.Conflicts.{
  record_conflict, open_or_refresh, open_new, refresh_open,
}
use cc_005_offline_inspectio.Sync.Upsert.{
  is_delete, submit_guard, tally, merge_field, merge_fields, bump_if, merge_changes,
  upsert_inspection, created_inspection, edited_inspection, delete_inspection, upsert_or_delete,
  merge_verdict,
}
use cc_005_offline_inspectio.Sync.Resolve.{
  settle, settle_found, resolve_on, apply_resolve, apply_kind, apply_op_tx,
}
use cc_005_offline_inspectio.Sync.Ledger.{
  is_ledgered_status, mark_duplicate, used_by_others, ending_of, write_entry, record_outcome,
  replay_or, in_transaction, is_known, apply_and_record, first_delivery, deliver, with_ids,
  apply_op, apply_ops,
}
use cc_005_offline_inspectio.Tests.Setting.{outside, alice, world, retitle, resolve}

-- with everything unfolded that a run computes with
unfoldable pub run : ℕ → Op → World → OpResult × World
unfolding first select update exists order_by unmarshal deep_equal equal_json decode_any field_eq
    editable classify_field decode_str attempt load_dto attachments_of open_conflicts_of to_jsonb
    incomplete_attachments validate_changes check_fields check_status change_of create_inspection
    insert_fields insert_field with_title with_changes write_field write_column set_column
    merge_verdict record_conflict open_or_refresh open_new refresh_open is_delete submit_guard tally
    merge_field merge_fields bump_if merge_changes upsert_inspection created_inspection
    edited_inspection delete_inspection upsert_or_delete settle settle_found resolve_on
    apply_resolve apply_kind apply_op_tx is_ledgered_status mark_duplicate used_by_others ending_of
    write_entry record_outcome replay_or in_transaction is_known apply_and_record first_delivery
    deliver with_ids apply_op apply_ops ◌>>=◌
run u op w = apply_op outside u op w

statuses : ℕ → List Op → World → List OpStatus
unfolding run
statuses u ops w = map (λ r. r.status) (apply_ops outside u ops w).0

created_then_replayed :
    statuses alice (retitle "op-1" "" "A" ∷ retitle "op-1" "" "A" ∷ []) world
    ≡ applied ∷ duplicate ∷ []
unfolding statuses
created_then_replayed = refl

conflict_then_resolved :
    statuses alice (retitle "op-1" "" "A" ∷ retitle "op-2" "x" "B" ∷ resolve "op-3" "C" ∷ []) world
    ≡ applied ∷ conflict ∷ applied ∷ []
unfolding statuses
conflict_then_resolved = refl
