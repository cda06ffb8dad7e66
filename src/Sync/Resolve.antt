-- ===== src/Sync/Resolve.antt =====
-- `applyResolve` and `applyOpTx` of backend/internal/api/handlers_sync.go.
use cc_005_offline_inspectio.Base.{ℕ, false, not, Option, none, some, ◌==◌, if◌then◌else◌}
use cc_005_offline_inspectio.Json.{Json}
use cc_005_offline_inspectio.Models.{
  editable, OpType, resolve_conflict, resolved, Op, OpStatus, OpResult, no_code, no_message,
  not_assigned, bad_field, not_found, no_open_conflict, no_conflict_for_field,
}
use cc_005_offline_inspectio.Models.Outside.{Outside}
use cc_005_offline_inspectio.Db.{Inspection, Conflict, inspection, open_conflict_on}
use cc_005_offline_inspectio.Tx.{with_json, Tx, pure, statement, query, now, ◌>>=◌, ◌>>◌}
use cc_005_offline_inspectio.Snapshot.{load_dto}
use cc_005_offline_inspectio.Sync.Statements.{to_jsonb, set_inspection, set_conflict, next_rev}
use cc_005_offline_inspectio.Sync.Fields.{write_field}
use cc_005_offline_inspectio.Sync.Upsert.{answer, upsert_or_delete}

abbrev pub settled : ℕ → Json → Conflict → Conflict
settled at j c = record c { status = resolved; resolved_value = some j; resolved_at = some at }

module _ (o : Outside) where
  -- the value that the human chose goes into the field, and settles the conflict
  unfoldable pub settle : ℕ → ℕ → ℕ → Op → Conflict → Tx OpResult
  settle user op_id id op c = do
    write_field o id op.field op.new_value op_id false
    at ← now
    statement (with_json (to_jsonb o op.new_value) (λ j. set_conflict c.id (settled at j)))
    statement (set_inspection id (next_rev at))
    snap ← load_dto id user
    pure (record (answer op OpStatus.applied no_code no_message) { inspection = some snap })

  unfoldable pub settle_found : ℕ → ℕ → ℕ → Op → Option Conflict → Tx OpResult
  settle_found user op_id id op none =
      pure (answer op OpStatus.invalid no_open_conflict no_conflict_for_field)
  settle_found user op_id id op (some c) = settle user op_id id op c

  unfoldable pub resolve_on : ℕ → ℕ → ℕ → Op → Option Inspection → Tx OpResult
  resolve_on user op_id id op none = pure (answer op OpStatus.invalid not_found no_message)
  resolve_on user op_id id op (some r) =
      if not (r.owner_id == user)
      then pure (answer op OpStatus.forbidden not_assigned no_message)
      else do
        found ← query (λ db. open_conflict_on db id op.field)
        settle_found user op_id id op found

  unfoldable pub apply_resolve : ℕ → ℕ → ℕ → Op → Tx OpResult
  apply_resolve user op_id id op =
      if not (editable op.field)
      then pure (answer op OpStatus.invalid bad_field no_message)
      else do found ← query (λ db. inspection db id); resolve_on user op_id id op found

  -- the types other than these three are refused before
  unfoldable pub apply_kind : ℕ → ℕ → ℕ → Op → OpType → Tx OpResult
  apply_kind user op_id id op resolve_conflict = apply_resolve user op_id id op
  apply_kind user op_id id op _ = do
    found ← query (λ db. inspection db id)
    upsert_or_delete o user op_id id op found

  unfoldable pub apply_op_tx : ℕ → ℕ → ℕ → Op → Tx OpResult
  apply_op_tx user op_id id op = apply_kind user op_id id op op.kind
