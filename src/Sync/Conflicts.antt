-- ===== src/Sync/Conflicts.antt =====
-- `recordConflict` of backend/internal/api/handlers_sync.go.
use cc_005_offline_inspectio.Base.{ℕ, not, ◌||◌, Option, none, some, ◌==◌, if◌then◌else◌}
use cc_005_offline_inspectio.Json.{Json}
use cc_005_offline_inspectio.Json.Equality.{RawMessage}
use cc_005_offline_inspectio.Models.{Field, FieldChange, ConflictDto, open_conflict}
use cc_005_offline_inspectio.Models.Outside.{Outside}
use cc_005_offline_inspectio.Merge.{same_json}
use cc_005_offline_inspectio.Db.{FieldRev, Conflict, open_conflict_on}
use cc_005_offline_inspectio.Tx.{with_json, Tx, pure, statement, query, now, new_uuid, ◌>>=◌, ◌>>◌}
use cc_005_offline_inspectio.Sync.Statements.{
  to_jsonb, insert_conflict, set_conflict, skipping_parameter,
}

abbrev pub conflict_row : ℕ → ℕ → ℕ → Field → FieldRev → ℕ → Json → Json → Conflict
conflict_row at new_id id field cur op_id server client = record {
  id = new_id;
  inspection_id = id;
  field = field;
  server_value = server;
  client_value = client;
  server_op_id = cur.op_id;
  client_op_id = op_id;
  status = open_conflict;
  resolved_value = none;
  created_at = at;
  resolved_at = none;
}

-- what `recordConflict` answers; the time of resolution and the value are not filled in
abbrev dto_of : Field → RawMessage → ℕ → Conflict → ConflictDto
dto_of field client client_op c = record {
  id = c.id;
  field = field;
  server_value = some c.server_value;
  client_value = client;
  server_op_id = c.server_op_id;
  client_op_id = client_op;
  status = open_conflict;
  resolved_value = none;
  created_at = c.created_at;
  resolved_at = none;
}

abbrev pub chosen : Json → ℕ → Conflict → Conflict
chosen j op_id c = record c { client_value = j; client_op_id = op_id }

module _ (o : Outside) where
  unfoldable pub open_new : ℕ → ℕ → Field → FieldRev → FieldChange → Tx ConflictDto
  open_new op_id id field cur ch = do
    new_id ← new_uuid
    at ← now
    c ← statement (
        with_json (to_jsonb o (some cur.value)) (λ server.
          with_json (to_jsonb o ch.v)
            (λ client. insert_conflict (conflict_row at new_id id field cur op_id server client))))
    pure (dto_of field (some c.client_value) c.client_op_id c)

  unfoldable pub refresh_open : ℕ → Field → FieldChange → Conflict → Tx ConflictDto
  refresh_open op_id field ch c =
      if not (same_json o (some c.client_value) ch.v) || not (c.client_op_id == op_id)
      then (do
        statement (
            skipping_parameter o.skipped_parameter
              (with_json (to_jsonb o ch.v) (λ j. set_conflict c.id (chosen j op_id))))
        pure (dto_of field ch.v op_id c))
      else pure (dto_of field (some c.client_value) c.client_op_id c)

  unfoldable pub open_or_refresh :
      ℕ → ℕ → Field → FieldRev → FieldChange → Option Conflict → Tx ConflictDto
  open_or_refresh op_id id field cur ch none = open_new op_id id field cur ch
  open_or_refresh op_id id field cur ch (some c) = refresh_open op_id field ch c

  unfoldable pub record_conflict : ℕ → ℕ → Field → FieldRev → FieldChange → Tx ConflictDto
  record_conflict op_id id field cur ch = do
    found ← query (λ db. open_conflict_on db id field)
    open_or_refresh op_id id field cur ch found
