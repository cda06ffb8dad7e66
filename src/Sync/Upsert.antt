-- ===== src/Sync/Upsert.antt =====
-- The upsert and delete branches of `applyOpTx`, backend/internal/api/handlers_sync.go.
use cc_005_offline_inspectio.Base.{
  ℕ, String, Bool, true, false, not, ◌&&◌, Option, none, some, List, [], ◌∷◌, ◌++◌, ltb, ◌==◌,
  str_eq, if◌then◌else◌,
}
use cc_005_offline_inspectio.Base.Rows.{first, select}
use cc_005_offline_inspectio.Models.{
  Field, status, field_eq, FieldChange, Changes, OpType, delete, Op, ConflictDto, OpStatus, Code,
  Message, OpResult, no_code, no_message, assigned_to_other, edit_of_deleted, not_fully_uploaded,
  inspection_deleted, not_assigned, validation, attachments_incomplete,
}
use cc_005_offline_inspectio.Models.Outside.{Outside}
use cc_005_offline_inspectio.Merge.{
  FieldVerdict, noop, apply, conflict, classify_field, unmarshal_string,
}
use cc_005_offline_inspectio.Db.{Inspection, FieldRev}
use cc_005_offline_inspectio.Tx.{Tx, pure, statement, query, now, ◌>>=◌, ◌>>◌}
use cc_005_offline_inspectio.Snapshot.{load_dto}
use cc_005_offline_inspectio.Sync.Statements.{
  set_inspection, tombstone, next_rev, incomplete_attachments,
}
use cc_005_offline_inspectio.Sync.Validate.{change_of, validate_changes}
use cc_005_offline_inspectio.Sync.Fields.{create_inspection, write_field}
use cc_005_offline_inspectio.Sync.Conflicts.{record_conflict}

-- an answer with no conflicts and no snapshot
abbrev pub answer : Op → OpStatus → Code → Message → OpResult
answer op s c m = record {
  op_id = op.op_id;
  status = s;
  code = c;
  message = m;
  conflicts = [];
  inspection = none;
}

unfoldable pub is_delete : OpType → Bool
is_delete delete = true
is_delete _ = false

abbrev is_submitted : Option String → Bool
is_submitted none = false
is_submitted (some s) = str_eq s "submitted"

pub asks_submission : Option FieldChange → Bool
unfolding unmarshal_string
asks_submission none = false
asks_submission (some ch) = is_submitted (unmarshal_string ch.v)

-- the attachments that hold a submission up
unfoldable pub submit_guard : ℕ → Changes → Tx ℕ
unfolding asks_submission change_of incomplete_attachments
submit_guard id changes =
    if asks_submission (change_of status changes) then query (incomplete_attachments id) else pure 0

-- what became of one changed field
pub data Merged : Type 0 where
  unchanged written : Merged
  conflicted : ConflictDto → Merged

-- `applied` and `openConflicts` of the loop
abbrev pub Tally : Type 0
Tally = Bool × List ConflictDto

unfoldable pub tally : Tally → Merged → Tally
tally t unchanged = t
tally (applied, open_cs) written = (true, open_cs)
tally (applied, open_cs) (conflicted c) = (applied, open_cs ++ c ∷ [])

-- `revs[field]`
abbrev pub rev_of : Field → List FieldRev → Option FieldRev
rev_of field revs = first (λ r. field_eq r.field field) revs

unfoldable pub bump_if : Bool → ℕ → Tx (Unit {0})
bump_if true id = do at ← now; statement (set_inspection id (next_rev at))
bump_if false id = pure tt

abbrev merged_status : List ConflictDto → OpStatus
merged_status [] = OpStatus.applied
merged_status (_ ∷ _) = OpStatus.conflict

abbrev merged_result : Op → List ConflictDto → OpResult
merged_result op cs = record (answer op (merged_status cs) no_code no_message) { conflicts = cs }

unfoldable pub delete_inspection : ℕ → Op → Tx OpResult
delete_inspection id op = do
  at ← now
  statement (set_inspection id (tombstone at))
  pure (answer op OpStatus.deleted no_code no_message)

module _ (o : Outside) where
  unfoldable pub merge_verdict : ℕ → ℕ → Field → FieldRev → FieldChange → FieldVerdict → Tx Merged
  merge_verdict op_id id field cur ch apply = do
    write_field o id field ch.v op_id false
    pure written
  merge_verdict op_id id field cur ch conflict = do
    c ← record_conflict o op_id id field cur ch
    pure (conflicted c)
  merge_verdict op_id id field cur ch noop = pure unchanged

  -- the body of the loop over the changes
  unfoldable pub merge_field : ℕ → ℕ → Field → FieldChange → Option FieldRev → Tx Merged
  merge_field op_id id field ch none = do write_field o id field ch.v op_id true; pure written
  merge_field op_id id field ch (some cur) =
      merge_verdict op_id id field cur ch (classify_field o (some cur.value) ch.v ch.base)

  unfoldable pub merge_fields : ℕ → ℕ → List FieldRev → Changes → Tally → Tx Tally
  merge_fields op_id id revs [] t = pure t
  merge_fields op_id id revs ((field, ch) ∷ rest) t = do
    m ← merge_field op_id id field ch (rev_of field revs)
    merge_fields op_id id revs rest (tally t m)

  -- from the loading of the lineage to the end
  unfoldable pub merge_changes : ℕ → ℕ → ℕ → Op → Bool → Tx OpResult
  merge_changes user op_id id op created = do
    revs ← query (λ db. select (λ r. r.inspection_id == id) db.field_revs)
    t ← merge_fields op_id id revs op.changes (created, [])
    bump_if (t.0 && not created) id
    snap ← load_dto id user
    pure (record (merged_result op t.1) { inspection = some snap })

  -- the submit guard, and what follows it
  unfoldable pub upsert_inspection : ℕ → ℕ → ℕ → Op → Bool → Tx OpResult
  upsert_inspection user op_id id op created = do
    missing ← submit_guard id op.changes
    if ltb 0 missing
        then pure
            (answer op OpStatus.incomplete attachments_incomplete (not_fully_uploaded missing))
        else merge_changes user op_id id op created

  unfoldable pub created_inspection : ℕ → ℕ → ℕ → Op → Option Message → Tx OpResult
  created_inspection user op_id id op (some m) = pure (answer op OpStatus.invalid validation m)
  created_inspection user op_id id op none = do
    create_inspection o user op_id id op.changes
    upsert_inspection user op_id id op true

  unfoldable pub edited_inspection : ℕ → ℕ → ℕ → Op → Option Message → Tx OpResult
  edited_inspection user op_id id op (some m) = pure (answer op OpStatus.invalid validation m)
  edited_inspection user op_id id op none = upsert_inspection user op_id id op false

  -- with the row that was found under the id, if any
  unfoldable pub upsert_or_delete : ℕ → ℕ → ℕ → Op → Option Inspection → Tx OpResult
  upsert_or_delete user op_id id op none =
      if is_delete op.kind
      then pure (answer op OpStatus.deleted no_code no_message)
      else created_inspection user op_id id op (validate_changes op.changes true)
  upsert_or_delete user op_id id op (some r) =
      if not (r.owner_id == user)
      then pure (answer op OpStatus.forbidden not_assigned assigned_to_other)
      else if r.is_deleted
      then (if is_delete op.kind
          then pure (answer op OpStatus.deleted no_code no_message)
          else pure (answer op OpStatus.deleted inspection_deleted edit_of_deleted))
      else if is_delete op.kind
      then delete_inspection id op
      else edited_inspection user op_id id op (validate_changes op.changes false)
