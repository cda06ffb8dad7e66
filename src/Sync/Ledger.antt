-- ===== src/Sync/Ledger.antt =====
-- `applyOp`, `sync` and the two predicates on a status, backend/internal/api/handlers_sync.go.
use cc_005_offline_inspectio.Base.{
  ℕ, Bool, true, false, not, ◌&&◌, Option, none, some, List, [], ◌∷◌, ltb, ◌==◌, if◌then◌else◌,
}
use cc_005_offline_inspectio.Base.Rows.{first, select, length}
use cc_005_offline_inspectio.Models.{
  OpType, unknown_op, Op, OpStatus, Message, OpResult, no_code, failure, ledger_failure, bad_op_id,
  unknown_type, bad_inspection_id, op_id_collision, op_id_not_uuid, unknown_op_type,
  id_of_other_user, no_message,
}
use cc_005_offline_inspectio.Models.Outside.{Outside}
use cc_005_offline_inspectio.Db.{ProcessedOp, Db}
use cc_005_offline_inspectio.Tx.{
  Result, ok, err, Outcome, fine, refused, lost, cut, World, Tx, pure, statement, query, attempt,
  ◌>>=◌, ◌>>◌,
}
use cc_005_offline_inspectio.Sync.Statements.{insert_processed}
use cc_005_offline_inspectio.Sync.Upsert.{answer}
use cc_005_offline_inspectio.Sync.Resolve.{apply_op_tx}

unfoldable pub is_ledgered_status : OpStatus → Bool
is_ledgered_status OpStatus.applied = true
is_ledgered_status OpStatus.deleted = true
is_ledgered_status OpStatus.conflict = true
is_ledgered_status OpStatus.forbidden = true
is_ledgered_status OpStatus.invalid = true
is_ledgered_status _ = false

unfoldable pub mark_duplicate : OpStatus → OpStatus
mark_duplicate OpStatus.applied = OpStatus.duplicate
mark_duplicate OpStatus.deleted = OpStatus.duplicate
mark_duplicate OpStatus.conflict = OpStatus.duplicate
mark_duplicate s = s

-- how the body of the transaction ends: with a rollback, or with a commit
pub data Ending : Type 0 where
  rolled_back committed : OpResult → Ending

abbrev error_result : Op → Message → OpResult
error_result op m = answer op OpStatus.error no_code m

abbrev pub replayed : OpResult → OpResult
replayed prev = record prev { status = mark_duplicate prev.status }

-- SELECT result FROM processed_ops WHERE op_id=$1 AND user_id=$2
abbrev pub stored_result : ℕ → ℕ → Db → Option ProcessedOp
stored_result op_id user db = first (λ p. p.op_id == op_id && p.user_id == user) db.processed_ops

-- SELECT count(*) FROM processed_ops WHERE op_id=$1 AND user_id<>$2
unfoldable pub used_by_others : ℕ → ℕ → Db → ℕ
used_by_others op_id user db =
    length (select (λ p. p.op_id == op_id && not (p.user_id == user)) db.processed_ops)

pub data SyncResponse : Type 0 where
  bad_request : SyncResponse
  results : List OpResult → SyncResponse

unfoldable pub ending_of : Op → OpResult → Result (Unit {0}) → Ending
ending_of op res (ok _) = committed res
ending_of op res (err e) = rolled_back (error_result op (ledger_failure e))

-- INSERT INTO processed_ops
unfoldable pub write_entry : ℕ → ℕ → Op → OpResult → Tx Ending
write_entry user op_id op res = do
  written ←
      attempt
        (statement (insert_processed (record { op_id = op_id; user_id = user; result = res })))
  pure (ending_of op res written)

-- the outcome enters the ledger if it is terminal
unfoldable pub record_outcome : ℕ → ℕ → Op → OpResult → Tx Ending
record_outcome user op_id op res =
    if not (is_ledgered_status res.status)
    then pure (rolled_back res)
    else write_entry user op_id op res

unfoldable pub replay_or : Option OpResult → Tx Ending → Tx Ending
replay_or none next = next
replay_or (some prev) next = pure (rolled_back (replayed prev))

abbrev restore : World → Db → World
restore w db = record w { db = db }

-- Commit: a lost answer leaves the work in the tables
abbrev pub commit : List Outcome → Op → OpResult → World → Db → OpResult × World
commit [] op res w before = (res, w)
commit (fine ∷ rest) op res w before = (res, record w { outcomes = rest })
commit (refused e ∷ rest) op res w before =
    (error_result op (failure e), restore (record w { outcomes = rest }) before)
commit (lost e ∷ rest) op res w before = (error_result op (failure e), record w { outcomes = rest })
commit (cut n e ∷ rest) op res w before =
    (error_result op (failure e), record w { outcomes = rest })

abbrev pub finish : Op → Result Ending × World → Db → OpResult × World
finish op (err e, w) before = (error_result op (failure e), restore w before)
finish op (ok (rolled_back res), w) before = (res, restore w before)
finish op (ok (committed res), w) before = commit w.outcomes op res w before

-- Begin is a call too; the deferred rollback has no effect after a commit
unfoldable pub in_transaction : Op → Tx Ending → World → OpResult × World
in_transaction op body w = finish op ((query (λ db. tt) >> body) w) w.db

unfoldable pub is_known : OpType → Bool
is_known (unknown_op _) = false
is_known _ = true

module _ (o : Outside) where
  unfoldable pub apply_and_record : ℕ → ℕ → ℕ → Op → Tx Ending
  apply_and_record user op_id id op = do
    res ← apply_op_tx o user op_id id op
    record_outcome user op_id op res

  -- an operation that the ledger does not answer
  unfoldable pub first_delivery : ℕ → ℕ → ℕ → Op → Tx Ending
  first_delivery user op_id id op = do
    others ← query (used_by_others op_id user)
    if ltb 0 others
        then pure (rolled_back (answer op OpStatus.invalid op_id_collision id_of_other_user))
        else apply_and_record user op_id id op

  abbrev pub reread_entry : Option ProcessedOp → Option OpResult
  reread_entry none = none
  reread_entry (some p) = o.reread p.result

  -- between Begin and Commit: the advisory lock, the replay, the application
  unfoldable pub deliver : ℕ → ℕ → ℕ → Op → Tx Ending
  deliver user op_id id op = do
    query (λ db. tt)
    stored ← query (stored_result op_id user)
    replay_or (reread_entry stored) (first_delivery user op_id id op)

  unfoldable pub with_ids : ℕ → Op → Option ℕ → Option ℕ → World → OpResult × World
  with_ids user op none id w = (answer op OpStatus.invalid bad_op_id op_id_not_uuid, w)
  with_ids user op (some op_id) none w =
      if not (is_known op.kind)
      then (answer op OpStatus.invalid unknown_type unknown_op_type, w)
      else (answer op OpStatus.invalid bad_inspection_id no_message, w)
  with_ids user op (some op_id) (some id) w =
      if not (is_known op.kind)
      then (answer op OpStatus.invalid unknown_type unknown_op_type, w)
      else in_transaction op (deliver user op_id id op) w

  unfoldable pub apply_op : ℕ → Op → World → OpResult × World
  apply_op user op w = with_ids user op (o.parse_uuid op.op_id) (o.parse_uuid op.inspection_id) w

  -- the loop of `sync`
  unfoldable pub apply_ops : ℕ → List Op → World → List OpResult × World
  apply_ops user [] w = ([], w)
  apply_ops user (op ∷ ops) w =
      let (res, w') = apply_op user op w in
      let (rest, w'') = apply_ops user ops w' in (res ∷ rest, w'')

  -- `none` is a body that is no sync request
  unfoldable pub sync : ℕ → Option (List Op) → World → SyncResponse × World
  sync user none w = (bad_request, w)
  sync user (some ops) w = let (rs, w') = apply_ops user ops w in (results rs, w')
