-- ===== src/Sync/Refreshing.antt =====
-- The refresh of an open conflict, and the parameter that its statement leaves unused.
use cc_005_offline_inspectio.Base.{
  ℕ, String, true, not, ◌||◌, Option, none, some, ◌≡◌, ◌≢◌, inl, inr, ◌==◌, ==_iff, Bool-cases,
  arith,
}
use cc_005_offline_inspectio.Models.{Field, FieldChange, ConflictDto}
use cc_005_offline_inspectio.Models.Outside.{Outside}
use cc_005_offline_inspectio.Merge.{same_json}
use cc_005_offline_inspectio.Db.{Db, Conflict, FieldRev, open_conflict_on}
use cc_005_offline_inspectio.Tx.{Statement, ok, World, query}
use cc_005_offline_inspectio.Tx.Inversion.{Returns, Returns-bind, Returns-query, Returns-statement}
use cc_005_offline_inspectio.Sync.Statements.{skipping_parameter}
use cc_005_offline_inspectio.Sync.Conflicts.{record_conflict, open_or_refresh, refresh_open}

skipped :
    (x : Option String) (reason : String) (s : Statement (Unit {0})) (a b : Db)
    → x ≡ some reason
    → skipping_parameter x s a ≢ ok (tt, b)
skipped none reason s a b h e = cc h
skipped (some r) reason s a b h e = cc e

module _ (o : Outside) (reason : String) (unused : o.skipped_parameter ≡ some reason) (op_id id : ℕ)
    (field : Field) (cur : FieldRev) (ch : FieldChange) where
  refresh_open-refused :
      (c : Conflict) (dto : ConflictDto) (w w' : World)
      → c.client_op_id ≢ op_id
      → ¬ (Returns (refresh_open o op_id field ch c) w dto w')
  unfolding refresh_open
  refresh_open-refused c dto w w' other h =
      let changed : (not (same_json o (some c.client_value) ch.v) || not (c.client_op_id == op_id))
          ≡ true =
        elim (Bool-cases (c.client_op_id == op_id)) [
          | inl e ↦ absurd (other ((==_iff c.client_op_id op_id).0 e))
          | inr e ↦ rw e (ground arith)
        ] in
      let (x, v, updated, rest) = Returns-bind _ _ w dto w' (rw changed at h) in
      skipped o.skipped_parameter reason _ w.db v.db unused (Returns-statement _ w x v updated)

  -- If Postgres refuses a statement that leaves a parameter unused, then no operation can refresh an
  -- open conflict that another operation opened or refreshed: `recordConflict` never succeeds on its
  -- field, whatever the new value.
  pub record_conflict-refused :
      (c : Conflict) (dto : ConflictDto) (w w' : World)
      → open_conflict_on w.db id field ≡ some c
      → c.client_op_id ≢ op_id
      → ¬ (Returns (record_conflict o op_id id field cur ch) w dto w')
  unfolding record_conflict open_or_refresh
  record_conflict-refused c dto w w' found other h =
      let (x, v, asked, rest) =
        Returns-bind (query (λ db. open_conflict_on db id field)) _ w dto w' h in
      let (row, _) = Returns-query (λ db. open_conflict_on db id field) w x v asked in
      refresh_open-refused c dto v w' other (rw (← row, found) at rest)
