-- ===== src/Tests/Reading.antt =====
-- The theorems on the handlers that read, and on conflicts, at one inspection and one conflict.
use cc_005_offline_inspectio.Base.{some, none, [], ◌∷◌, ◌≡◌, refl, arith}
use cc_005_offline_inspectio.Base.Rows.{first, select, order_by}
use cc_005_offline_inspectio.Models.{field_eq, title, ConflictStatus, InspectionDto}
use cc_005_offline_inspectio.Json.{str}
use cc_005_offline_inspectio.Db.{Conflict, inspection, open_conflict_on}
use cc_005_offline_inspectio.Tx.{Result, ok, World, attempt, pure, query, statement, ◌>>=◌}
use cc_005_offline_inspectio.Tx.Inversion.{Returns}
use cc_005_offline_inspectio.Snapshot.{scan_inspection, conflict_dto}
use cc_005_offline_inspectio.Sync.Conflicts.{record_conflict}
use cc_005_offline_inspectio.Sync.Refreshing.{record_conflict-refused}
use cc_005_offline_inspectio.Inspections.{
  Reply, detail, Resolution, fetched_of, fetch_one, with_conflicts, with_attachments, detail_of,
  get_inspection,
}
use cc_005_offline_inspectio.Inspections.Access.{IsOwnRow, get_inspection-IsOwnRow}
use cc_005_offline_inspectio.Tests.Setting.{outside, title_rev, alice, bob, busy, row, text}

abbrev shown : Result Reply → InspectionDto
unfolding scan_inspection
shown (ok (detail d)) = d
shown _ = scan_inspection row

abbrev read : Result Reply × World
read = get_inspection alice 10 busy

row_found : inspection busy.db 10 ≡ some row
unfolding first
row_found = refl

read_fine : Returns (get_inspection alice 10) busy (detail (shown read.0)) read.1
unfolding get_inspection fetch_one fetched_of detail_of with_attachments with_conflicts
    scan_inspection attempt pure query statement first select order_by ◌>>=◌
read_fine = (refl, refl)

get_inspection-IsOwnRow_example : IsOwnRow alice 10 (shown read.0) busy.db
get_inspection-IsOwnRow_example =
    get_inspection-IsOwnRow alice 10 (shown read.0) busy read.1 read_fine

abbrev request : Resolution
request = record { inspection_id = "inspection"; field = title; chosen_value = text "B" }

-- a conflict of bob's, whose id comes with a request that names the inspection of alice
abbrev bobs_conflict : Conflict
bobs_conflict = record {
  id = 3;
  inspection_id = 20;
  field = title;
  server_value = str "A";
  client_value = str "B";
  server_op_id = 1;
  client_op_id = 2;
  status = ConflictStatus.open_conflict;
  resolved_value = none;
  created_at = 5;
  resolved_at = none;
}

abbrev crossed : World
crossed = record busy {
  db = record busy.db {
    inspections = row ∷ record row { id = 20; owner_id = bob } ∷ [];
    conflicts = bobs_conflict ∷ [];
  };
}

row_stands : inspection crossed.db 10 ≡ some row
unfolding first
row_stands = refl

still_open : open_conflict_on crossed.db 20 title ≡ some bobs_conflict
unfolding first field_eq
still_open = refl

record_conflict-refused_example : ¬ (
    Returns
      (record_conflict outside 3 20 title
        (record title_rev { inspection_id = 20 })
        (record { v = text "C"; base = text "x" }))
      crossed
      (conflict_dto bobs_conflict)
      crossed)
record_conflict-refused_example =
    record_conflict-refused outside "could not determine data type of parameter $2" refl 3 20 title
      (record title_rev { inspection_id = 20 }) (record { v = text "C"; base = text "x" })
      bobs_conflict (conflict_dto bobs_conflict) crossed crossed still_open (λ e. omega arith)
