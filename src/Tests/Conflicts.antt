-- ===== src/Tests/Conflicts.antt =====
-- The theorems on keys, conflicts and their resolution at one inspection.
use cc_005_offline_inspectio.Base.{none, false, [], ◌∷◌, ◌≡◌, refl, arith}
use cc_005_offline_inspectio.Base.Rows.{select}
use cc_005_offline_inspectio.Json.{str}
use cc_005_offline_inspectio.Models.{OpStatus, OpResult, title, ConflictStatus, no_code, no_message}
use cc_005_offline_inspectio.Tx.{World, Result, ok, err}
use cc_005_offline_inspectio.Tx.Inversion.{Returns}
use cc_005_offline_inspectio.Sync.Upsert.{answer, merge_changes}
use cc_005_offline_inspectio.Sync.Resolve.{apply_resolve}
use cc_005_offline_inspectio.Sync.Keyed.{IsKeyed}
use cc_005_offline_inspectio.Sync.Pending.{IsPending}
use cc_005_offline_inspectio.Sync.Unlost.{merge_changes-IsPending}
use cc_005_offline_inspectio.Sync.Resolution.{IsResolved, apply_resolve-IsResolved}
use cc_005_offline_inspectio.Tests.Setting.{
  outside, alice, world, busy, text, retitle, remove, resolve, title_rev,
}
use cc_005_offline_inspectio.Tests.Runs.{run}

world-IsKeyed : IsKeyed world.db
unfolding select
world-IsKeyed = record {
  inspections = λ id. omega arith;
  field_revs = λ id f. omega arith;
  conflicts = λ id. omega arith;
  open_conflicts = λ id f. omega arith;
  processed_ops = λ id. omega arith;
}

busy-IsKeyed : IsKeyed busy.db
unfolding select
busy-IsKeyed = record {
  inspections = λ id. ground arith;
  field_revs = λ id f. ground arith;
  conflicts = λ id. omega arith;
  open_conflicts = λ id f. omega arith;
  processed_ops = λ id. omega arith;
}

abbrev result_in : Result OpResult → OpResult
result_in (ok r) = r
result_in (err e) = answer (remove "") OpStatus.error no_code no_message

abbrev clashed : Result OpResult × World
clashed = merge_changes outside alice 2 10 (retitle "op-2" "x" "B") false busy

clashed_fine :
    Returns
      (merge_changes outside alice 2 10 (retitle "op-2" "x" "B") false)
      busy
      (result_in clashed.0)
      clashed.1
unfolding run
clashed_fine = (refl, refl)

merge_changes-IsPending_example : IsPending outside 2 (text "B") clashed.1.db 10 title
unfolding run
merge_changes-IsPending_example =
    merge_changes-IsPending outside alice 2 10 (retitle "op-2" "x" "B") false (result_in clashed.0)
      busy clashed.1 title (record { v = text "B"; base = text "x" }) (str "A", 1) (refl, tt)
      busy-IsKeyed refl refl refl clashed_fine

abbrev contested : World
contested = record busy {
  db = record busy.db {
    conflicts =
        record {
          id = 3;
          inspection_id = 10;
          field = title;
          server_value = str "A";
          client_value = str "B";
          server_op_id = 1;
          client_op_id = 2;
          status = ConflictStatus.open_conflict;
          resolved_value = none;
          created_at = 5;
          resolved_at = none;
        }
        ∷ [];
  };
}

contested-IsKeyed : IsKeyed contested.db
unfolding select
contested-IsKeyed = record {
  inspections = λ id. ground arith;
  field_revs = λ id f. ground arith;
  conflicts = λ id. ground arith;
  open_conflicts = λ id f. ground arith;
  processed_ops = λ id. omega arith;
}

abbrev settled_run : Result OpResult × World
settled_run = apply_resolve outside alice 3 10 (resolve "op-3" "C") contested

settled_fine :
    Returns
      (apply_resolve outside alice 3 10 (resolve "op-3" "C"))
      contested
      (result_in settled_run.0)
      settled_run.1
unfolding run
settled_fine = (refl, refl)

settled_applied : (result_in settled_run.0).status ≡ OpStatus.applied
unfolding run
settled_applied = refl

apply_resolve-IsResolved_example :
    IsResolved outside 3 10 title (text "C") contested.db settled_run.1.db
unfolding run
apply_resolve-IsResolved_example =
    apply_resolve-IsResolved outside alice 3 10 (resolve "op-3" "C") (result_in settled_run.0)
      contested settled_run.1 title_rev contested-IsKeyed refl settled_fine settled_applied
