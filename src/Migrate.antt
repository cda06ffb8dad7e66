-- ===== src/Migrate.antt =====
-- `Migrate`, `migrateEmbedded` and `applySQL` of backend/internal/db/db.go. What Postgres makes of a text
-- of SQL is an argument, and so are the embedded files.
pub mod Prefix
use Prim.Native.String
use cc_005_offline_inspectio.Base.{String, List, [], ◌∷◌}
use cc_005_offline_inspectio.Db.{Db}
use cc_005_offline_inspectio.Tx.{
  Result, ok, err, Outcome, fine, refused, lost, cut, World, Tx, pure, throw, query, ◌>>=◌, ◌>>◌,
}

abbrev with_tables : World → Db → World
with_tables w db = record w { db = db }

-- What Postgres makes of a text of several statements: its answer and the tables that it leaves, which
-- need not be those before where it fails
abbrev pub Script : Type 0
Script = Db → Result (Unit {0}) × Db

abbrev ran : Result (Unit {0}) × Db → World → Result (Unit {0}) × World
ran (r, db) w = (r, with_tables w db)

abbrev unheard : String → Result (Unit {0}) × World → Result (Unit {0}) × World
unheard e (_, w) = (err e, w)

abbrev answered_script : Outcome → Script → World → Result (Unit {0}) × World
answered_script fine s w = ran (s w.db) w
answered_script (refused e) s w = (err e, w)
answered_script (lost e) s w = unheard e (ran (s w.db) w)
answered_script (cut n e) s w = unheard e (ran (s w.db) w)

abbrev pub performed_script : List Outcome → Script → World → Result (Unit {0}) × World
performed_script [] s w = ran (s w.db) w
performed_script (x ∷ rest) s w = answered_script x s (record w { outcomes = rest })

-- Exec of a text
unfoldable pub run_script : Script → Tx (Unit {0})
run_script s w = performed_script w.outcomes s w

-- Commit, over the tables before the transaction; a lost answer leaves the work in the tables
abbrev pub committed : List Outcome → Db → World → Result (Unit {0}) × World
committed [] before w = (ok tt, w)
committed (fine ∷ rest) before w = (ok tt, record w { outcomes = rest })
committed (refused e ∷ rest) before w = (err e, record w { outcomes = rest; db = before })
committed (lost e ∷ rest) before w = (err e, record w { outcomes = rest })
committed (cut n e ∷ rest) before w = (err e, record w { outcomes = rest })

-- a failure is rolled back
abbrev pub ended : Db → Result (Unit {0}) × World → Result (Unit {0}) × World
ended before (err e, w) = (err e, with_tables w before)
ended before (ok _, w) = committed w.outcomes before w

-- the error of a file, with its name
abbrev labelled : String → Result (Unit {0}) × World → Result (Unit {0}) × World
labelled name (ok u, w) = (ok u, w)
labelled name (err e, w) =
    (err (String.◌++◌ "migration " (String.◌++◌ name (String.◌++◌ ": " e))), w)

module _ (exec : String → Script) where
  -- Begin, Exec and Commit
  unfoldable pub apply_sql : String → Tx (Unit {0})
  apply_sql sql w = ended w.db ((query (λ db. tt) >> run_script (exec sql)) w)

  unfoldable pub apply_file : String → Result String → Tx (Unit {0})
  apply_file name (err e) w = (err e, w)
  apply_file name (ok sql) w = labelled name (apply_sql sql w)

  -- the loop over the entries; `read` is ReadFile
  unfoldable pub migrate_entries : (String → Result String) → List String → Tx (Unit {0})
  migrate_entries read [] = pure tt
  migrate_entries read (name ∷ names) =
      apply_file name (read (String.◌++◌ "migrations/" name)) >> migrate_entries read names

  unfoldable pub migrate : (String → Result String) → Result (List String) → Tx (Unit {0})
  migrate read (err e) = throw e
  migrate read (ok names) = migrate_entries read names
