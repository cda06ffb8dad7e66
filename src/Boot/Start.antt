-- ===== src/Boot/Start.antt =====
-- A start of the program that nothing stands in the way of.
use Prim.Native.String
use cc_005_offline_inspectio.Base.{ℕ, String, none, List, [], ◌∷◌, ◌≡◌, refl, Option, ◌<◌}
use cc_005_offline_inspectio.Models.{Field}
use cc_005_offline_inspectio.Db.{Db}
use cc_005_offline_inspectio.Tx.{Result, ok, World, pure, query, attempt, ◌>>=◌}
use cc_005_offline_inspectio.Tx.Inversion.{Returns}
use cc_005_offline_inspectio.Tx.Succeeds.{Succeeds, Succeeds-pure, Succeeds-then}
use cc_005_offline_inspectio.Retry.{connected, pinged, connect_with_retry}
use cc_005_offline_inspectio.Retry.Laws.{Failed, with_retry_iff}
use cc_005_offline_inspectio.Store.{Clients, new_store, new_with_retry}
use cc_005_offline_inspectio.Env.{config, env}
use cc_005_offline_inspectio.Migrate.{
  Script, run_script, apply_sql, apply_file, migrate_entries, migrate,
}
use cc_005_offline_inspectio.Seed.{samples}
use cc_005_offline_inspectio.Seed.Seeded.{IsOrder, IsSeeded}
use cc_005_offline_inspectio.Seed.Start.{Hashes, Takes, HasBoth, IsFresh, seed-returns}
use cc_005_offline_inspectio.Store.Calls.{S3}
use cc_005_offline_inspectio.Server.Services.{Services}
use cc_005_offline_inspectio.Boot.{
  stopped, new_server, listen, with_store, seeded, migrated, Links, pool_of, store_of, main_on,
  main,
}

-- the files are read, and Postgres takes each of them on the tables of the model, which are there
abbrev pub Executes : (String → Script) → (String → Result String) → List String → Type 0
Executes exec read [] = Unit
Executes exec read (name ∷ names) =
    ((sql : String) × (read (String.◌++◌ "migrations/" name) ≡ ok sql)
      × ((db : Db) → exec sql db ≡ (ok tt, db)))
    × Executes exec read names

module _ (exec : String → Script) (read : String → Result String) where
  file-Succeeds :
      (P : Db → Type 0) (name sql : String)
      → ((db : Db) → exec sql db ≡ (ok tt, db))
      → Succeeds P P (apply_file exec name (ok sql))
  unfolding apply_file apply_sql query run_script ◌>>=◌
  file-Succeeds P name sql done = record {
    run = λ w calm p. (w, rw (calm, done w.db) (refl, refl), calm, p);
  }

  entries-Succeeds :
      (P : Db → Type 0) (names : List String)
      → Executes exec read names
      → Succeeds P P (migrate_entries exec read names)
  unfolding migrate_entries
  entries-Succeeds P [] h = Succeeds-pure P
  entries-Succeeds P (name ∷ names) ((sql, opened, done), more) =
      Succeeds-then P P P _ _ (rw opened (file-Succeeds P name sql done))
        (entries-Succeeds P names more)

-- one of 30 attempts makes this, after attempts that failed with a wait that was not cut short
abbrev pub Connects : {A : Type 0} → (ℕ → Result A) → (ℕ → Option String) → A → Type 0
Connects try wait a = (k : ℕ) × (k < 30) × (try k ≡ ok a) × ((j : ℕ) → j < k → Failed try wait j)

abbrev pub pooling : Links → ℕ → Result (Unit {0})
pooling l i = pinged (l.pool i) (l.ping i)

abbrev pub storing : Links → ℕ → Result (Clients S3)
storing l i = let a = l.store i in new_store a.client a.core a.there a.make

pool_of-Connects : (l : Links) → Connects (pooling l) l.pool_wait tt → pool_of l ≡ connected tt
unfolding connect_with_retry
pool_of-Connects l h = (with_retry_iff (pooling l) l.pool_wait 30 tt).1 h

store_of-Connects :
    (l : Links) (c : Clients S3) → Connects (storing l) l.store_wait c → store_of l ≡ connected c
unfolding new_with_retry
store_of-Connects l c h = (with_retry_iff (storing l) l.store_wait 30 c).1 h

-- The program starts and serves at the address of its environment, with the server that its
-- configuration describes, and then exactly alice and bob are users and every sample is there: if both
-- connections are made within 30 attempts, no wait between them is cut short, the database answers,
-- the files are read and executed, bcrypt hashes the passwords, jsonb takes the values of the samples,
-- and there are no users yet or those of an earlier start.
pub main-returns :
    (exec : String → Script) (read : String → Result String) (getenv : String → String)
    (libraries : Services) (hash : ℕ → String → Result String) (order : ℕ → List Field)
    (links : Links) (s3 : Clients S3) (names : List String) (w : World)
    → Connects (pooling links) links.pool_wait tt
    → Connects (storing links) links.store_wait s3
    → IsOrder order
    → Hashes hash
    → Takes libraries.outside samples
    → Executes exec read names
    → w.outcomes ≡ []
    → IsFresh w.db
    → (w' : World) × Returns
        (main getenv libraries exec read hash order links none (ok names))
        w
        (stopped
          (String.◌++◌ ":" (env (getenv "PORT") "8080"))
          (new_server (config getenv) s3 libraries))
        w'
      × HasBoth w'.db
      × IsSeeded libraries.outside w'.db
unfolding main main_on migrated seeded with_store listen migrate attempt pure ◌>>=◌
main-returns exec read getenv libraries hash order links s3 names w pools stores six hashes takes
      files calm fresh =
    let (v, (did, left), still, fresh_still) =
      (entries-Succeeds exec read IsFresh names files).run w calm fresh in
    let (w', (ran, reached), has, ready) =
      seed-returns libraries.outside hash order v six hashes takes still fresh_still in
    (
      w',
      rw (pool_of-Connects links pools, store_of-Connects links s3 stores, did, left, ran, reached)
          (refl, refl),
      has,
      ready,
    )
