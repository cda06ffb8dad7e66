-- ===== src/Boot.antt =====
-- `main` of backend/main.go. What each attempt to connect comes to, what Postgres makes of the
-- migrations and how the HTTP server ends are arguments; log.Fatalf ends the program.
pub mod Restart
pub mod Start
use Prim.Native.String
use cc_005_offline_inspectio.Base.{ℕ, String, Option, none, some, List, ◌*◌}
use cc_005_offline_inspectio.Models.{Field}
use cc_005_offline_inspectio.Models.Outside.{Outside}
use cc_005_offline_inspectio.Tx.{Result, ok, err, Tx, Statement, pure, attempt, ◌>>=◌}
use cc_005_offline_inspectio.Retry.{Retried, connected, cancelled, gave_up, connect_with_retry}
use cc_005_offline_inspectio.Env.{Config, config, env}
use cc_005_offline_inspectio.Auth.{Manager}
use cc_005_offline_inspectio.Migrate.{Script, migrate}
use cc_005_offline_inspectio.Seed.{seed}
use cc_005_offline_inspectio.Store.{Clients, Attempt, new_with_retry}
use cc_005_offline_inspectio.Store.Calls.{S3}
use cc_005_offline_inspectio.Server.Services.{Services}

-- what the program was at when it failed
pub data Stage : Type 0 where
  database migrating seeding object_storage http : Stage

-- how `main` ends: with log.Fatalf, or after it served at an address
pub data Exit : Type 0 where
  fatal : Stage → String → Exit
  stopped : String → Services → Exit

-- what pgxpool and the S3 library answer to each attempt to connect
pub record Links : Type 0 where
  pub pool : ℕ → Result (Unit {0})
  pub ping : ℕ → Result (Unit {0})
  pub store : ℕ → Attempt S3
  -- the error of the context, if it ends the wait after an attempt
  pub pool_wait : ℕ → Option String
  pub store_wait : ℕ → Option String

-- ConnectWithRetry and NewWithRetry, of 30 attempts
abbrev pub pool_of : Links → Retried (Unit {0})
pool_of l = connect_with_retry l.pool l.ping l.pool_wait 30

abbrev pub store_of : Links → Retried (Clients S3)
store_of l = new_with_retry l.store l.store_wait 30

-- the connection, or the error of the context or of the last attempt
abbrev pub connection {ℓ} : {A : Type 0} {B : Type ℓ} → Retried A → (A → B) → (String → B) → B
connection (connected a) good bad = good a
connection (cancelled e) good bad = bad e
connection (gave_up none) good bad = bad ""
connection (gave_up (some e)) good bad = bad e

-- NewManager, with a token's time of 24 hours
abbrev pub new_manager : String → Manager
new_manager secret = record { secret = secret; ttl = 24 * 60 * 60 }

-- NewServer, over what the server takes from libraries. The size of a part is not negative, as it is
-- from a CHUNK_SIZE below 2 ^ 63.
unfoldable pub new_server : Config → Clients S3 → Services → Services
new_server cfg s3 libraries = record libraries {
  manager = new_manager cfg.jwt_secret;
  chunk_size = cfg.chunk_size;
  s3 = s3;
  bucket = cfg.min_io.bucket;
}

module _ (getenv : String → String) (libraries : Services) where
  -- `ended` is the error with which the server ends, if it is not ErrServerClosed
  unfoldable pub listen : Option String → Clients S3 → Exit
  listen (some e) s3 = fatal http e
  listen none s3 =
      stopped (String.◌++◌ ":" (env (getenv "PORT") "8080"))
        (new_server (config getenv) s3 libraries)

  unfoldable pub with_store : Retried (Clients S3) → Option String → Exit
  with_store store ended = connection store (listen ended) (fatal object_storage)

  unfoldable pub seeded : Retried (Clients S3) → Option String → Result (Unit {0}) → Tx Exit
  seeded store ended (err e) = pure (fatal seeding e)
  seeded store ended (ok _) = pure (with_store store ended)

  module _ (exec : String → Script) (read : String → Result String)
      (hash : ℕ → String → Result String) (order : ℕ → List Field) where
    unfoldable pub migrated : Retried (Clients S3) → Option String → Result (Unit {0}) → Tx Exit
    migrated store ended (err e) = pure (fatal migrating e)
    migrated store ended (ok _) = do
      done ← attempt (seed libraries.outside hash order)
      seeded store ended done

    -- with what ConnectWithRetry and NewWithRetry return; `entries` is ReadDir
    unfoldable pub main_on :
        Retried (Unit {0}) → Retried (Clients S3) → Option String → Result (List String) → Tx Exit
    main_on pool store ended entries =
        connection pool
          (λ _. attempt (migrate exec read entries) >>= λ done. migrated store ended done)
          (λ e. pure (fatal database e))

    unfoldable pub main : Links → Option String → Result (List String) → Tx Exit
    main links ended entries = main_on (pool_of links) (store_of links) ended entries
