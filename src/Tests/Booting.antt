-- ===== src/Tests/Booting.antt =====
-- The theorems on the migrations and on the start of the program, at a database that answers.
use Prim.Native.String
use cc_005_offline_inspectio.Base.{
  ℕ, String, false, none, List, [], ◌∷◌, ◌≡◌, ◌<◌, ◌==◌, refl, inl, arith, str_eq, if◌then◌else◌,
}
use cc_005_offline_inspectio.Base.Rows.{exists}
use cc_005_offline_inspectio.Models.{
  Field, field_eq, editable, title, status, findings, notes, checked_items, photo_caption, other,
}
use cc_005_offline_inspectio.Tx.{Result, ok, err, World}
use cc_005_offline_inspectio.Tx.Inversion.{Returns}
use cc_005_offline_inspectio.Retry.{pinged}
use cc_005_offline_inspectio.Env.{config, env}
use cc_005_offline_inspectio.Store.{new_store}
use cc_005_offline_inspectio.Migrate.{Script, migrate}
use cc_005_offline_inspectio.Migrate.Prefix.{IsMigrated, migrate-IsMigrated}
use cc_005_offline_inspectio.Seed.{samples}
use cc_005_offline_inspectio.Seed.Seeded.{IsOrder, IsSeeded}
use cc_005_offline_inspectio.Seed.Start.{HasBoth, Takes}
use cc_005_offline_inspectio.Server.Services.{Services}
use cc_005_offline_inspectio.Server.Middleware.{serve}
use cc_005_offline_inspectio.Server.Requests.{here, request}
use cc_005_offline_inspectio.Boot.{Exit, Links, stopped, new_server, main}
use cc_005_offline_inspectio.Boot.Restart.{KeepsRows, restart-same}
use cc_005_offline_inspectio.Boot.Start.{Executes, Connects, pooling, storing, main-returns}
use cc_005_offline_inspectio.Tests.Setting.{outside, world, db}
use cc_005_offline_inspectio.Tests.Serving.{s3, both_clients, services, removal, shared}

-- a file that empties the table of users, and one that empties another table and then fails
abbrev executes : String → Script
executes sql db =
    if str_eq sql "DELETE FROM users"
    then (ok tt, record db { users = [] })
    else (err "syntax error", record db { inspections = [] })

abbrev reads : String → Result String
reads name = if str_eq name "migrations/1.sql" then ok "DELETE FROM users" else ok ""

migrate-IsMigrated_example :
    IsMigrated executes reads
      ("1.sql" ∷ "2.sql" ∷ [])
      shared.db
      (migrate executes reads (ok ("1.sql" ∷ "2.sql" ∷ [])) shared)
migrate-IsMigrated_example = migrate-IsMigrated executes reads ("1.sql" ∷ "2.sql" ∷ []) shared

-- a file that changes nothing
abbrev creates : String → Script
creates sql db = (ok tt, db)

abbrev sql_of : String → Result String
sql_of name = ok "CREATE TABLE IF NOT EXISTS users ();"

abbrev hash_of : ℕ → String → Result String
hash_of n password = ok password

abbrev fields_of : ℕ → List Field
fields_of id = title ∷ findings ∷ notes ∷ checked_items ∷ photo_caption ∷ status ∷ []

fields_of-IsOrder : IsOrder fields_of
unfolding exists field_eq editable
fields_of-IsOrder i title = refl
fields_of-IsOrder i findings = refl
fields_of-IsOrder i notes = refl
fields_of-IsOrder i checked_items = refl
fields_of-IsOrder i photo_caption = refl
fields_of-IsOrder i status = refl
fields_of-IsOrder i (other s) = refl

abbrev no_env : String → String
no_env name = ""

-- a database whose first ping fails, and an object store without the bucket
abbrev first_ping : ℕ → Result (Unit {0})
first_ping i = if i == 0 then err "connection refused" else ok tt

abbrev links : Links
links = record {
  pool = λ i. ok tt;
  ping = first_ping;
  store = λ i. record { client = ok s3; core = ok s3; there = ok false; make = ok tt };
  pool_wait = λ i. none;
  store_wait = λ i. none;
}

pool-Connects : Connects (pooling links) links.pool_wait tt
unfolding pinged
pool-Connects = (1, omega arith, refl, λ j q. rw (zero_of j q) (("connection refused", refl), refl))
  where
    zero_of : (j : ℕ) → j < 1 → j ≡ 0
    zero_of j q = omega arith

store-Connects : Connects (storing links) links.store_wait both_clients
unfolding new_store
store-Connects = (0, omega arith, refl, λ j q. absurd (omega arith))

-- no tables have rows
abbrev empty : World
empty = record world { db = record db { users = [] } }

abbrev started : Exit
started =
    stopped (String.◌++◌ ":" (env (no_env "PORT") "8080"))
      (new_server (config no_env) both_clients services)

values_taken : Takes outside samples
values_taken = (λ f. (_, refl), (λ f. (_, refl), (λ f. (_, refl), tt)))

files_executed : Executes creates sql_of ("0001_init.sql" ∷ [])
files_executed = (("CREATE TABLE IF NOT EXISTS users ();", refl, λ db. refl), tt)

main-returns_example :
    (w' : World) × Returns
      (main no_env services creates sql_of hash_of fields_of links none (ok ("0001_init.sql" ∷ [])))
      empty
      started
      w'
    × HasBoth w'.db
    × IsSeeded outside w'.db
main-returns_example =
    main-returns creates sql_of no_env services hash_of fields_of links both_clients
      ("0001_init.sql" ∷ []) empty pool-Connects store-Connects fields_of-IsOrder (λ n p. (p, refl))
      values_taken files_executed refl (inl refl)

creates-KeepsRows : KeepsRows creates sql_of
creates-KeepsRows = record { rows = λ name sql db db' opened e. cc e }

abbrev server : Services
server = new_server (config no_env) both_clients services

-- the world after the first start, and after a request to the server
abbrev booted : World
booted =
    (main no_env services creates sql_of hash_of fields_of links none (ok ("0001_init.sql" ∷ []))
      empty).1

abbrev used : World
used = (serve (record server { s3 = both_clients }) (removal "") booted).1

first_start :
    Returns
      (main no_env services creates sql_of hash_of fields_of links none (ok ("0001_init.sql" ∷ [])))
      empty
      started
      booted
first_start =
    let (w', (ran, left), _, _) =
      main-returns creates sql_of no_env services hash_of fields_of links both_clients
        ("0001_init.sql" ∷ []) empty pool-Connects store-Connects fields_of-IsOrder
        (λ n p. (p, refl)) values_taken files_executed refl (inl refl) in
    (ran, refl)

restart-same_example :
    (main no_env services creates sql_of hash_of fields_of links none
      (ok ("0001_init.sql" ∷ []))
      used).1.db
    ≡ used.db
restart-same_example =
    restart-same creates sql_of creates-KeepsRows no_env services hash_of hash_of fields_of
      fields_of fields_of-IsOrder fields_of-IsOrder links links none none
      (ok ("0001_init.sql" ∷ [])) (ok ("0001_init.sql" ∷ []))
      (String.◌++◌ ":" (env (no_env "PORT") "8080")) server empty booted used first_start
      (request here both_clients (removal "") booted refl refl)
