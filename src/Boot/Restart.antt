-- ===== src/Boot/Restart.antt =====
-- A restart of the program.
use Prim.Native.String
use cc_005_offline_inspectio.Base.{ℕ, String, Option, none, some, List, [], ◌∷◌, ◌≡◌, refl, ◌∙◌}
use cc_005_offline_inspectio.Models.{Field}
use cc_005_offline_inspectio.Models.Outside.{Outside}
use cc_005_offline_inspectio.Base.Rows.{take}
use cc_005_offline_inspectio.Db.{Db}
use cc_005_offline_inspectio.Tx.{Result, ok, err, World, attempt}
use cc_005_offline_inspectio.Tx.Respects.{
  IsPreorder, Respects, Respects-pure, Respects-throw, Respects-attempt, Respects-bind,
}
use cc_005_offline_inspectio.Tx.Inversion.{Returns, Returns-pure, Returns-bind, Returns-attempt}
use cc_005_offline_inspectio.Retry.{Retried, connected, cancelled, gave_up}
use cc_005_offline_inspectio.Migrate.{Script, migrate}
use cc_005_offline_inspectio.Migrate.Prefix.{
  executed, file_on, and_then, apply_files, migrate-IsMigrated,
}
use cc_005_offline_inspectio.Seed.{seed}
use cc_005_offline_inspectio.Seed.Seeded.{IsOrder, IsSeeded, seed-IsSeeded, IsSeeded-stays}
use cc_005_offline_inspectio.Seed.Quiet.{Quietly, Quietly-IsPreorder, seed-Quietly}
use cc_005_offline_inspectio.Store.{Clients}
use cc_005_offline_inspectio.Store.Calls.{S3}
use cc_005_offline_inspectio.Server.Services.{Services}
use cc_005_offline_inspectio.Server.Requests.{Requests, Requests-Grows}
use cc_005_offline_inspectio.Boot.{
  fatal, stopped, seeded, migrated, Links, pool_of, store_of, main_on, main,
}

-- The files of migrations create what is not there: on the tables of the model, which are there, they
-- change no row.
pub record KeepsRows (exec : String → Script) (read : String → Result String) : Type 0 where
  pub rows :
      (name sql : String) (db db' : Db) → read name ≡ ok sql → exec sql db ≡ (ok tt, db') → db' ≡ db

module _ (exec : String → Script) (read : String → Result String) (k : KeepsRows exec read) where
  file-same :
      (name : String) (file : Result String) (db db' : Db)
      → read name ≡ file
      → file_on exec read file db ≡ ok db'
      → db' ≡ db
  file-same name (err e) db db' opened h = cc h
  file-same name (ok sql) db db' opened h = go (exec sql db) refl h
    where
      go : (r : Result (Unit {0}) × Db) → exec sql db ≡ r → executed exec read r ≡ ok db' → db' ≡ db
      go (ok u, d) e h = k.rows name sql db db' opened (cc (e, h))
      go (err m, d) e h = cc h

  files-same :
      (names : List String) (db db' : Db) → apply_files exec read names db ≡ ok db' → db' ≡ db
  files-same [] db db' h = cc h
  files-same (name ∷ names) db db' h =
      go (λ d. files-same names d db') (file_on exec read (read path) db) refl h
    where
      path : String
      path = String.◌++◌ "migrations/" name

      go :
          ((d : Db) → apply_files exec read names d ≡ ok db' → db' ≡ d)
          → (r : Result Db) → file_on exec read (read path) db ≡ r
          → and_then exec read r (apply_files exec read names) ≡ ok db'
          → db' ≡ db
      go rest (ok d) e h = rest d h ∙ file-same path (read path) db d refl e
      go rest (err m) e h = cc h

  abbrev Unchanged : Db → Db → Type 0
  Unchanged a b = b ≡ a

  Unchanged-IsPreorder : IsPreorder Unchanged
  Unchanged-IsPreorder = record { self = λ a. refl; through = λ a b c g h. h ∙ g }

  migrate-same :
      (entries : Result (List String)) (w : World) → (migrate exec read entries w).1.db ≡ w.db
  unfolding migrate
  migrate-same (err e) w = (Respects-throw {A = Unit {0}} Unchanged-IsPreorder e).at w
  migrate-same (ok names) w =
      let (n, some_of, _) = migrate-IsMigrated exec read names w in
      files-same (take n names) w.db _ some_of

  module _ (getenv : String → String) (libraries : Services) (hash : ℕ → String → Result String)
      (order : ℕ → List Field) (six : IsOrder order) where
    abbrev o : Outside
    o = libraries.outside

    seeded-IsSeeded :
        (store : Retried (Clients S3)) (ended : Option String) (r : Result (Unit {0}))
        (address : String) (server : Services) (w w' : World)
        → Returns (seeded getenv libraries store ended r) w (stopped address server) w'
        → (r ≡ ok tt) × (w ≡ w')
    unfolding seeded
    seeded-IsSeeded store ended (err e) address server w w' h =
        let (other, _) = Returns-pure (fatal _ e) (stopped address server) w w' h in cc other
    seeded-IsSeeded store ended (ok u) address server w w' h =
        (refl, (Returns-pure _ (stopped address server) w w' h).1)

    migrated-IsSeeded :
        (store : Retried (Clients S3)) (ended : Option String) (r : Result (Unit {0}))
        (address : String) (server : Services) (w w' : World)
        → Returns
            (migrated getenv libraries exec read hash order store ended r)
            w
            (stopped address server)
            w'
        → IsSeeded o w'.db
    unfolding migrated
    migrated-IsSeeded store ended (err e) address server w w' h =
        let (other, _) = Returns-pure (fatal _ e) (stopped address server) w w' h in cc other
    migrated-IsSeeded store ended (ok u) address server w w' h =
        let (r, v, tried, rest) = Returns-bind (attempt _) _ w (stopped address server) w' h in
        let (ran, left) = Returns-attempt (seed o hash order) w r v tried in
        let (succeeded, same) = seeded-IsSeeded store ended r address server v w' rest in
        seed-IsSeeded o hash order w w' six (ran ∙ succeeded, left ∙ same)

    main_on-IsSeeded :
        (pool : Retried (Unit {0})) (store : Retried (Clients S3)) (ended : Option String)
        (entries : Result (List String)) (address : String) (server : Services) (w w' : World)
        → Returns
            (main_on getenv libraries exec read hash order pool store ended entries)
            w
            (stopped address server)
            w'
        → IsSeeded o w'.db
    unfolding main_on
    main_on-IsSeeded (connected u) store ended entries address server w w' h =
        let (r, v, _, rest) = Returns-bind (attempt _) _ w (stopped address server) w' h in
        migrated-IsSeeded store ended r address server v w' rest
    main_on-IsSeeded (cancelled e) store ended entries address server w w' h =
        let (other, _) = Returns-pure (fatal _ e) (stopped address server) w w' h in cc other
    main_on-IsSeeded (gave_up none) store ended entries address server w w' h =
        let (other, _) = Returns-pure (fatal _ _) (stopped address server) w w' h in cc other
    main_on-IsSeeded (gave_up (some e)) store ended entries address server w w' h =
        let (other, _) = Returns-pure (fatal _ e) (stopped address server) w w' h in cc other

    -- where everything is there
    abbrev p : IsPreorder (Quietly (IsSeeded o))
    p = Quietly-IsPreorder (IsSeeded o)

    seeded-Quietly :
        (store : Retried (Clients S3)) (ended : Option String) (r : Result (Unit {0}))
        → Respects (Quietly (IsSeeded o)) (seeded getenv libraries store ended r)
    unfolding seeded
    seeded-Quietly store ended (err e) = Respects-pure p _
    seeded-Quietly store ended (ok u) = Respects-pure p _

    migrated-Quietly :
        (store : Retried (Clients S3)) (ended : Option String) (r : Result (Unit {0}))
        → Respects
            (Quietly (IsSeeded o))
            (migrated getenv libraries exec read hash order store ended r)
    unfolding migrated
    migrated-Quietly store ended (err e) = Respects-pure p _
    migrated-Quietly store ended (ok u) =
        Respects-bind p _ _ (Respects-attempt p _ (seed-Quietly o hash order six))
          (seeded-Quietly store ended)

    main_on-Quietly :
        (pool : Retried (Unit {0})) (store : Retried (Clients S3)) (ended : Option String)
        (entries : Result (List String))
        → Respects
            (Quietly (IsSeeded o))
            (main_on getenv libraries exec read hash order pool store ended entries)
    unfolding main_on
    main_on-Quietly (connected u) store ended entries =
        Respects-bind p _ _ (Respects-attempt p _ (record { at = λ w _. migrate-same entries w }))
          (migrated-Quietly store ended)
    main_on-Quietly (cancelled e) store ended entries = Respects-pure p _
    main_on-Quietly (gave_up none) store ended entries = Respects-pure p _
    main_on-Quietly (gave_up (some e)) store ended entries = Respects-pure p _

-- If the migrations keep the rows of tables that are there, then once the program has started and served
-- any requests, starting it again changes no table: whatever the connections, the database and the
-- files come to this time, whatever the passwords are hashed to, and in whatever order the fields of
-- the samples are visited.
pub restart-same :
    (exec : String → Script) (read : String → Result String) (k : KeepsRows exec read)
    (getenv : String → String) (libraries : Services) (hash again : ℕ → String → Result String)
    (order next_order : ℕ → List Field) (six : IsOrder order) (six_again : IsOrder next_order)
    (links next_links : Links) (ended next_ended : Option String)
    (entries next_entries : Result (List String)) (address : String) (server : Services)
    (w w' v : World)
    → Returns
        (main getenv libraries exec read hash order links ended entries)
        w
        (stopped address server)
        w'
    → Requests server w'.db v.db
    → (main getenv libraries exec read again next_order next_links next_ended next_entries v).1.db
      ≡ v.db
unfolding main
restart-same exec read k getenv libraries hash again order next_order six six_again links next_links
      ended next_ended entries next_entries address server w w' v started served =
    let ready =
      main_on-IsSeeded exec read k getenv libraries hash order six (pool_of links) (store_of links)
        ended entries address server w w' started in
    let still =
      IsSeeded-stays libraries.outside w'.db v.db (Requests-Grows server w'.db served) ready in
    (main_on-Quietly exec read k getenv libraries again next_order six_again (pool_of next_links)
        (store_of next_links) next_ended next_entries).at
      v still
