-- ===== src/Migrate/Prefix.antt =====
-- What the migrations leave behind: the files are applied from the first on, each one whole.
use Prim.Native.String
use cc_005_offline_inspectio.Base.{ℕ, suc, String, List, [], ◌∷◌, ◌≡◌, refl, ◌⊎◌, inl, inr}
use cc_005_offline_inspectio.Base.Rows.{take}
use cc_005_offline_inspectio.Db.{Db}
use cc_005_offline_inspectio.Tx.{
  Result, ok, err, Outcome, fine, refused, lost, cut, World, Tx, pure, query, continue, ◌>>=◌, ◌>>◌,
}
use cc_005_offline_inspectio.Tx.Inversion.{Returns, Returns-bind, Returns-query}
use cc_005_offline_inspectio.Migrate.{
  Script, ran, performed_script, run_script, committed, ended, labelled, apply_sql, apply_file,
  migrate_entries, migrate,
}

-- a text that succeeds leaves the tables that it makes
run_script-ok :
    (s : Script) (w : World) (u : Unit {0}) (v : World)
    → Returns (run_script s) w u v
    → s w.db ≡ (ok tt, v.db)
unfolding run_script
run_script-ok s w u v (e, f) = go w.outcomes e f
  where
    told :
        (x : Result (Unit {0}) × Db) (z : World)
        → (ran x z).0 ≡ ok u
        → (ran x z).1 ≡ v
        → x ≡ (ok tt, v.db)
    told (ok _, db) z e f = rw (← f) refl
    told (err m, db) z e f = cc e

    go :
        (l : List Outcome)
        → (performed_script l s w).0 ≡ ok u
        → (performed_script l s w).1 ≡ v
        → s w.db ≡ (ok tt, v.db)
    go [] e f = told (s w.db) w e f
    go (fine ∷ l) e f = told (s w.db) (record w { outcomes = l }) e f
    go (refused m ∷ l) e f = cc e
    go (lost m ∷ l) e f = cc e
    go (cut n m ∷ l) e f = cc e

module _ (exec : String → Script) (read : String → Result String) where
  abbrev pub executed : Result (Unit {0}) × Db → Result Db
  executed (ok _, db) = ok db
  executed (err e, db) = err e

  abbrev pub file_on : Result String → Db → Result Db
  file_on (err e) db = err e
  file_on (ok sql) db = executed (exec sql db)

  abbrev pub and_then : Result Db → (Db → Result Db) → Result Db
  and_then (ok db) f = f db
  and_then (err e) f = err e

  -- the files one after the other, with no transaction and nothing that fails but a file
  abbrev pub apply_files : List String → Db → Result Db
  apply_files [] db = ok db
  apply_files (name ∷ names) db =
      and_then (file_on (read (String.◌++◌ "migrations/" name)) db) (apply_files names)

  -- a transaction that ends well has done the file, and one that fails has done it whole or not at all
  abbrev Done : Result String → Db → Result (Unit {0}) × World → Type 0
  Done file db (ok _, w) = file_on file db ≡ ok w.db
  Done file db (err e, w) = (w.db ≡ db) ⊎ (file_on file db ≡ ok w.db)

  committed-Done :
      (sql : String) (db : Db) (l : List Outcome) (w : World)
      → executed (exec sql db) ≡ ok w.db
      → Done (ok sql) db (committed l db w)
  committed-Done sql db [] w h = h
  committed-Done sql db (fine ∷ l) w h = h
  committed-Done sql db (refused e ∷ l) w h = inl refl
  committed-Done sql db (lost e ∷ l) w h = inr h
  committed-Done sql db (cut n e ∷ l) w h = inr h

  apply_sql-Done : (sql : String) (w : World) → Done (ok sql) w.db (apply_sql exec sql w)
  unfolding apply_sql
  apply_sql-Done sql w = go (body w).0 (body w).1 refl refl
    where
      body : Tx (Unit {0})
      body = query (λ db. tt {0}) >> run_script (exec sql)

      go :
          (r : Result (Unit {0})) (v : World)
          → (body w).0 ≡ r
          → (body w).1 ≡ v
          → Done (ok sql) w.db (ended w.db (r, v))
      go (err e) v h g = inl refl
      go (ok u) v h g =
          let (_, x, begun, rest) = Returns-bind (query (λ db. tt {0})) _ w u v (h, g) in
          let (_, same) = Returns-query (λ db. tt {0}) w tt x begun in
          let done = run_script-ok (exec sql) x u v rest in
          committed-Done sql w.db v.outcomes v (rw (same, done) refl)

  labelled-Done :
      (name : String) (file : Result String) (db : Db) (x : Result (Unit {0}) × World)
      → Done file db x
      → Done file db (labelled name x)
  labelled-Done name file db (ok u, w) h = h
  labelled-Done name file db (err e, w) h = h

  apply_file-Done :
      (name : String) (file : Result String) (w : World)
      → Done file w.db (apply_file exec name file w)
  unfolding apply_file
  apply_file-Done name (err e) w = inl refl
  apply_file-Done name (ok sql) w = labelled-Done name (ok sql) w.db _ (apply_sql-Done sql w)

  -- the tables are those after some of the files, and after all if it ends well
  abbrev pub IsMigrated : List String → Db → Result (Unit {0}) × World → Type 0
  IsMigrated names db (r, w) =
      (n : ℕ) × (apply_files (take n names) db ≡ ok w.db)
      × (r ≡ ok tt → apply_files names db ≡ ok w.db)

  entries-IsMigrated :
      (names : List String) (w : World) → IsMigrated names w.db (migrate_entries exec read names w)
  unfolding migrate_entries pure ◌>>=◌
  entries-IsMigrated [] w = (0, refl, λ e. refl)
  entries-IsMigrated (name ∷ names) w =
      go (λ v. entries-IsMigrated names v) (apply_file exec name file w)
        (apply_file-Done name file w)
    where
      file : Result String
      file = read (String.◌++◌ "migrations/" name)

      go :
          ((v : World) → IsMigrated names v.db (migrate_entries exec read names v))
          → (x : Result (Unit {0}) × World) → Done file w.db x
          → IsMigrated (name ∷ names) w.db (continue x.0 (λ _. migrate_entries exec read names) x.1)
      go rest (ok u, v) done =
          let (n, some_of, all_of) = rest v in (suc n, rw done some_of, λ e. rw done (all_of e))
      go rest (err e, v) (inl same) = (0, rw same refl, λ e. cc e)
      go rest (err e, v) (inr done) = (1, rw done refl, λ e. cc e)

  -- Whatever the database answers and wherever the migrations fail, also in the middle of a file, the tables afterwards are those
  -- after the first so many files, each of them done whole, in order; if there is no error, after all.
  pub migrate-IsMigrated :
      (names : List String) (w : World) → IsMigrated names w.db (migrate exec read (ok names) w)
  unfolding migrate
  migrate-IsMigrated names w = entries-IsMigrated names w
