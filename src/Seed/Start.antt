-- ===== src/Seed/Start.antt =====
-- The seed on a database that answers.
use cc_005_offline_inspectio.Base.{
  ℕ, String, true, List, [], ◌∷◌, ◌≡◌, refl, ◌==◌, ◌⊎◌, inl, inr, Bool-cases, some,
}
use cc_005_offline_inspectio.Base.Rows.{exists, insert}
use cc_005_offline_inspectio.Json.{Json, arr}
use cc_005_offline_inspectio.Models.{Field, checked_items}
use cc_005_offline_inspectio.Models.Outside.{Outside}
use cc_005_offline_inspectio.Db.{Db, User}
use cc_005_offline_inspectio.Tx.{Result, ok, World}
use cc_005_offline_inspectio.Tx.Inversion.{Returns}
use cc_005_offline_inspectio.Tx.Succeeds.{
  Succeeds, Succeeds-pure, Succeeds-statement, Succeeds-now, Succeeds-then,
}
use cc_005_offline_inspectio.Sync.Statements.{to_jsonb}
use cc_005_offline_inspectio.Seed.{
  SeedUser, Sample, alice, bob, users, samples, insert_unless, user_there, inspection_there,
  rev_there, insert_user, new_user, insert_hashed, seed_users, sample_row, new_rev, value_of,
  seed_inspection, seed_rev, seed_revs, seed_samples, seed,
}
use cc_005_offline_inspectio.Seed.Seeded.{IsOrder, IsSeeded, seed-IsSeeded}

-- bcrypt hashes the passwords
abbrev pub Hashes : (ℕ → String → Result String) → Type 0
Hashes hash = (n : ℕ) (p : String) → (h : String) × (hash n p ≡ ok h)

-- jsonb takes the values of the samples
abbrev pub Takes : Outside → List Sample → Type 0
Takes o [] = Unit
Takes o (s ∷ ss) = ((f : Field) → (k : Json) × (o.jsonb (value_of s f) ≡ some k)) × Takes o ss

-- the rows of alice and bob, with these hashes of their passwords
abbrev pub both : String → String → List User
both a b = new_user alice a ∷ new_user bob b ∷ []

abbrev pub HasBoth : Db → Type 0
HasBoth db = (a : String) × (b : String) × (db.users ≡ both a b)

abbrev HasAlice : Db → Type 0
HasAlice db = ((a : String) × (db.users ≡ new_user alice a ∷ [])) ⊎ HasBoth db

-- no users yet, or those of an earlier seed
abbrev pub IsFresh : Db → Type 0
IsFresh db = (db.users ≡ []) ⊎ HasBoth db

-- the statement for a user adds its row, or finds it
abbrev Enters : SeedUser → String → Db → List User → Type 0
Enters u h db us =
    (db' : Db) × (insert_unless (user_there u.username) (insert_user (new_user u h)) db
      ≡ ok (tt, db'))
    × (db'.users ≡ us)

insert_hashed-Succeeds :
    (P Q : Db → Type 0) (u : SeedUser) (h : String)
    → ((db : Db) → P db → (us : List User) × Enters u h db us × ((d : Db) → d.users ≡ us → Q d))
    → Succeeds P Q (insert_hashed u (ok h))
unfolding insert_hashed
insert_hashed-Succeeds P Q u h f =
    Succeeds-statement P Q _ (λ db p. let (us, (db', done, e), q) = f db p in (db', done, q db' e))

alice-Enters :
    (h : String) (db : Db)
    → IsFresh db
    → (us : List User) × Enters alice h db us × ((d : Db) → d.users ≡ us → HasAlice d)
unfolding exists
alice-Enters h db (inl e) = (
  new_user alice h ∷ [],
  (record db { users = insert (new_user alice h) db.users }, rw e refl, rw e refl),
  λ d same. inl (h, same),
)
alice-Enters h db (inr (a, b, e)) = (both a b, (db, rw e refl, e), λ d same. inr (a, b, same))

bob-Enters :
    (h : String) (db : Db)
    → HasAlice db
    → (us : List User) × Enters bob h db us × ((d : Db) → d.users ≡ us → HasBoth d)
unfolding exists
bob-Enters h db (inl (a, e)) = (
  both a h,
  (record db { users = insert (new_user bob h) db.users }, rw e refl, rw e refl),
  λ d same. (a, h, same),
)
bob-Enters h db (inr (a, b, e)) = (both a b, (db, rw e refl, e), λ d same. (a, b, same))

seed_users-Succeeds :
    (hash : ℕ → String → Result String)
    → Hashes hash
    → Succeeds IsFresh HasBoth (seed_users hash users)
unfolding seed_users
seed_users-Succeeds hash hashes =
    let (a, done) = hashes alice.id alice.password in
    let (b, too) = hashes bob.id bob.password in
    Succeeds-then IsFresh HasAlice HasBoth _ _
      (rw done (insert_hashed-Succeeds IsFresh HasAlice alice a (alice-Enters a)))
      (Succeeds-then HasAlice HasBoth HasBoth _ _
        (rw too (insert_hashed-Succeeds HasAlice HasBoth bob b (bob-Enters b)))
        (Succeeds-pure HasBoth))

-- the users are these
abbrev Are : List User → Db → Type 0
Are us db = db.users ≡ us

-- the owners of the samples are users
abbrev OwnersIn : List User → List Sample → Type 0
OwnersIn us [] = Unit
OwnersIn us (s ∷ ss) = (exists (λ u. u.id == s.owner) us ≡ true) × OwnersIn us ss

cast_done : (o : Outside) (j k : Json) → o.jsonb j ≡ some k → to_jsonb o (some j) ≡ ok k
unfolding to_jsonb
cast_done o j k e = rw (e, to_jsonb) refl

module _ (o : Outside) (us : List User) where
  seed_inspection-Succeeds :
      (s : Sample)
      → ((f : Field) → (k : Json) × (o.jsonb (value_of s f) ≡ some k))
      → exists (λ u. u.id == s.owner) us ≡ true
      → Succeeds (Are us) (Are us) (seed_inspection o s)
  unfolding seed_inspection
  seed_inspection-Succeeds s takes owner =
      let (k, taken) = takes checked_items in
      let cast = cast_done o (arr s.items) k taken in
      Succeeds-now _ _ _ (λ at. Succeeds-statement _ _ _ (λ db e.
        elim (Bool-cases (inspection_there s.id db)) [
          | inl there ↦ (db, rw (cast, there) refl, e)
          | inr new ↦ (
            record db { inspections = insert (sample_row s at k) db.inspections },
            rw (cast, new, e, owner) refl,
            e,
          )
        ]))

  seed_rev-Succeeds :
      (s : Sample) (f : Field)
      → ((f : Field) → (k : Json) × (o.jsonb (value_of s f) ≡ some k))
      → Succeeds (Are us) (Are us) (seed_rev o s f)
  unfolding seed_rev
  seed_rev-Succeeds s f takes =
      let (k, taken) = takes f in
      let cast = cast_done o (value_of s f) k taken in
      Succeeds-now _ _ _ (λ at. Succeeds-statement _ _ _ (λ db e.
        elim (Bool-cases (rev_there s.id f db)) [
          | inl there ↦ (db, rw (cast, there) refl, e)
          | inr new ↦ (
            record db { field_revs = insert (new_rev o s f at k) db.field_revs },
            rw (cast, new) refl,
            e,
          )
        ]))

  seed_revs-Succeeds :
      (s : Sample) (fs : List Field)
      → ((f : Field) → (k : Json) × (o.jsonb (value_of s f) ≡ some k))
      → Succeeds (Are us) (Are us) (seed_revs o s fs)
  unfolding seed_revs
  seed_revs-Succeeds s [] takes = Succeeds-pure _
  seed_revs-Succeeds s (f ∷ fs) takes =
      Succeeds-then _ _ _ _ _ (seed_rev-Succeeds s f takes) (seed_revs-Succeeds s fs takes)

  seed_samples-Succeeds :
      (order : ℕ → List Field) (ss : List Sample)
      → Takes o ss
      → OwnersIn us ss
      → Succeeds (Are us) (Are us) (seed_samples o order ss)
  unfolding seed_samples
  seed_samples-Succeeds order [] takes owners = Succeeds-pure _
  seed_samples-Succeeds order (s ∷ ss) (here, more) (owner, owners) =
      Succeeds-then _ _ _ _ _
        (Succeeds-then _ _ _ _ _ (seed_inspection-Succeeds s here owner)
          (seed_revs-Succeeds s (order s.id) here))
        (seed_samples-Succeeds order ss more owners)

owners_in : (a b : String) → OwnersIn (both a b) samples
unfolding exists
owners_in a b = (refl, (refl, (refl, tt)))

-- On a database that answers, with no users yet or with those of an earlier seed, the seed returns if
-- bcrypt hashes the passwords and jsonb takes the values of the samples: then exactly alice and bob
-- are users, and every sample is there with the lineage of its editable fields.
pub seed-returns :
    (o : Outside) (hash : ℕ → String → Result String) (order : ℕ → List Field) (w : World)
    → IsOrder order
    → Hashes hash
    → Takes o samples
    → w.outcomes ≡ []
    → IsFresh w.db
    → (w' : World) × Returns (seed o hash order) w tt w' × HasBoth w'.db × IsSeeded o w'.db
unfolding seed
seed-returns o hash order w six hashes takes calm fresh =
    let in_both : Succeeds HasBoth HasBoth (seed_samples o order samples) = record {
      run = λ v calm has.
          let (a, b, e) = has in
          let (v', done, still, e') =
            (seed_samples-Succeeds o (both a b) order samples takes (owners_in a b)).run v calm e in
          (v', done, still, (a, b, e'));
    } in
    let whole =
      Succeeds-then IsFresh HasBoth HasBoth _ _ (seed_users-Succeeds hash hashes) in_both in
    let (w', done, still, has) = whole.run w calm fresh in
    (w', done, has, seed-IsSeeded o hash order w w' six done)
