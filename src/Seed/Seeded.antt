-- ===== src/Seed/Seeded.antt =====
-- What is there after a run of the seed that comes to its end.
use cc_005_offline_inspectio.Base.{ℕ, String, true, List, [], ◌∷◌, ◌≡◌, ◌∙◌, inl, inr, Bool-cases}
use cc_005_offline_inspectio.Base.Rows.{exists}
use cc_005_offline_inspectio.Models.{Field, field_eq, field_eq_iff, editable}
use cc_005_offline_inspectio.Models.Outside.{Outside}
use cc_005_offline_inspectio.Db.{Db}
use cc_005_offline_inspectio.Tx.{Result, ok, err, World, ◌>>◌}
use cc_005_offline_inspectio.Tx.Inversion.{Returns}
use cc_005_offline_inspectio.Seed.{
  SeedUser, Sample, users, samples, user_there, inspection_there, rev_there, new_user,
  insert_hashed, seed_users, seed_inspection, seed_rev, seed_revs, seed_samples, seed,
}
use cc_005_offline_inspectio.Seed.Adds.{
  Grows, Is, Sets, user-Adds, inspection-Adds, rev-Adds, unless-Adds, with_json-Adds,
  statement-Sets, now-Sets, then-Sets, pure-Sets, throw-Sets, weaken-Sets,
}

-- the users are there
abbrev pub UsersThere : List SeedUser → Db → Type 0
UsersThere [] db = Unit
UsersThere (u ∷ us) db = (user_there u.username db ≡ true) × UsersThere us db

abbrev pub RevsThere : ℕ → List Field → Db → Type 0
RevsThere id [] db = Unit
RevsThere id (f ∷ fs) db = (rev_there id f db ≡ true) × RevsThere id fs db

-- an inspection is there with the lineage of its editable fields
abbrev pub SampleThere : ℕ → Db → Type 0
SampleThere id db =
    (inspection_there id db ≡ true) × ((f : Field) → editable f ≡ true → rev_there id f db ≡ true)

abbrev pub SamplesThere : List Sample → Db → Type 0
SamplesThere [] db = Unit
SamplesThere (s ∷ ss) db = SampleThere s.id db × SamplesThere ss db

-- the order of a range over the map of the six fields
abbrev pub IsOrder : (ℕ → List Field) → Type 0
IsOrder order = (i : ℕ) (f : Field) → exists (field_eq f) (order i) ≡ editable f

insert_hashed-Sets :
    (u : SeedUser) (r : Result String) → Sets (Is (user_there u.username)) (insert_hashed u r)
unfolding insert_hashed
insert_hashed-Sets u (err e) = throw-Sets _ e
insert_hashed-Sets u (ok h) =
    statement-Sets (user_there u.username) _ (unless-Adds _ _ (user-Adds (new_user u h)))

seed_users-Sets :
    (hash : ℕ → String → Result String) (us : List SeedUser)
    → Sets (UsersThere us) (seed_users hash us)
unfolding seed_users
seed_users-Sets hash [] = pure-Sets _ (λ db. tt)
seed_users-Sets hash (u ∷ us) =
    then-Sets (Is (user_there u.username)) (UsersThere us) _ _
      (λ a b g h. g.users_stay u.username h) (insert_hashed-Sets u (hash u.id u.password))
      (seed_users-Sets hash us)

revs_there :
    (id : ℕ) (fs : List Field) (f : Field) (db : Db)
    → RevsThere id fs db
    → exists (field_eq f) fs ≡ true
    → rev_there id f db ≡ true
unfolding exists
revs_there id [] f db h e = cc e
revs_there id (g ∷ gs) f db (here, more) e = elim (Bool-cases (field_eq f g)) [
  | inl k ↦ let same : f ≡ g = (field_eq_iff f g).0 k in rw same here
  | inr k ↦ revs_there id gs f db more (rw k at e)
]

SampleThere-stays : (id : ℕ) (a b : Db) → Grows a b → SampleThere id a → SampleThere id b
SampleThere-stays id a b g (row, revs) =
    (g.inspections_stay id row, λ f e. g.revs_stay id f (revs f e))

UsersThere-stays : (us : List SeedUser) (a b : Db) → Grows a b → UsersThere us a → UsersThere us b
UsersThere-stays [] a b g h = tt
UsersThere-stays (u ∷ us) a b g (here, more) =
    (g.users_stay u.username here, UsersThere-stays us a b g more)

SamplesThere-stays :
    (ss : List Sample) (a b : Db) → Grows a b → SamplesThere ss a → SamplesThere ss b
SamplesThere-stays [] a b g h = tt
SamplesThere-stays (s ∷ ss) a b g (here, more) =
    (SampleThere-stays s.id a b g here, SamplesThere-stays ss a b g more)

module _ (o : Outside) where
  seed_inspection-Sets : (s : Sample) → Sets (Is (inspection_there s.id)) (seed_inspection o s)
  unfolding seed_inspection
  seed_inspection-Sets s = now-Sets _ _ (λ at.
      statement-Sets (inspection_there s.id) _
        (with_json-Adds _ _ _ (λ j. unless-Adds _ _ (inspection-Adds s at j))))

  seed_rev-Sets : (s : Sample) (f : Field) → Sets (Is (rev_there s.id f)) (seed_rev o s f)
  unfolding seed_rev
  seed_rev-Sets s f = now-Sets _ _ (λ at.
      statement-Sets (rev_there s.id f) _
        (with_json-Adds _ _ _ (λ j. unless-Adds _ _ (rev-Adds o s f at j))))

  seed_revs-Sets : (s : Sample) (fs : List Field) → Sets (RevsThere s.id fs) (seed_revs o s fs)
  unfolding seed_revs
  seed_revs-Sets s [] = pure-Sets _ (λ db. tt)
  seed_revs-Sets s (f ∷ fs) =
      then-Sets (Is (rev_there s.id f)) (RevsThere s.id fs) _ _ (λ a b g h. g.revs_stay s.id f h)
        (seed_rev-Sets s f) (seed_revs-Sets s fs)

  sample-Sets :
      (s : Sample) (fs : List Field)
      → ((f : Field) → exists (field_eq f) fs ≡ editable f)
      → Sets (SampleThere s.id) (seed_inspection o s >> seed_revs o s fs)
  sample-Sets s fs six =
      weaken-Sets _ (SampleThere s.id) _
        (λ db h. (h.0, λ f e. revs_there s.id fs f db h.1 (six f ∙ e)))
        (then-Sets (Is (inspection_there s.id)) (RevsThere s.id fs) _ _
          (λ a b g h. g.inspections_stay s.id h) (seed_inspection-Sets s) (seed_revs-Sets s fs))

  seed_samples-Sets :
      (order : ℕ → List Field) (ss : List Sample)
      → IsOrder order
      → Sets (SamplesThere ss) (seed_samples o order ss)
  unfolding seed_samples
  seed_samples-Sets order [] six = pure-Sets _ (λ db. tt)
  seed_samples-Sets order (s ∷ ss) six =
      then-Sets (SampleThere s.id) (SamplesThere ss) _ _ (SampleThere-stays s.id)
        (sample-Sets s (order s.id) (six s.id)) (seed_samples-Sets order ss six)

  -- everything that the seed inserts is there
  abbrev pub IsSeeded : Db → Type 0
  IsSeeded db = UsersThere users db × SamplesThere samples db

  seed-Sets :
      (hash : ℕ → String → Result String) (order : ℕ → List Field)
      → IsOrder order
      → Sets IsSeeded (seed o hash order)
  unfolding seed
  seed-Sets hash order six =
      then-Sets (UsersThere users) (SamplesThere samples) _ _ (UsersThere-stays users)
        (seed_users-Sets hash users) (seed_samples-Sets order samples six)

pub seed-IsSeeded :
    (o : Outside) (hash : ℕ → String → Result String) (order : ℕ → List Field) (w w' : World)
    → IsOrder order
    → Returns (seed o hash order) w tt w'
    → IsSeeded o w'.db
seed-IsSeeded o hash order w w' six done = (seed-Sets o hash order six).sets w w' done

pub IsSeeded-stays : (o : Outside) (a b : Db) → Grows a b → IsSeeded o a → IsSeeded o b
IsSeeded-stays o a b g (there, rows) =
    (UsersThere-stays users a b g there, SamplesThere-stays samples a b g rows)
