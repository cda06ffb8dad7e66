-- ===== src/Seed/Quiet.antt =====
-- A second run of the seed.
use cc_005_offline_inspectio.Base.{ℕ, String, Bool, true, List, [], ◌∷◌, ◌≡◌, refl, sym, ◌∙◌, arith}
use mathlib.Core.Path.{subst}
use cc_005_offline_inspectio.Base.Rows.{exists}
use cc_005_offline_inspectio.Json.{Json}
use cc_005_offline_inspectio.Models.{Field, field_eq, field_eq_iff}
use cc_005_offline_inspectio.Models.Outside.{Outside}
use cc_005_offline_inspectio.Db.{Db}
use cc_005_offline_inspectio.Tx.{Result, ok, err, Statement, with_json, statement, now, ◌>>=◌}
use cc_005_offline_inspectio.Tx.Respects.{
  IsPreorder, Respects, Respects-pure, Respects-throw, Respects-statement, Respects-now,
  Respects-bind, Respects-with_json,
}
use cc_005_offline_inspectio.Seed.{
  SeedUser, Sample, users, samples, insert_unless, user_there, inspection_there, rev_there,
  insert_hashed, seed_users, seed_inspection, seed_rev, seed_revs, seed_samples, seed,
}
use cc_005_offline_inspectio.Seed.Seeded.{UsersThere, SamplesThere, IsOrder, IsSeeded}

-- where `P` holds, nothing changes
abbrev pub Quietly : (Db → Type 0) → Db → Db → Type 0
Quietly P a b = P a → b ≡ a

module _ (P : Db → Type 0) where
  pub Quietly-IsPreorder : IsPreorder (Quietly P)
  Quietly-IsPreorder = record {
    self = λ a h. refl;
    through = λ a b c g k h. k (subst P (sym (g h)) h) ∙ g h;
  }

  unless-quiet :
      (there : Db → Bool) (s : Statement (Unit {0}))
      → ((db : Db) → P db → there db ≡ true)
      → Respects (Quietly P) (statement (insert_unless there s))
  unless-quiet there s h =
      Respects-statement Quietly-IsPreorder _ (λ db u db' e p. cc (rw (h db p) at e))

  insert_hashed-quiet :
      (u : SeedUser) (r : Result String)
      → ((db : Db) → P db → user_there u.username db ≡ true)
      → Respects (Quietly P) (insert_hashed u r)
  unfolding insert_hashed
  insert_hashed-quiet u (err e) h = Respects-throw Quietly-IsPreorder e
  insert_hashed-quiet u (ok p) h = unless-quiet (user_there u.username) _ h

  seed_users-quiet :
      (hash : ℕ → String → Result String) (us : List SeedUser)
      → ((db : Db) → P db → UsersThere us db)
      → Respects (Quietly P) (seed_users hash us)
  unfolding seed_users
  seed_users-quiet hash [] h = Respects-pure Quietly-IsPreorder tt
  seed_users-quiet hash (u ∷ us) h =
      Respects-bind Quietly-IsPreorder _ _
        (insert_hashed-quiet u (hash u.id u.password) (λ db p. (h db p).0))
        (λ _. seed_users-quiet hash us (λ db p. (h db p).1))

  module _ (o : Outside) where
    cast-quiet :
        (there : Db → Bool) (r : Result Json) (s : ℕ → Json → Statement (Unit {0}))
        → ((db : Db) → P db → there db ≡ true)
        → Respects
            (Quietly P)
            (now >>= λ at. statement (with_json r (λ j. insert_unless there (s at j))))
    cast-quiet there r s h =
        Respects-bind Quietly-IsPreorder now _ (Respects-now Quietly-IsPreorder)
          (λ at. Respects-with_json Quietly-IsPreorder r _ (λ j. unless-quiet there (s at j) h))

    seed_revs-quiet :
        (s : Sample) (fs : List Field)
        → ((db : Db) (f : Field)
            → P db
            → exists (field_eq f) fs ≡ true
            → rev_there s.id f db ≡ true)
        → Respects (Quietly P) (seed_revs o s fs)
    unfolding seed_revs seed_rev exists
    seed_revs-quiet s [] h = Respects-pure Quietly-IsPreorder tt
    seed_revs-quiet s (f ∷ fs) h =
        Respects-bind Quietly-IsPreorder _ _
          (cast-quiet (rev_there s.id f) _ _
            (λ db p. h db f p (rw ((field_eq_iff f f).1 refl) refl)))
          (λ _. seed_revs-quiet s fs (λ db g p e. h db g p (ground (arith, e))))

    seed_samples-quiet :
        (order : ℕ → List Field) (ss : List Sample)
        → IsOrder order
        → ((db : Db) → P db → SamplesThere ss db)
        → Respects (Quietly P) (seed_samples o order ss)
    unfolding seed_samples seed_inspection
    seed_samples-quiet order [] six h = Respects-pure Quietly-IsPreorder tt
    seed_samples-quiet order (s ∷ ss) six h =
        Respects-bind Quietly-IsPreorder _ _
          (Respects-bind Quietly-IsPreorder _ _
            (cast-quiet (inspection_there s.id) _ _ (λ db p. ((h db p).0).0))
            (λ _.
              seed_revs-quiet s (order s.id) (λ db f p e. ((h db p).0).1 f (sym (six s.id f) ∙ e))))
          (λ _. seed_samples-quiet order ss six (λ db p. (h db p).1))

-- Where everything that the seed inserts is there, a run of it changes no table, whichever of its
-- statements fail.
pub seed-Quietly :
    (o : Outside) (hash : ℕ → String → Result String) (order : ℕ → List Field)
    → IsOrder order
    → Respects (Quietly (IsSeeded o)) (seed o hash order)
unfolding seed
seed-Quietly o hash order six =
    Respects-bind (Quietly-IsPreorder (IsSeeded o)) _ _
      (seed_users-quiet (IsSeeded o) hash users (λ db p. p.0))
      (λ _. seed_samples-quiet (IsSeeded o) o order samples six (λ db p. p.1))
