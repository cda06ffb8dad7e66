-- ===== src/Seed/Adds.antt =====
-- What the statements of the seed leave in the tables.
use cc_005_offline_inspectio.Base.{
  ℕ, String, Bool, true, List, [], ◌∷◌, str_eq, ◌==◌, ◌≡◌, refl, inl, inr, Bool-cases, arith,
  ==_iff,
}
use text.Mathlib.TextPositions.{eq_refl}
use mathlib.Core.Path.{subst}
use cc_005_offline_inspectio.Base.Rows.{exists, insert}
use cc_005_offline_inspectio.Json.{Json}
use cc_005_offline_inspectio.Models.{Field, field_eq_iff}
use cc_005_offline_inspectio.Models.Outside.{Outside}
use cc_005_offline_inspectio.Db.{Db, User, has_id, of_field}
use cc_005_offline_inspectio.Tx.{
  Result, ok, err, World, Tx, Statement, with_json, pure, throw, statement, now, ◌>>=◌, ◌>>◌,
}
use cc_005_offline_inspectio.Tx.Respects.{
  IsPreorder, Respects, Respects-pure, Respects-throw, Respects-statement, Respects-now,
  Respects-bind,
}
use cc_005_offline_inspectio.Tx.Inversion.{Returns, Returns-bind, Returns-statement, throw_fails}
use cc_005_offline_inspectio.Sync.Statements.{insert_inspection, insert_rev}
use cc_005_offline_inspectio.Seed.{
  Sample, insert_unless, user_there, inspection_there, rev_there, insert_user, sample_row, new_rev,
}

-- what is there stays there
pub record Grows (a b : Db) : Type 0 where
  pub users_stay : (n : String) → user_there n a ≡ true → user_there n b ≡ true
  pub inspections_stay : (i : ℕ) → inspection_there i a ≡ true → inspection_there i b ≡ true
  pub revs_stay : (i : ℕ) (f : Field) → rev_there i f a ≡ true → rev_there i f b ≡ true

pub Grows-IsPreorder : IsPreorder Grows
Grows-IsPreorder = record {
  self = λ a. record { users_stay = λ n h. h; inspections_stay = λ i h. h; revs_stay = λ i f h. h };
  through = λ a b c g k. record {
    users_stay = λ n h. k.users_stay n (g.users_stay n h);
    inspections_stay = λ i h. k.inspections_stay i (g.inspections_stay i h);
    revs_stay = λ i f h. k.revs_stay i f (g.revs_stay i f h);
  };
}

module _ {A : Type 0} where
  pub exists-insert_stays :
      (p : A → Bool) (x : A) (xs : List A) → exists p xs ≡ true → exists p (insert x xs) ≡ true
  unfolding exists
  exists-insert_stays p x [] h = cc h
  exists-insert_stays p x (y ∷ ys) h = ground (arith, exists-insert_stays p x ys)

  exists-insert_new :
      (p : A → Bool) (x : A) (xs : List A) → p x ≡ true → exists p (insert x xs) ≡ true
  unfolding exists
  exists-insert_new p x [] h = rw h refl
  exists-insert_new p x (y ∷ ys) h = ground (arith, exists-insert_new p x ys h)

-- a statement that adds rows, and after which `there` holds
pub record Adds (there : Db → Bool) (s : Statement (Unit {0})) : Type 0 where
  pub adds : (db db' : Db) → s db ≡ ok (tt, db') → Grows db db' × (there db' ≡ true)

pub user-Adds : (u : User) → Adds (user_there u.username) (insert_user u)
user-Adds u = record {
  adds = λ db db' h. elim (Bool-cases (exists (λ v. v.id == u.id) db.users)) [
    | inl e ↦ cc (rw e at h)
    | inr e ↦
        let same : record db { users = insert u db.users } ≡ db' = cc (rw e at h) in
        subst (λ x. Grows db x × (user_there u.username x ≡ true)) same
          (
            record {
              users_stay = λ n. exists-insert_stays (λ v. str_eq v.username n) u db.users;
              inspections_stay = λ i k. k;
              revs_stay = λ i f k. k;
            },
            exists-insert_new (λ v. str_eq v.username u.username) u db.users (eq_refl u.username),
          )
  ];
}

pub inspection-Adds :
    (s : Sample) (at : ℕ) (j : Json)
    → Adds (inspection_there s.id) (insert_inspection (sample_row s at j))
inspection-Adds s at j =
    let r = sample_row s at j in
    record {
      adds = λ db db' h. elim (Bool-cases (exists (has_id s.id) db.inspections)) [
        | inl e ↦ cc (rw e at h)
        | inr e ↦ elim (Bool-cases (exists (λ u. u.id == s.owner) db.users)) [
          | inr f ↦ cc (rw (e, f) at h)
          | inl f ↦
              let same : record db { inspections = insert r db.inspections } ≡ db' =
                cc (rw (e, f) at h) in
              subst (λ x. Grows db x × (inspection_there s.id x ≡ true)) same
                (
                  record {
                    users_stay = λ n k. k;
                    inspections_stay = λ i. exists-insert_stays (has_id i) r db.inspections;
                    revs_stay = λ i f k. k;
                  },
                  exists-insert_new (has_id s.id) r db.inspections ((==_iff s.id s.id).1 refl),
                )
        ]
      ];
    }

pub rev-Adds :
    (o : Outside) (s : Sample) (f : Field) (at : ℕ) (j : Json)
    → Adds (rev_there s.id f) (insert_rev (new_rev o s f at j))
rev-Adds o s f at j =
    let r = new_rev o s f at j in
    record {
      adds = λ db db' h. elim (Bool-cases (exists (of_field s.id f) db.field_revs)) [
        | inl e ↦ cc (rw e at h)
        | inr e ↦
            let same : record db { field_revs = insert r db.field_revs } ≡ db' = cc (rw e at h) in
            subst (λ x. Grows db x × (rev_there s.id f x ≡ true)) same
              (
                record {
                  users_stay = λ n k. k;
                  inspections_stay = λ i k. k;
                  revs_stay = λ i g. exists-insert_stays (of_field i g) r db.field_revs;
                },
                exists-insert_new (of_field s.id f) r db.field_revs
                    (rw ((==_iff s.id s.id).1 refl, (field_eq_iff f f).1 refl) refl),
              )
      ];
    }

pub unless-Adds :
    (there : Db → Bool) (s : Statement (Unit {0}))
    → Adds there s
    → Adds there (insert_unless there s)
unless-Adds there s a = record {
  adds = λ db db' h. elim (Bool-cases (there db)) [
    | inl e ↦
        let same : db ≡ db' = cc (rw e at h) in
        subst (λ x. Grows db x × (there x ≡ true)) same (Grows-IsPreorder.self db, e)
    | inr e ↦ a.adds db db' (rw e at h)
  ];
}

pub with_json-Adds :
    (there : Db → Bool) (r : Result Json) (s : Json → Statement (Unit {0}))
    → ((j : Json) → Adds there (s j))
    → Adds there (with_json r s)
with_json-Adds there (ok j) s a = a j
with_json-Adds there (err e) s a = record { adds = λ db db' h. cc h }

-- an action that adds rows, and after which `P` holds
pub record Sets (P : Db → Type 0) (m : Tx (Unit {0})) : Type 0 where
  pub sets : (w w' : World) → Returns m w tt w' → P w'.db
  pub growing : Respects Grows m

abbrev pub Is : (Db → Bool) → Db → Type 0
Is there db = there db ≡ true

pub statement-Sets :
    (there : Db → Bool) (s : Statement (Unit {0})) → Adds there s → Sets (Is there) (statement s)
statement-Sets there s a = record {
  sets = λ w w' h. (a.adds w.db w'.db (Returns-statement s w tt w' h)).1;
  growing = Respects-statement Grows-IsPreorder s (λ db u db' h. (a.adds db db' h).0);
}

pub now-Sets :
    (P : Db → Type 0) (f : ℕ → Tx (Unit {0})) → ((at : ℕ) → Sets P (f at)) → Sets P (now >>= f)
now-Sets P f h = record {
  sets = λ w w' r. let (at, v, _, rest) = Returns-bind now f w tt w' r in (h at).sets v w' rest;
  growing =
      Respects-bind Grows-IsPreorder now f (Respects-now Grows-IsPreorder) (λ at. (h at).growing);
}

pub then-Sets :
    (P Q : Db → Type 0) (m n : Tx (Unit {0}))
    → ((a b : Db) → Grows a b → P a → P b)
    → Sets P m
    → Sets Q n
    → Sets (λ db. P db × Q db) (m >> n)
then-Sets P Q m n stable hm hn = record {
  sets = λ w w' r.
      let (_, v, first_run, rest) = Returns-bind m (λ _. n) w tt w' r in
      (
        stable v.db w'.db (subst (λ (x : World). Grows v.db x.db) rest.1 (hn.growing.at v))
            (hm.sets w v first_run),
        hn.sets v w' rest,
      );
  growing = Respects-bind Grows-IsPreorder m (λ _. n) hm.growing (λ _. hn.growing);
}

pub pure-Sets : (P : Db → Type 0) → ((db : Db) → P db) → Sets P (pure tt)
pure-Sets P h = record { sets = λ w w' r. h w'.db; growing = Respects-pure Grows-IsPreorder tt }

pub throw-Sets : (P : Db → Type 0) (e : String) → Sets P (throw e)
throw-Sets P e = record {
  sets = λ w w' r. absurd (throw_fails e tt w w' r);
  growing = Respects-throw Grows-IsPreorder e;
}

pub weaken-Sets :
    (P Q : Db → Type 0) (m : Tx (Unit {0})) → ((db : Db) → P db → Q db) → Sets P m → Sets Q m
weaken-Sets P Q m f h = record { sets = λ w w' r. f w'.db (h.sets w w' r); growing = h.growing }
