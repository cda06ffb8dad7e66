-- ===== src/Tx/Respects.antt =====
-- Actions that respect a reflexive and transitive relation on the tables, whether they return or
-- fail: one rule for each way to build an action.
use cc_005_offline_inspectio.Base.{
  ap, inl, inr, Bool-cases, ◌≡◌, refl, String, Bool, true, false, if◌then◌else◌, List, [], ◌∷◌,
}
use mathlib.Core.Path.{subst}
use cc_005_offline_inspectio.Json.{Json}
use cc_005_offline_inspectio.Db.{Db}
use cc_005_offline_inspectio.Tx.{
  with_json, Result, ok, err, Outcome, fine, refused, lost, cut, World, Tx, pure, throw, Statement,
  performed, done, statement, query, listed_rows, query_rows, attempt, now, new_uuid, ◌>>=◌,
  continue,
}

pub ok_table :
    {A : Type 0} {a b : A} {x y : Db} → ◌≡◌ {A = Result (A × Db)} (ok (a, x)) (ok (b, y)) → x ≡ y
ok_table {A} {a} {b} {x} {y} e = ap (table x) e
  where
    table : Db → Result (A × Db) → Db
    table d (ok (_, t)) = t
    table d (err _) = d

pub record IsPreorder (R : Db → Db → Type 0) : Type 0 where
  pub self : (a : Db) → R a a
  pub through : (a b c : Db) → R a b → R b c → R a c

pub record Respects {A : Type 0} (R : Db → Db → Type 0) (m : Tx A) : Type 0 where
  pub at : (w : World) → R w.db (m w).1.db

module _ {A : Type 0} {R : Db → Db → Type 0} (p : IsPreorder R) where
  pub Respects-pure : (a : A) → Respects R (pure a)
  unfolding pure
  Respects-pure a = record { at = λ w. p.self w.db }

  pub Respects-throw : (e : String) → Respects R (throw {A = A} e)
  unfolding throw
  Respects-throw e = record { at = λ w. p.self w.db }

  Respects-done :
      (s : Statement A)
      → ((db : Db) (a : A) (db' : Db) → s db ≡ ok (a, db') → R db db')
      → (w : World) → R w.db (done (s w.db) w).1.db
  Respects-done s h w = go (s w.db) refl
    where
      go : (r : Result (A × Db)) → s w.db ≡ r → R w.db (done r w).1.db
      go (ok (a, db')) e = h w.db a db' e
      go (err e') e = p.self w.db

  pub Respects-statement :
      (s : Statement A)
      → ((db : Db) (a : A) (db' : Db) → s db ≡ ok (a, db') → R db db')
      → Respects R (statement s)
  unfolding statement
  Respects-statement s h = record { at = λ w. go w.outcomes w }
    where
      go : (l : List Outcome) (w : World) → R w.db (performed l s w).1.db
      go [] w = Respects-done s h w
      go (fine ∷ l) w = Respects-done s h (record w { outcomes = l })
      go (refused e ∷ l) w = p.self w.db
      go (lost e ∷ l) w = Respects-done s h (record w { outcomes = l })
      go (cut n e ∷ l) w = Respects-done s h (record w { outcomes = l })

  pub Respects-query : (q : Db → A) → Respects R (query q)
  unfolding query statement
  Respects-query q = record { at = λ w. go w.outcomes w }
    where
      go : (l : List Outcome) (w : World) → R w.db (performed l (λ db. ok (q db, db)) w).1.db
      go [] w = p.self w.db
      go (fine ∷ l) w = p.self w.db
      go (refused e ∷ l) w = p.self w.db
      go (lost e ∷ l) w = p.self w.db
      go (cut n e ∷ l) w = p.self w.db

  pub Respects-query_rows : (q : Db → List A) → Respects R (query_rows q)
  unfolding query_rows
  Respects-query_rows q = record { at = λ w. go w.outcomes w }
    where
      go : (l : List Outcome) (w : World) → R w.db (listed_rows l (q w.db) w).1.db
      go [] w = p.self w.db
      go (fine ∷ l) w = p.self w.db
      go (refused e ∷ l) w = p.self w.db
      go (lost e ∷ l) w = p.self w.db
      go (cut n e ∷ l) w = p.self w.db

  pub Respects-attempt : (m : Tx A) → Respects R m → Respects R (attempt m)
  unfolding attempt
  Respects-attempt m h = record { at = λ w. h.at w }

  pub Respects-if :
      (b : Bool) (m n : Tx A) → Respects R m → Respects R n → Respects R (if b then m else n)
  Respects-if true m n hm hn = hm
  Respects-if false m n hm hn = hn

module _ {R : Db → Db → Type 0} (p : IsPreorder R) where
  pub Respects-now : Respects R now
  unfolding now
  Respects-now = record { at = λ w. p.self w.db }

  pub Respects-new_uuid : Respects R new_uuid
  unfolding new_uuid
  Respects-new_uuid = record { at = λ w. p.self w.db }

module _ {A B : Type 0} {R : Db → Db → Type 0} (p : IsPreorder R) where
  Respects-continue :
      (r : Result A) (f : A → Tx B) → ((a : A) → Respects R (f a)) → Respects R (continue r f)
  Respects-continue (ok a) f h = h a
  Respects-continue (err e) f h = record { at = λ w. p.self w.db }

  pub Respects-bind :
      (m : Tx A) (f : A → Tx B) → Respects R m → ((a : A) → Respects R (f a)) → Respects R (m >>= f)
  unfolding ◌>>=◌
  Respects-bind m f hm hf = record {
    at = λ w.
        let (r, w') = m w in
        p.through w.db w'.db (continue r f w').1.db (hm.at w) ((Respects-continue r f hf).at w');
  }

module _ {R : Db → Db → Type 0} (p : IsPreorder R) where
  -- a statement that always succeeds
  pub Respects-run :
      {A : Type 0} (a : A) (g : Db → Db)
      → ((db : Db) → R db (g db))
      → Respects R (statement (λ db. ok (a, g db)))
  Respects-run a g h = Respects-statement p _ (λ db b db' e. subst (R db) (ok_table e) (h db))

  -- a statement that may break a constraint
  pub Respects-guarded :
      {A : Type 0} (bad : Db → Bool) (message : String) (a : A) (g : Db → Db)
      → ((db : Db) → bad db ≡ false → R db (g db))
      → Respects R (statement (λ db. if bad db then err message else ok (a, g db)))
  Respects-guarded bad message a g h = Respects-statement p _ λ db b db' e.
      elim (Bool-cases (bad db)) [
        | inl broken ↦ cc (rw broken at e)
        | inr kept ↦ subst (R db) (ok_table (rw kept at e)) (h db kept)
      ]

  -- a statement that may break two
  pub Respects-guarded_twice :
      {A : Type 0} (bad worse : Db → Bool) (m n : String) (a : A) (g : Db → Db)
      → ((db : Db) → bad db ≡ false → worse db ≡ false → R db (g db))
      → Respects R
          (statement (λ db. if bad db then err m else if worse db then err n else ok (a, g db)))
  Respects-guarded_twice bad worse m n a g h = Respects-statement p _ λ db b db' e.
      elim (Bool-cases (bad db)) [
        | inl broken ↦ cc (rw broken at e)
        | inr kept ↦ elim (Bool-cases (worse db)) [
          | inl broken ↦ cc (rw (kept, broken) at e)
          | inr held ↦ subst (R db) (ok_table (rw (kept, held) at e)) (h db kept held)
        ]
      ]

  -- a statement with an argument that is cast
  pub Respects-with_json :
      {A : Type 0} (r : Result Json) (s : Json → Statement A)
      → ((j : Json) → Respects R (statement (s j)))
      → Respects R (statement (with_json r s))
  Respects-with_json (ok j) s h = h j
  Respects-with_json (err e) s h = Respects-statement p _ (λ db b db' q. cc q)

-- one run of an action, whose answer is handed on
pub then_pure-R :
    {A B : Type 0} (R : Db → Db → Type 0) (m : Tx A) (f : A → B) (a : Db) (w : World)
    → R a (m w).1.db
    → R a ((m >>= λ x. pure (f x)) w).1.db
unfolding pure ◌>>=◌
then_pure-R {A} {B} R m f a w h = go (m w) h
  where
    go : (x : Result A × World) → R a x.1.db → R a (continue x.0 (λ y. pure (f y)) x.1).1.db
    go (ok y, v) h = h
    go (err e, v) h = h

pub ruleset respects_rules = (
  Respects-pure, Respects-throw, Respects-query, Respects-query_rows, Respects-if, Respects-now,
  Respects-new_uuid, Respects-bind,
)
