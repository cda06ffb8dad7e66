-- ===== src/Tx/Inversion.antt =====
-- What a successful action has done, by the way it is built.
use cc_005_offline_inspectio.Base.{
  ℕ, true, false, ◌≡◌, ◌⊎◌, inl, inr, refl, ap, ◌∙◌, String, List, [], ◌∷◌,
}
use cc_005_offline_inspectio.Base.Rows.{take}
use cc_005_offline_inspectio.Db.{Db}
use cc_005_offline_inspectio.Tx.{
  Result, ok, err, Outcome, fine, refused, lost, cut, World, Tx, Statement, performed, done, pure,
  throw, statement, query, listed_rows, query_rows, breaks, attempt, ◌>>=◌, continue,
}

-- an action's result and the world that it leaves
abbrev pub Returns {ℓ} : {A : Type ℓ} → Tx A → World → A → World → Type ℓ
Returns m w a w' = (m w).0 ≡ ok a × ((m w).1 ≡ w')

module _ {A : Type 0} where
  abbrev value_or : A → Result (A × Db) → A
  value_or x (ok (a, _)) = a
  value_or x (err _) = x

  abbrev pub table_or : Db → Result (A × Db) → Db
  table_or x (ok (_, db)) = db
  table_or x (err _) = x

  pub Returns-pure : (a b : A) (w w' : World) → Returns (pure a) w b w' → (a ≡ b) × (w ≡ w')
  unfolding pure
  Returns-pure a b w w' (e, f) = (cc e, f)

  done-ok :
      (s : Statement A) (w : World) (r : Result (A × Db)) (a : A) (w' : World)
      → (done r w).0 ≡ ok a
      → (done r w).1 ≡ w'
      → r ≡ ok (a, w'.db)
  done-ok s w (ok (b, db)) a w' e f = cc (e, ap (λ (v : World). v.db) f)
  done-ok s w (err m) a w' e f = cc e

  -- a statement that succeeds did its work on the tables
  pub Returns-statement :
      (s : Statement A) (w : World) (a : A) (w' : World)
      → Returns (statement s) w a w'
      → s w.db ≡ ok (a, w'.db)
  unfolding statement
  Returns-statement s w a w' (e, f) = go w.outcomes e f
    where
      go :
          (l : List Outcome)
          → (performed l s w).0 ≡ ok a
          → (performed l s w).1 ≡ w'
          → s w.db ≡ ok (a, w'.db)
      go [] e f = done-ok s w (s w.db) a w' e f
      go (fine ∷ l) e f = done-ok s (record w { outcomes = l }) (s w.db) a w' e f
      go (refused m ∷ l) e f = cc e
      go (lost m ∷ l) e f = cc e
      go (cut n m ∷ l) e f = cc e

  pub Returns-query :
      (q : Db → A) (w : World) (a : A) (w' : World)
      → Returns (query q) w a w'
      → (q w.db ≡ a) × (w.db ≡ w'.db)
  unfolding query
  Returns-query q w a w' h =
      let e = Returns-statement (λ db. ok (q db, db)) w a w' h in
      (ap (value_or (q w.db)) e, ap (table_or w.db) e)

  pub Returns-attempt :
      (m : Tx A) (w : World) (r : Result A) (w' : World)
      → Returns (attempt m) w r w'
      → ((m w).0 ≡ r) × ((m w).1 ≡ w')
  unfolding attempt
  Returns-attempt m w r w' (e, f) = (cc e, f)

module _ {A B : Type 0} where
  pub Returns-bind :
      (m : Tx A) (f : A → Tx B) (w : World) (b : B) (w' : World)
      → Returns (m >>= f) w b w'
      → (a : A) × (v : World) × Returns m w a v × Returns (f a) v b w'
  unfolding ◌>>=◌
  Returns-bind m f w b w' (e, g) = go (m w).0 refl e g
    where
      go :
          (r : Result A)
          → (m w).0 ≡ r
          → (continue r f (m w).1).0 ≡ ok b
          → (continue r f (m w).1).1 ≡ w'
          → (a : A) × (v : World) × Returns m w a v × Returns (f a) v b w'
      go (ok a) h e g = (a, (m w).1, (h, refl), (e, g))
      go (err x) h e g = cc e

module _ {A B : Type 0} where
  -- a query fails, or the rest goes on with its answer; the tables are the same
  pub query-bind :
      (P : Result B × World → Type 0) (q : Db → A) (f : A → Tx B) (w : World)
      → ((e : String) (v : World) → v.db ≡ w.db → P (err e, v))
      → ((v : World) → v.db ≡ w.db → P (f (q w.db) v))
      → P ((query q >>= f) w)
  unfolding ◌>>=◌
  query-bind P q f w h k = go w.outcomes
    where
      go :
          (l : List Outcome)
          → P (
              continue
                (performed l (λ db. ok (q db, db)) w).0
                f
                (performed l (λ db. ok (q db, db)) w).1)
      go [] = k w refl
      go (fine ∷ l) = k (record w { outcomes = l }) refl
      go (refused e ∷ l) = h e (record w { outcomes = l }) refl
      go (lost e ∷ l) = h e (record w { outcomes = l }) refl
      go (cut n e ∷ l) = h e (record w { outcomes = l }) refl

pub query-clock : {A : Type 0} (q : Db → A) (w : World) → (query q w).1.clock ≡ w.clock
unfolding query statement
query-clock {A} q w = go w.outcomes
  where
    go : (l : List Outcome) → (performed l (λ db. ok (q db, db)) w).1.clock ≡ w.clock
    go [] = refl
    go (fine ∷ l) = refl
    go (refused e ∷ l) = refl
    go (lost e ∷ l) = refl
    go (cut n e ∷ l) = refl

pub throw_fails : {A : Type 0} (e : String) (a : A) (w w' : World) → Returns (throw e) w a w' → ⊥
unfolding throw
throw_fails e a w w' (h, _) = cc h

-- the rows that a loop saw: all, or the first of a result that broke off
abbrev pub Arrived : {A : Type 0} → List A → List A → World → Type 0
Arrived seen all w = (seen ≡ all) ⊎ ((n : ℕ) × (seen ≡ take n all) × (breaks w.outcomes ≡ true))

module _ {A : Type 0} where
  pub Returns-query_rows :
      (q : Db → List A) (w : World) (xs : List A) (w' : World)
      → Returns (query_rows q) w xs w'
      → Arrived xs (q w.db) w × (w.db ≡ w'.db)
  unfolding query_rows
  Returns-query_rows q w xs w' (e, f) = go w.outcomes refl e f
    where
      go :
          (l : List Outcome)
          → w.outcomes ≡ l
          → (listed_rows l (q w.db) w).0 ≡ ok xs
          → (listed_rows l (q w.db) w).1 ≡ w'
          → Arrived xs (q w.db) w × (w.db ≡ w'.db)
      go [] k e f = (inl (cc e), ap (λ (v : World). v.db) f)
      go (fine ∷ l) k e f = (inl (cc e), ap (λ (v : World). v.db) f)
      go (refused m ∷ l) k e f = cc e
      go (lost m ∷ l) k e f = cc e
      go (cut n m ∷ l) k e f = (inr (n, cc e, rw k refl), ap (λ (v : World). v.db) f)

  -- rows that arrive later, with the same tables
  pub Arrived-later :
      (q : Db → List A) (xs : List A) (v w : World)
      → v.db ≡ w.db
      → (breaks v.outcomes ≡ true → breaks w.outcomes ≡ true)
      → Arrived xs (q v.db) v
      → Arrived xs (q w.db) w
  Arrived-later q xs v w same before (inl all) = inl (all ∙ rw same refl)
  Arrived-later q xs v w same before (inr (n, some_of, cut_off)) =
      inr (n, some_of ∙ rw same refl, before cut_off)

  -- a query leaves the breaks to come
  pub query-breaks :
      (q : Db → A) (w : World) → breaks (query q w).1.outcomes ≡ true → breaks w.outcomes ≡ true
  unfolding query statement
  query-breaks q w h = go w.outcomes h refl
    where
      go :
          (l : List Outcome)
          → breaks (performed l (λ db. ok (q db, db)) w).1.outcomes ≡ true
          → w.outcomes ≡ l
          → breaks l ≡ true
      go [] h k = rw k at h
      go (fine ∷ l) h k = h
      go (refused e ∷ l) h k = h
      go (lost e ∷ l) h k = h
      go (cut n e ∷ l) h k = refl

  -- where no result breaks off, a loop sees all rows
  pub unbroken-rows :
      (q : Db → List A) (w : World) (xs : List A) (w' : World)
      → breaks w.outcomes ≡ false
      → Returns (query_rows q) w xs w'
      → (q w.db ≡ xs) × (w.db ≡ w'.db) × (breaks w'.outcomes ≡ false)
  unfolding query_rows
  unbroken-rows q w xs w' whole (e, f) = go w.outcomes refl whole e f
    where
      go :
          (l : List Outcome)
          → w.outcomes ≡ l
          → breaks l ≡ false
          → (listed_rows l (q w.db) w).0 ≡ ok xs
          → (listed_rows l (q w.db) w).1 ≡ w'
          → (q w.db ≡ xs) × (w.db ≡ w'.db) × (breaks w'.outcomes ≡ false)
      go [] k b e f = (cc e, ap (λ (v : World). v.db) f, rw (← f) (rw k b))
      go (fine ∷ l) k b e f = (cc e, ap (λ (v : World). v.db) f, rw (← f) b)
      go (refused m ∷ l) k b e f = cc e
      go (lost m ∷ l) k b e f = cc e
      go (cut n m ∷ l) k b e f = cc b
