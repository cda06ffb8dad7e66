-- ===== src/Tx.antt =====
-- A request's calls of the database, in order. Each call is answered as the run decides: it is done,
-- it is refused, or it is done and its answer is lost (the client sees an error either way); or the rows
-- of its result break off. Requests
-- and transactions are atomic with respect to one another, as their row and advisory locks intend.
pub mod Respects
pub mod Inversion
pub mod Succeeds
use cc_005_offline_inspectio.Base.{
  ℕ, String, suc, Option, none, some, List, [], ◌∷◌, Bool, true, false, if◌then◌else◌,
}
use cc_005_offline_inspectio.Base.Rows.{take}
use cc_005_offline_inspectio.Json.{Json}
use cc_005_offline_inspectio.Db.{Db}

pub data Result {ℓ} (A : Type ℓ) : Type ℓ where
  ok : A → Result A
  err : String → Result A

pub data Outcome : Type 0 where
  fine : Outcome
  refused lost : String → Outcome
  -- after this many rows of the result
  cut : ℕ → String → Outcome

pub record World : Type 0 where
  pub db : Db
  -- now() of the transaction
  pub clock : ℕ
  -- what uuid.NewString returns next, and after that
  pub next_id : ℕ → ℕ
  -- how the calls to come are answered; once the list is empty, they are done
  pub outcomes : List Outcome

abbrev pub Tx {ℓ} : Type ℓ → Type ℓ
Tx A = World → Result A × World

-- what a statement does to the tables, or the constraint that it breaks
abbrev pub Statement {ℓ} : Type ℓ → Type ℓ
Statement A = Db → Result (A × Db)

-- a statement one of whose arguments is cast to jsonb
abbrev pub with_json {ℓ} : {A : Type ℓ} → Result Json → (Json → Statement A) → Statement A
with_json (ok j) s db = s j db
with_json (err e) s db = err e

module _ {ℓ} {A : Type ℓ} where
  unfoldable pub pure : A → Tx A
  pure a w = (ok a, w)

  pub throw : String → Tx A
  throw e w = (err e, w)

  abbrev done : Result (A × Db) → World → Result A × World
  done (ok (a, db')) w = (ok a, record w { db = db' })
  done (err e) w = (err e, w)

  abbrev unanswered : String → Result A × World → Result A × World
  unanswered e (_, w) = (err e, w)

  abbrev answered : Outcome → Statement A → World → Result A × World
  answered fine s w = done (s w.db) w
  answered (refused e) s w = (err e, w)
  answered (lost e) s w = unanswered e (done (s w.db) w)
  answered (cut n e) s w = unanswered e (done (s w.db) w)

  abbrev performed : List Outcome → Statement A → World → Result A × World
  performed [] s w = done (s w.db) w
  performed (x ∷ rest) s w = answered x s (record w { outcomes = rest })

  unfoldable pub statement : Statement A → Tx A
  statement s w = performed w.outcomes s w

  unfoldable pub query : (Db → A) → Tx A
  unfolding statement
  query q = statement (λ db. ok (q db, db))

-- Query, with a loop over rows.Next that does not ask rows.Err: it goes on with the rows that it saw
module _ {ℓ} {A : Type ℓ} where
  abbrev arrived : Outcome → List A → World → Result (List A) × World
  arrived fine xs w = (ok xs, w)
  arrived (refused e) xs w = (err e, w)
  arrived (lost e) xs w = (err e, w)
  arrived (cut n e) xs w = (ok (take n xs), w)

  abbrev pub listed_rows : List Outcome → List A → World → Result (List A) × World
  listed_rows [] xs w = (ok xs, w)
  listed_rows (x ∷ rest) xs w = arrived x xs (record w { outcomes = rest })

  unfoldable pub query_rows : (Db → List A) → Tx (List A)
  query_rows q w = listed_rows w.outcomes (q w.db) w

-- whether the rows of some result break off
abbrev pub breaks : List Outcome → Bool
breaks [] = false
breaks (cut n e ∷ rest) = true
breaks (fine ∷ rest) = breaks rest
breaks (refused e ∷ rest) = breaks rest
breaks (lost e ∷ rest) = breaks rest

-- an action whose error is looked at
unfoldable pub attempt {ℓ} : {A : Type ℓ} → Tx A → Tx (Result A)
attempt m w = let (r, w') = m w in (ok r, w')

unfoldable pub now : Tx ℕ
now w = (ok w.clock, w)

-- uuid.NewString
unfoldable pub new_uuid : Tx ℕ
new_uuid w = (ok (w.next_id 0), record w { next_id = λ n. w.next_id (suc n) })

module _ {ℓ κ} {A : Type ℓ} {B : Type κ} where
  abbrev pub continue : Result A → (A → Tx B) → Tx B
  continue (ok a) f w = f a w
  continue (err e) f w = (err e, w)

  infixl 10 ◌>>=◌
  -- opening this opens the basic actions too
  unfoldable pub ◌>>=◌ : Tx A → (A → Tx B) → Tx B
  unfolding pure throw statement query query_rows attempt now new_uuid
  ◌>>=◌ m f w = let (r, w') = m w in continue r f w'

module _ {ℓ} {B : Type ℓ} where
  infixl 10 ◌>>◌
  abbrev pub ◌>>◌ : Tx (Unit {0}) → Tx B → Tx B
  m >> n = m >>= λ _. n
