-- ===== src/Store.antt =====
-- `New`, `NewWithRetry`, `ensureBucket` and `CompletedParts` of backend/internal/store/store.go. What the S3 client
-- answers is an argument.
pub mod Listing
pub mod Calls
use cc_005_offline_inspectio.Base.{
  ℕ, zero, suc, String, Bool, true, false, ◌||◌, Option, none, some, List, [], ◌∷◌, ◌++◌, ◌==◌,
  if◌then◌else◌,
}
use cc_005_offline_inspectio.Tx.{Result, ok, err}
use cc_005_offline_inspectio.Retry.{Retried, with_retry}

-- with whether the bucket is there, and what its creation answers
abbrev pub ensure_bucket : Result Bool → Result (Unit {0}) → Result (Unit {0})
ensure_bucket (err e) make = err e
ensure_bucket (ok false) make = make
ensure_bucket (ok true) make = ok tt

-- a store over its two clients
pub record Clients (C : Type 0) : Type 0 where
  pub client : C
  pub core : C

-- what the S3 library answers to an attempt of `New`
pub record Attempt (C : Type 0) : Type 0 where
  pub client : Result C
  pub core : Result C
  pub there : Result Bool
  pub make : Result (Unit {0})

module _ {C : Type 0} where
  abbrev ready : Clients C → Result (Unit {0}) → Result (Clients C)
  ready s (err e) = err e
  ready s (ok _) = ok s

  -- with the two clients that are made, and what the bucket answers
  unfoldable pub new_store :
      Result C → Result C → Result Bool → Result (Unit {0}) → Result (Clients C)
  new_store (err e) core there make = err e
  new_store (ok client) (err e) there make = err e
  new_store (ok client) (ok core) there make =
      ready (record { client = client; core = core }) (ensure_bucket there make)

  -- NewWithRetry, with the answers to each attempt, and the error of the context if it ends the wait after
  -- an attempt
  unfoldable pub new_with_retry : (ℕ → Attempt C) → (ℕ → Option String) → ℕ → Retried (Clients C)
  new_with_retry try done attempts =
      with_retry (λ i. new_store (try i).client (try i).core (try i).there (try i).make) done
        attempts

-- one answer of ListObjectParts
pub record Page : Type 0 where
  pub parts : List ℕ
  pub truncated : Bool
  pub next_marker : ℕ

-- The loop of `CompletedParts` on fuel; `none` is a loop that goes on. `list` is what ListObjectParts
-- answers to a marker.
module _ (list : ℕ → Result Page) where
  pub list_from : ℕ → ℕ → List ℕ → Option (Result (List ℕ))
  list_from zero marker got = none
  list_from (suc fuel) marker got = elim (list marker) [
    | err e ↦ some (err e)
    | ok page ↦ elim page.truncated [
      | false ↦ some (ok (got ++ page.parts))
      | true ↦ list_from fuel page.next_marker (got ++ page.parts)
    ]
  ]

  pub completed_parts : ℕ → Option (Result (List ℕ))
  completed_parts fuel = list_from fuel 0 []
