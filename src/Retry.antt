-- ===== src/Retry.antt =====
-- The loop that `ConnectWithRetry` of backend/internal/db/db.go and `NewWithRetry` of
-- backend/internal/store/store.go share: a number of attempts, with a wait after each failure that the
-- context may cut short.
pub mod Laws
use cc_005_offline_inspectio.Base.{ℕ, zero, suc, String, Option, none, some, ◌+◌}
use cc_005_offline_inspectio.Tx.{Result, ok, err}

-- how the loop ends; `gave_up` has the last error, if there was an attempt
pub data Retried (A : Type 0) : Type 0 where
  connected : A → Retried A
  cancelled : String → Retried A
  gave_up : Option String → Retried A

module _ {A : Type 0} (try : ℕ → Result A) (done : ℕ → Option String) where
  -- `try i` is what attempt `i` makes, `done i` the error of the context if it ends the wait after it
  pub retry : ℕ → ℕ → Option String → Retried A
  retry zero i last = gave_up last
  retry (suc left) i last = elim (try i) [
    | ok a ↦ connected a
    | err e ↦ elim (done i) [ some c ↦ cancelled c | none ↦ retry left (i + 1) (some e) ]
  ]

  -- NewWithRetry, and the loop of ConnectWithRetry
  pub with_retry : ℕ → Retried A
  with_retry attempts = retry attempts 0 none

module _ {A : Type 0} where
  -- an attempt of ConnectWithRetry: a pool, and a ping; a pool that does not answer is closed
  unfoldable pub pinged : Result A → Result (Unit {0}) → Result A
  pinged (err e) ping = err e
  pinged (ok pool) (err e) = err e
  pinged (ok pool) (ok _) = ok pool

  unfoldable pub connect_with_retry :
      (ℕ → Result A) → (ℕ → Result (Unit {0})) → (ℕ → Option String) → ℕ → Retried A
  connect_with_retry new ping done attempts =
      with_retry (λ i. pinged (new i) (ping i)) done attempts
