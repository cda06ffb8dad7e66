-- ===== src/Retry/Laws.antt =====
-- When the loop of attempts succeeds, and with what.
use cc_005_offline_inspectio.Base.{
  ℕ, zero, suc, String, Option, none, some, ◌+◌, ◌≤◌, ◌<◌, ◌≡◌, ◌⊎◌, ◌↔◌, refl, inl, inr,
  Option-cases, arith,
}
use native.Mathlib.Decide.{ℕ_discrete}
use cc_005_offline_inspectio.Tx.{Result, ok, err}
use cc_005_offline_inspectio.Retry.{connected, retry, with_retry}

module _ {A : Type 0} where
  Result-cases : (r : Result A) → ((a : A) × (r ≡ ok a)) ⊎ ((e : String) × (r ≡ err e))
  Result-cases (ok a) = inl (a, refl)
  Result-cases (err e) = inr (e, refl)

module _ {A : Type 0} (try : ℕ → Result A) (done : ℕ → Option String) where
  -- attempt `i` failed, and the wait after it was not cut short
  abbrev pub Failed : ℕ → Type 0
  Failed i = ((e : String) × (try i ≡ err e)) × (done i ≡ none)

  -- attempt `k` of those from `i` up to `i + n` is the first that did not fail, and it made `a`
  abbrev IsFirst : ℕ → ℕ → A → ℕ → Type 0
  IsFirst i n a k = (i ≤ k) × (k < i + n) × (try k ≡ ok a) × ((j : ℕ) → i ≤ j → j < k → Failed j)

  retry-IsFirst :
      (n i : ℕ) (last : Option String) (a : A)
      → retry try done n i last ≡ connected a
      → (k : ℕ) × IsFirst i n a k
  unfolding retry
  retry-IsFirst zero i last a h = cc h
  retry-IsFirst (suc n) i last a h = elim (Result-cases (try i)) [
    | inl (b, made) ↦
        let same : b ≡ a = cc (rw (made, retry) at h) in
        (i, (omega arith, omega arith, rw (made, same), λ j p q. absurd (omega arith)))
    | inr (e, failed) ↦ elim (Option-cases (done i)) [
      | inr (c, cut) ↦ cc (rw (failed, cut, retry) at h)
      | inl going ↦
          let (k, (from, below, made, before)) =
            retry-IsFirst n (i + 1) (some e) a (rw (failed, going, retry) at h) in
          (
            k,
            (
              omega arith,
              omega arith,
              made,
              λ j p q. elim (ℕ_discrete i j) [
                | yes same ↦ rw (← same) ((e, failed), going)
                | no other ↦ before j (omega arith) q
              ],
            ),
          )
    ]
  ]

  first-retry :
      (n i : ℕ) (last : Option String) (a : A) (k : ℕ)
      → IsFirst i n a k
      → retry try done n i last ≡ connected a
  unfolding retry
  first-retry zero i last a k h = absurd (omega (arith, h.0, h.1))
  first-retry (suc n) i last a k (from, below, made, before) = elim (ℕ_discrete i k) [
    | yes same ↦ rw (same, made, retry)
    | no other ↦
        let ((e, failed), going) = before i (omega arith) (omega arith) in
        rw (failed, going, retry)
          (first-retry n (i + 1) (some e) a k
            (omega arith, omega arith, made, λ j p q. before j (omega arith) q))
  ]

  -- The loop connects exactly if some attempt, of at most so many, succeeds after attempts that all
  -- failed with a wait that was not cut short; and it returns what that attempt made.
  pub with_retry_iff :
      (attempts : ℕ) (a : A)
      → (with_retry try done attempts ≡ connected a)
        ↔ ((k : ℕ) × (k < attempts) × (try k ≡ ok a) × ((j : ℕ) → j < k → Failed j))
  unfolding with_retry
  with_retry_iff attempts a = (
    λ h.
        let (k, (_, below, made, before)) = retry-IsFirst attempts 0 none a h in
        (k, omega arith, made, λ j q. before j (omega arith) q),
    λ h.
        let (k, below, made, before) = h in
        first-retry attempts 0 none a k (omega arith, omega arith, made, λ j _ q. before j q),
  )
