-- ===== src/Base/Rows/Laws.antt =====
-- What UPDATE and INSERT do to the first row of a SELECT.
use mathlib.Core.Path.{◌≡◌, refl}
use mathlib.Core.Bool.{Bool, true, false, ◌&&◌}
use mathlib.Core.Option.{Option, none, some}
use mathlib.Core.Option
use mathlib.Core.List.{List, [], ◌∷◌}
use mathlib.Core.Logic.{inl, inr}
use native.Mathlib.Omega.{arith}
use cc_005_offline_inspectio.Base.Tests.{if◌then◌else◌, Bool-cases}
use cc_005_offline_inspectio.Base.Rows.{first, select, update, exists, insert}

module _ {ℓ} {A : Type ℓ} where
  -- an update that keeps the tested columns changes the row that it finds
  pub first-update :
      (p : A → Bool) (f : A → A) (xs : List A)
      → ((x : A) → p (f x) ≡ p x)
      → first p (update p f xs) ≡ Option.map f (first p xs)
  unfolding first update
  first-update p f [] h = refl
  first-update p f (x ∷ xs) h = elim (Bool-cases (p x)) [
    | inl e ↦ rw (e, h x, e)
    | inr e ↦ rw (e, e) (first-update p f xs h)
  ]

  -- an update of rows that a test excludes is not seen by it
  pub first-update_apart :
      (p q : A → Bool) (f : A → A) (xs : List A)
      → ((x : A) → p x ≡ true → q x ≡ false)
      → ((x : A) → p x ≡ true → q (f x) ≡ false)
      → first q (update p f xs) ≡ first q xs
  unfolding first update
  first-update_apart p q f [] h k = refl
  first-update_apart p q f (x ∷ xs) h k = elim (Bool-cases (p x)) [
    | inl e ↦ rw (e, h x e, k x e) (first-update_apart p q f xs h k)
    | inr e ↦ rw (e, first-update_apart p q f xs h k)
  ]

  abbrev pub or_new : (A → Bool) → A → Option A → Option A
  or_new q x (some y) = some y
  or_new q x none = if q x then some x else none

  pub first-insert :
      (q : A → Bool) (x : A) (xs : List A) → first q (insert x xs) ≡ or_new q x (first q xs)
  unfolding first
  first-insert q x [] = refl
  first-insert q x (y ∷ ys) = elim (Bool-cases (q y)) [
    | inl e ↦ rw e
    | inr e ↦ rw e (first-insert q x ys)
  ]

  pub first_of_exists : (p : A → Bool) (xs : List A) → exists p xs ≡ false → first p xs ≡ none
  unfolding first exists
  first_of_exists p [] h = refl
  first_of_exists p (x ∷ xs) h = ground (arith, first_of_exists p xs)

  pub or_new-false : (q : A → Bool) (x : A) (o : Option A) → q x ≡ false → or_new q x o ≡ o
  or_new-false q x none h = rw h
  or_new-false q x (some y) h = refl

  pub exists_of_first :
      (p q : A → Bool) (xs : List A) {x : A}
      → first p xs ≡ some x
      → ((y : A) → p y ≡ true → q y ≡ true)
      → exists q xs ≡ true
  unfolding first exists
  exists_of_first p q [] e h = cc e
  exists_of_first p q (y ∷ ys) e h = elim (Bool-cases (p y)) [
    | inl here ↦ rw (h y here)
    | inr there ↦ ground (arith, exists_of_first p q ys (rw there at e) h)
  ]

  -- the first row of a SELECT within a SELECT
  pub first-select :
      (p q : A → Bool) (xs : List A) → first q (select p xs) ≡ first (λ x. p x && q x) xs
  unfolding first select
  first-select p q [] = refl
  first-select p q (x ∷ xs) = ground (arith, first-select p q xs)
