-- ===== src/Base/Rows/Order.antt =====
-- What ORDER BY does to the keys of the rows.
use mathlib.Core.Path.{◌≡◌, refl, ◌∙◌}
use mathlib.Core.Bool.{Bool, ◌||◌}
use mathlib.Core.List.{List, [], ◌∷◌, map}
use mathlib.Core.Logic.{inl, inr}
use Prim.Native.Nat.{ℕ, ◌≤◌}
use native.Mathlib.Omega.{arith}
use cc_005_offline_inspectio.Base.Tests.{if◌then◌else◌, leb, ◌==◌, Bool-cases}
use cc_005_offline_inspectio.Base.Rows.{insert_by, order_by, select}

-- whether a number is among these
unfoldable pub holds : ℕ → List ℕ → Bool
holds n [] = Bool.false
holds n (m ∷ got) = m == n || holds n got

-- the numbers go up, from at least `b`
abbrev pub Ascends : ℕ → List ℕ → Type 0
Ascends b [] = Unit
Ascends b (n ∷ ns) = (b ≤ n) × Ascends n ns

Ascends-weaken : (b c : ℕ) (ns : List ℕ) → b ≤ c → Ascends c ns → Ascends b ns
Ascends-weaken b c [] low h = tt
Ascends-weaken b c (n ∷ ns) low (least, h) = (omega arith, h)

module _ {ℓ} {A : Type ℓ} where
  insert_by-Ascends :
      (key : A → ℕ) (x : A) (xs : List A) (b : ℕ)
      → b ≤ key x
      → Ascends b (map key xs)
      → Ascends b (map key (insert_by key x xs))
  unfolding insert_by
  insert_by-Ascends key x [] b low h = (low, tt)
  insert_by-Ascends key x (y ∷ ys) b low (least, h) = elim (Bool-cases (leb (key x) (key y))) [
    | inl e ↦ rw e (low, (ground arith, h))
    | inr e ↦ rw e (least, insert_by-Ascends key x ys (key y) (ground arith) h)
  ]

  pub order_by-Ascends : (key : A → ℕ) (xs : List A) → Ascends 0 (map key (order_by key xs))
  unfolding order_by
  order_by-Ascends key [] = tt
  order_by-Ascends key (x ∷ xs) =
      insert_by-Ascends key x (order_by key xs) 0 (omega arith) (order_by-Ascends key xs)

  holds-insert_by :
      (n : ℕ) (key : A → ℕ) (x : A) (xs : List A)
      → holds n (map key (insert_by key x xs)) ≡ holds n (map key (x ∷ xs))
  unfolding insert_by holds
  holds-insert_by n key x [] = refl
  holds-insert_by n key x (y ∷ ys) = elim (Bool-cases (leb (key x) (key y))) [
    | inl e ↦ rw e
    | inr e ↦ rw e (ground (arith, holds-insert_by n key x ys))
  ]

  pub holds-order_by :
      (n : ℕ) (key : A → ℕ) (xs : List A)
      → holds n (map key (order_by key xs)) ≡ holds n (map key xs)
  unfolding order_by holds
  holds-order_by n key [] = refl
  holds-order_by n key (x ∷ xs) =
      holds-insert_by n key x (order_by key xs) ∙ ground (arith, holds-order_by n key xs)

  select-Ascends :
      (p : A → Bool) (key : A → ℕ) (xs : List A) (b : ℕ)
      → Ascends b (map key xs)
      → Ascends b (map key (select p xs))
  unfolding select
  select-Ascends p key [] b h = tt
  select-Ascends p key (x ∷ xs) b (low, h) = elim (Bool-cases (p x)) [
    | inl e ↦ rw e (low, select-Ascends p key xs (key x) h)
    | inr e ↦
        rw e
          (Ascends-weaken b (key x) (map key (select p xs)) low (select-Ascends p key xs (key x) h))
  ]

  insert_by-first :
      (key : A → ℕ) (x : A) (xs : List A)
      → Ascends (key x) (map key xs)
      → insert_by key x xs ≡ x ∷ xs
  unfolding insert_by
  insert_by-first key x [] h = refl
  insert_by-first key x (y ∷ ys) (low, h) = ground arith

  select-insert_by :
      (p : A → Bool) (key : A → ℕ) (x : A) (xs : List A) (b : ℕ)
      → Ascends b (map key xs)
      → select p (insert_by key x xs) ≡ (if p x then insert_by key x (select p xs) else select p xs)
  unfolding select insert_by
  select-insert_by p key x [] b h = refl
  select-insert_by p key x (y ∷ ys) b (low, h) = elim (Bool-cases (leb (key x) (key y))) [
    | inl e ↦
        let front : insert_by key x (select p (y ∷ ys)) ≡ x ∷ select p (y ∷ ys) =
          insert_by-first key x (select p (y ∷ ys))
            (select-Ascends p key (y ∷ ys) (key x) (ground arith, h)) in
        rw (e, front) refl
    | inr e ↦ elim (Bool-cases (p y)) [
      | inl f ↦ rw (e, f, e, select-insert_by p key x ys (key y) h) (ground arith)
      | inr f ↦ rw (e, f, select-insert_by p key x ys (key y) h) refl
    ]
  ]

  -- a SELECT of an ordered table is the ordered SELECT
  pub select-order_by :
      (p : A → Bool) (key : A → ℕ) (xs : List A)
      → select p (order_by key xs) ≡ order_by key (select p xs)
  unfolding order_by select
  select-order_by p key [] = refl
  select-order_by p key (x ∷ xs) =
      select-insert_by p key x (order_by key xs) 0 (order_by-Ascends key xs)
      ∙ elim (Bool-cases (p x)) [
        | inl e ↦ rw (e, select-order_by p key xs) refl
        | inr e ↦ rw (e, select-order_by p key xs) refl
      ]
