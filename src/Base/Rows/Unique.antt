-- ===== src/Base/Rows/Unique.antt =====
-- Unique indexes: how many rows a test selects, under INSERT and UPDATE.
use cc_005_offline_inspectio.Base.{
  ℕ, suc, Bool, true, false, List, [], ◌∷◌, ◌≡◌, ◌+◌, ◌≤◌, refl, none, some, inl, inr, Bool-cases,
  arith, if◌then◌else◌,
}
use cc_005_offline_inspectio.Base.Rows.{length, select, first, update, exists, insert}

module _ {ℓ} {A : Type ℓ} where
  -- SELECT count(*) … WHERE p
  abbrev pub count : (A → Bool) → List A → ℕ
  count p xs = length (select p xs)

  -- at most one row
  abbrev pub IsUnique : (A → Bool) → List A → Type 0
  IsUnique p xs = count p xs ≤ 1

  count-exists : (p : A → Bool) (xs : List A) → exists p xs ≡ false → count p xs ≡ 0
  unfolding select exists
  count-exists p [] h = refl
  count-exists p (x ∷ xs) h = ground (arith, count-exists p xs)

  count-insert :
      (p : A → Bool) (x : A) (xs : List A)
      → count p (insert x xs) ≡ count p xs + (if p x then 1 else 0)
  unfolding select
  count-insert p x [] = ground arith
  count-insert p x (y ∷ ys) = ground (arith, count-insert p x ys)

  -- An update that brings no row under the test.
  count-update-le :
      (p q : A → Bool) (f : A → A) (xs : List A)
      → ((x : A) → p (f x) ≡ true → p x ≡ true)
      → count p (update q f xs) ≤ count p xs
  unfolding select update
  count-update-le p q f [] h = omega arith
  count-update-le p q f (x ∷ xs) h = ground (arith, h x, count-update-le p q f xs h)

  -- An insertion that the unique index allows.
  pub insert-IsUnique :
      (p : A → Bool) (x : A) (xs : List A)
      → (p x ≡ true → exists p xs ≡ false)
      → IsUnique p xs
      → IsUnique p (insert x xs)
  insert-IsUnique p x xs new h = rw (count-insert p x xs) (elim (Bool-cases (p x)) [
    | inl e ↦ rw (e, count-exists p xs (new e)) (omega arith)
    | inr e ↦ rw e (omega (arith, h))
  ])

  pub update-IsUnique :
      (p q : A → Bool) (f : A → A) (xs : List A)
      → ((x : A) → p (f x) ≡ true → p x ≡ true)
      → IsUnique p xs
      → IsUnique p (update q f xs)
  update-IsUnique p q f xs h u = omega (arith, count-update-le p q f xs h)

  none-update :
      (p q : A → Bool) (f : A → A) (xs : List A)
      → suc (count p xs) ≤ 1
      → ((y : A) → q y ≡ true → p (f y) ≡ false)
      → first p (update q f xs) ≡ none
  unfolding first update select
  none-update p q f [] h out = refl
  none-update p q f (y ∷ ys) h out = elim (Bool-cases (p y)) [
    | inl here ↦ absurd (omega (arith, rw here at h))
    | inr there ↦
        let rest = none-update p q f ys (rw there at h) out in
        elim (Bool-cases (q y)) [
          | inl changed ↦ rw (changed, out y changed) rest
          | inr kept ↦ rw (kept, there) rest
        ]
  ]

  -- An update that takes the only row from under the test leaves none.
  pub first-update_only :
      (p q : A → Bool) (f : A → A) (xs : List A) (x : A)
      → IsUnique p xs
      → first p xs ≡ some x
      → q x ≡ true
      → ((y : A) → q y ≡ true → p (f y) ≡ false)
      → first p (update q f xs) ≡ none
  unfolding first update select
  first-update_only p q f [] x u e hit out = refl
  first-update_only p q f (y ∷ ys) x u e hit out = elim (Bool-cases (p y)) [
    | inl here ↦
        let same : y ≡ x = cc (rw here at e) in
        let hit' : q y ≡ true = rw same hit in
        rw (hit', out y hit') (none-update p q f ys (rw here at u) out)
    | inr there ↦
        let rest = first-update_only p q f ys x (rw there at u) (rw there at e) hit out in
        elim (Bool-cases (q y)) [
          | inl changed ↦ rw (changed, out y changed) rest
          | inr kept ↦ rw (kept, there) rest
        ]
  ]

  update-none : (p : A → Bool) (f : A → A) (xs : List A) → count p xs ≡ 0 → update p f xs ≡ xs
  unfolding update select
  update-none p f [] h = refl
  update-none p f (x ∷ xs) h = elim (Bool-cases (p x)) [
    | inl here ↦ absurd (omega (arith, rw here at h))
    | inr there ↦ rw (there, update-none p f xs (rw there at h))
  ]

  count-first :
      (p r : A → Bool) (xs : List A) (x : A) → first r xs ≡ some x → p x ≡ true → 1 ≤ count p xs
  unfolding first select
  count-first p r [] x e h = cc e
  count-first p r (y ∷ ys) x e h = elim (Bool-cases (r y)) [
    | inl here ↦
        let same : y ≡ x = cc (rw here at e) in
        let hit : p y ≡ true = rw same h in rw hit (omega arith)
    | inr there ↦
        let rest = count-first p r ys x (rw there at e) h in
        elim (Bool-cases (p y)) [ inl e ↦ rw e (omega arith) | inr e ↦ rw e rest ]
  ]

  -- An update of the row that `r` finds, by a key, is not seen by a test that excludes `r`.
  pub first-update_other :
      (p q r : A → Bool) (f : A → A) (xs : List A) (x : A)
      → IsUnique p xs
      → first r xs ≡ some x
      → p x ≡ true
      → ((y : A) → r y ≡ true → q y ≡ false)
      → ((y : A) → q (f y) ≡ q y)
      → first q (update p f xs) ≡ first q xs
  unfolding first update select
  first-update_other p q r f [] x u e hit apart keeps = refl
  first-update_other p q r f (y ∷ ys) x u e hit apart keeps = elim (Bool-cases (r y)) [
    | inl here ↦
        let same : y ≡ x = cc (rw here at e) in
        let hit' : p y ≡ true = rw same hit in
        let alone : count p ys ≡ 0 = omega (arith, rw hit' at u) in
        rw (hit', keeps y, apart y here, update-none p f ys alone)
    | inr there ↦
        let rest = first-update_other p q r f ys x in
        let more = count-first p r ys x (rw there at e) hit in
        elim (Bool-cases (p y)) [
          | inl twice ↦ absurd (omega (arith, rw twice at u, more))
          | inr once ↦ rw (once, rest (rw once at u) (rw there at e) hit apart keeps)
        ]
  ]

  -- An update that keeps the test changes the row that it finds.
  pub first-update_hit :
      (p q : A → Bool) (f : A → A) (xs : List A) (x : A)
      → first p xs ≡ some x
      → q x ≡ true
      → ((y : A) → p (f y) ≡ p y)
      → first p (update q f xs) ≡ some (f x)
  unfolding first update
  first-update_hit p q f [] x e hit keeps = cc e
  first-update_hit p q f (y ∷ ys) x e hit keeps = elim (Bool-cases (p y)) [
    | inl here ↦
        let same : y ≡ x = cc (rw here at e) in
        let hit' : q y ≡ true = rw same hit in rw (hit', keeps y, here, same)
    | inr there ↦
        let rest = first-update_hit p q f ys x (rw there at e) hit keeps in
        elim (Bool-cases (q y)) [
          | inl changed ↦ rw (changed, keeps y, there) rest
          | inr kept ↦ rw (kept, there) rest
        ]
  ]
