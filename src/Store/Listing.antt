-- ===== src/Store/Listing.antt =====
-- The loop that lists the parts of an upload.
use cc_005_offline_inspectio.Base.{
  ℕ, zero, suc, Bool, true, false, ◌||◌, some, List, [], ◌∷◌, ◌++◌, ◌+◌, ◌≤◌, ◌<◌, ◌≡◌, ◌⊎◌, refl,
  inl, inr, ◌==◌, ==_iff, Bool-cases, arith,
}
use cc_005_offline_inspectio.Tx.{Result, ok}
use cc_005_offline_inspectio.Base.Rows.Order.{holds}
use cc_005_offline_inspectio.Store.{Page, list_from, completed_parts}

-- What the S3 interface documents of one page, of the parts `there` with numbers up to `last`: it has
-- only parts that are there; each part after the marker is on it, or comes after the next marker of a
-- truncated page; and the next marker of a truncated page is a part after the marker.
pub record ListsParts (there : List ℕ) (last marker : ℕ) (page : Page) : Type 0 where
  pub sound : (n : ℕ) → holds n page.parts ≡ true → holds n there ≡ true
  pub complete :
      (n : ℕ)
      → holds n there ≡ true
      → marker < n
      → (holds n page.parts ≡ true) ⊎ ((page.truncated ≡ true) × (page.next_marker < n))
  pub progress : page.truncated ≡ true → marker < page.next_marker
  pub bounded : page.truncated ≡ true → page.next_marker ≤ last

-- the parts of a page and of what is known already
holds-append : (n : ℕ) (xs ys : List ℕ) → holds n (xs ++ ys) ≡ (holds n xs || holds n ys)
unfolding holds
holds-append n [] ys = refl
holds-append n (x ∷ xs) ys = ground (arith, holds-append n xs ys)

same_bool : (a b : Bool) → (a ≡ true → b ≡ true) → (b ≡ true → a ≡ true) → a ≡ b
same_bool true b f g = ground (arith, f refl)
same_bool false true f g = g refl
same_bool false false f g = refl

module _ (list : ℕ → Result Page) (there : List ℕ) (last : ℕ) where
  -- every page that is asked for is answered as documented
  abbrev pub Answers : Type 0
  Answers =
      (marker : ℕ) → (page : Page) × (list marker ≡ ok page) × ListsParts there last marker page

  -- what is known lies there, and has every part up to the marker
  abbrev IsKnown : ℕ → List ℕ → Type 0
  IsKnown marker got =
      ((n : ℕ) → holds n got ≡ true → holds n there ≡ true)
      × ((n : ℕ) → holds n there ≡ true → (holds n got ≡ true) ⊎ (marker < n))

  abbrev pub IsAll : List ℕ → Type 0
  IsAll got = (n : ℕ) → holds n got ≡ holds n there

  step-IsKnown :
      (marker : ℕ) (got : List ℕ) (page : Page)
      → IsKnown marker got
      → ListsParts there last marker page
      → page.truncated ≡ true
      → IsKnown page.next_marker (got ++ page.parts)
  step-IsKnown marker got page (within, has) laws more = (
    (λ n h. ground (arith, holds-append n got page.parts, within n, laws.sound n)),
    (λ n h. ground (arith, holds-append n got page.parts, has n h, laws.complete n h)),
  )

  last-IsAll :
      (marker : ℕ) (got : List ℕ) (page : Page)
      → IsKnown marker got
      → ListsParts there last marker page
      → page.truncated ≡ false
      → IsAll (got ++ page.parts)
  last-IsAll marker got page (within, has) laws done n =
      same_bool (holds n (got ++ page.parts)) (holds n there)
        (λ h. ground (arith, holds-append n got page.parts, within n, laws.sound n))
        (λ h. ground (arith, holds-append n got page.parts, has n h, laws.complete n h))

  list_from-IsAll :
      (fuel marker : ℕ) (got : List ℕ)
      → Answers
      → IsKnown marker got
      → marker ≤ last
      → last < fuel + marker
      → (all : List ℕ) × (list_from list fuel marker got ≡ some (ok all)) × IsAll all
  unfolding list_from
  list_from-IsAll zero marker got answers known low enough = absurd (omega arith)
  list_from-IsAll (suc fuel) marker got answers known low enough =
      let (page, answered, laws) = answers marker in
      elim (Bool-cases page.truncated) [
        | inr done ↦ (
          got ++ page.parts,
          rw (answered, done, list_from),
          last-IsAll marker got page known laws done,
        )
        | inl more ↦
            let (all, listed, whole) =
              list_from-IsAll fuel page.next_marker (got ++ page.parts) answers
                (step-IsKnown marker got page known laws more) (laws.bounded more)
                (omega (arith, laws.progress more)) in
            (all, rw (answered, more, list_from) listed, whole)
      ]

  -- If every page is answered as the interface documents, of parts with numbers from one up to `last`,
  -- then the loop ends after at most `last + 1` pages, with exactly the parts that are there.
  pub completed_parts-IsAll :
      (fuel : ℕ)
      → Answers
      → holds 0 there ≡ false
      → last < fuel
      → (all : List ℕ) × (completed_parts list fuel ≡ some (ok all)) × IsAll all
  unfolding completed_parts holds
  completed_parts-IsAll fuel answers none_at_zero enough =
      list_from-IsAll fuel 0 [] answers
        (
          (λ n h. cc h),
          (λ n h. elim (Bool-cases (n == 0)) [
            | inl e ↦ let same : n ≡ 0 = (==_iff n 0).0 e in cc (rw same at h, none_at_zero)
            | inr e ↦ inr (ground arith)
          ]),
        )
        (omega arith) (omega arith)
