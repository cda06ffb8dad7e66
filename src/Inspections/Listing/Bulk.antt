-- ===== src/Inspections/Listing/Bulk.antt =====
-- The bulk queries give each inspection what a query for it alone gives.
use cc_005_offline_inspectio.Base.{
  ℕ, Bool, true, false, ◌&&◌, List, [], ◌∷◌, ◌++◌, map, ◌==◌, ==_iff, ◌≡◌, refl, sym, ap, ◌∙◌, inl,
  inr, Bool-cases, arith, if◌then◌else◌,
}
use cc_005_offline_inspectio.Base.Rows.{select, exists, update, insert, order_by}
use cc_005_offline_inspectio.Base.Rows.Order.{select-order_by}
use cc_005_offline_inspectio.Models.{AttachmentDto, ConflictDto, InspectionDto}
use cc_005_offline_inspectio.Db.{Db, is_open}
use cc_005_offline_inspectio.Snapshot.{conflict_dto, open_conflicts_of}
use cc_005_offline_inspectio.Inspections.{with_parts, attachments_for}
use cc_005_offline_inspectio.Inspections.Listing.{
  fill, put_attachment, put_conflict, among, attachment_rows, conflict_rows,
}

module _ {A B : Type 0} where
  map-update :
      (g : A → B) (p : A → Bool) (f : A → A) (xs : List A)
      → map g (update p f xs) ≡ map (λ x. if p x then g (f x) else g x) xs
  unfolding update
  map-update g p f [] = refl
  map-update g p f (x ∷ xs) = elim (Bool-cases (p x)) [
    | inl e ↦ rw (e, map-update g p f xs)
    | inr e ↦ rw (e, map-update g p f xs)
  ]

  -- the rows of one inspection among those of several
  select-keyed :
      (key : A → ℕ) (h : A → B) (id : ℕ) (xs : List A)
      → select (λ (r : ℕ × B). r.0 == id) (map (λ x. (key x, h x)) xs)
        ≡ map (λ x. (key x, h x)) (select (λ x. key x == id) xs)
  unfolding select
  select-keyed key h id [] = refl
  select-keyed key h id (x ∷ xs) = elim (Bool-cases (key x == id)) [
    | inl e ↦ rw (e, select-keyed key h id xs)
    | inr e ↦ rw (e, select-keyed key h id xs)
  ]

module _ {A : Type 0} where
  -- a test within a weaker test
  select-within :
      (p q r : A → Bool) (xs : List A)
      → ((x : A) → (p x && q x) ≡ r x)
      → select p (select q xs) ≡ select r xs
  unfolding select
  select-within p q r [] h = refl
  select-within p q r (x ∷ xs) h = elim (Bool-cases (q x)) [
    | inl e ↦ elim (Bool-cases (p x)) [
      | inl f ↦
          let on : r x ≡ true = ground (arith, h x) in
          rw (e, f, on) (ap (λ l. x ∷ l) (select-within p q r xs h))
      | inr f ↦
          let off : r x ≡ false = ground (arith, h x) in rw (e, f, off) (select-within p q r xs h)
    ]
    | inr e ↦ let off : r x ≡ false = ground (arith, h x) in rw (e, off) (select-within p q r xs h)
  ]

  -- a property of all rows of a list
  abbrev pub All : (A → Type 0) → List A → Type 0
  All P [] = Unit
  All P (x ∷ xs) = P x × All P xs

  All-map : (P Q : A → Type 0) (xs : List A) → ((x : A) → P x → Q x) → All P xs → All Q xs
  All-map P Q [] f h = tt
  All-map P Q (x ∷ xs) f (here, there) = (f x here, All-map P Q xs f there)

  All-both : (P Q : A → Type 0) (xs : List A) → All P xs → All Q xs → All (λ x. P x × Q x) xs
  All-both P Q [] p q = tt
  All-both P Q (x ∷ xs) (p, ps) (q, qs) = ((p, q), All-both P Q xs ps qs)

  map-equal :
      {B : Type 0} (P : A → Type 0) (f g : A → B) (xs : List A)
      → All P xs
      → ((x : A) → P x → f x ≡ g x)
      → map f xs ≡ map g xs
  map-equal P f g [] a h = refl
  map-equal P f g (x ∷ xs) (here, there) h = rw (h x here, map-equal P f g xs there h) refl

  map-every : {B : Type 0} (f g : A → B) (xs : List A) → ((x : A) → f x ≡ g x) → map f xs ≡ map g xs
  map-every f g [] h = refl
  map-every f g (x ∷ xs) h = rw (h x, map-every f g xs h) refl

  map_self : (f : A → A) (xs : List A) → ((x : A) → f x ≡ x) → map f xs ≡ xs
  map_self f [] h = refl
  map_self f (x ∷ xs) h = rw (h x, map_self f xs h) refl

All-among : (dtos : List InspectionDto) → All (λ d. among dtos d.id ≡ true) dtos
unfolding exists
All-among [] = tt
All-among (d ∷ ds) =
    (rw ((==_iff d.id d.id).1 refl) refl, All-map _ _ ds (λ c h. ground arith) (All-among ds))

abbrev rows_of {ℓ} : {B : Type ℓ} → ℕ → List (ℕ × B) → List B
rows_of id rows = map (λ r. r.1) (select (λ r. r.0 == id) rows)

module _ {B : Type 0} (put : B → InspectionDto → InspectionDto) where
  -- all rows, appended one after the other
  put_all : List B → InspectionDto → InspectionDto
  put_all [] d = d
  put_all (b ∷ bs) d = put_all bs (put b d)

  fill-map :
      (rows : List (ℕ × B)) (dtos : List InspectionDto)
      → ((b : B) (d : InspectionDto) → (put b d).id ≡ d.id)
      → fill put rows dtos ≡ map (λ d. put_all (rows_of d.id rows) d) dtos
  unfolding fill put_all select
  fill-map [] dtos h = sym (map_self (λ d. put_all [] d) dtos (λ d. refl))
  fill-map ((id, b) ∷ rows) dtos h =
      fill-map rows (update (λ d. d.id == id) (put b) dtos) h
      ∙ map-update _ (λ d. d.id == id) (put b) dtos
      ∙ map-every _ _ dtos (λ d. elim (Bool-cases (d.id == id)) [
        | inl e ↦
            let same : (id == d.id) ≡ true = (==_iff id d.id).1 (sym ((==_iff d.id id).0 e)) in
            rw (e, same) (ap (λ n. put_all (rows_of n rows) (put b d)) (h b d))
        | inr e ↦ let other : (id == d.id) ≡ false = ground arith in rw (e, other) refl
      ])

module _ {A B : Type 0} (key : A → ℕ) (h : A → B) where
  seconds : (xs : List A) → map (λ (r : ℕ × B). r.1) (map (λ x. (key x, h x)) xs) ≡ map h xs
  seconds [] = refl
  seconds (x ∷ xs) = rw (seconds xs) refl

  -- one inspection's rows of a bulk query are the rows of the query for it alone
  rows_of-bulk :
      (by : A → ℕ) (p q : A → Bool) (id : ℕ) (xs : List A)
      → ((x : A) → (key x == id && q x) ≡ p x)
      → rows_of id (map (λ x. (key x, h x)) (order_by by (select q xs)))
        ≡ map h (order_by by (select p xs))
  rows_of-bulk by p q id xs same =
      rw
        (
          select-keyed key h id (order_by by (select q xs)),
          seconds (select (λ x. key x == id) (order_by by (select q xs))),
          select-order_by (λ x. key x == id) by (select q xs),
          select-within (λ x. key x == id) q p xs same,
        )
        refl

append_nil : {A : Type 0} (xs : List A) → xs ++ [] ≡ xs
append_nil [] = refl
append_nil (x ∷ xs) = rw (append_nil xs) refl

insert-append : {A : Type 0} (x : A) (xs ys : List A) → insert x xs ++ ys ≡ xs ++ x ∷ ys
insert-append x [] ys = refl
insert-append x (z ∷ zs) ys = rw (insert-append x zs ys) refl

put_all-attachments :
    (as' : List AttachmentDto) (d : InspectionDto)
    → put_all put_attachment as' d ≡ record d { attachments = d.attachments ++ as' }
unfolding put_all
put_all-attachments [] d = rw (append_nil d.attachments) refl
put_all-attachments (a ∷ as') d =
    put_all-attachments as' (put_attachment a d) ∙ rw (insert-append a d.attachments as') refl

put_all-conflicts :
    (cs : List ConflictDto) (d : InspectionDto)
    → put_all put_conflict cs d ≡ record d { conflicts = d.conflicts ++ cs }
unfolding put_all
put_all-conflicts [] d = rw (append_nil d.conflicts) refl
put_all-conflicts (c ∷ cs) d =
    put_all-conflicts cs (put_conflict c d) ∙ rw (insert-append c d.conflicts cs) refl

both-among :
    (dtos : List InspectionDto) (id n : ℕ) (b : Bool)
    → among dtos id ≡ true
    → (n == id && (among dtos n && b)) ≡ (n == id && b)
both-among dtos id n b h = elim (Bool-cases (n == id)) [
  | inl e ↦ let same : n ≡ id = (==_iff n id).0 e in rw (same, h) refl
  | inr e ↦ rw e refl
]

-- the bulk query for attachments does for each dto what `attachmentsFor` does for its inspection
pub fill-attachments :
    (dtos : List InspectionDto) (db : Db)
    → All (λ d. d.attachments ≡ []) dtos
    → fill put_attachment (attachment_rows dtos db) dtos
      ≡ map (λ (d : InspectionDto). record d { attachments = attachments_for d.id db }) dtos
unfolding attachment_rows
fill-attachments dtos db none =
    fill-map put_attachment (attachment_rows dtos db) dtos (λ a d. refl)
    ∙ map-equal _ _ _ dtos (All-both _ _ dtos (All-among dtos) none) (λ d h.
      put_all-attachments (rows_of d.id (attachment_rows dtos db)) d
      ∙ rw
          (
            h.1,
            rows_of-bulk (λ a. a.inspection_id) (with_parts db) (λ a. a.created_at)
                (λ a. a.inspection_id == d.id) (λ a. among dtos a.inspection_id) d.id db.attachments
                (λ a. ground (arith, both-among dtos d.id a.inspection_id true h.0)),
          )
          refl)

-- the bulk query for open conflicts does for each dto what the snapshot of its inspection does
pub fill-conflicts :
    (dtos : List InspectionDto) (db : Db)
    → All (λ d. d.conflicts ≡ []) dtos
    → fill put_conflict (conflict_rows dtos db) dtos
      ≡ map (λ (d : InspectionDto). record d { conflicts = open_conflicts_of d.id db }) dtos
unfolding conflict_rows open_conflicts_of
fill-conflicts dtos db none =
    fill-map put_conflict (conflict_rows dtos db) dtos (λ c d. refl)
    ∙ map-equal _ _ _ dtos (All-both _ _ dtos (All-among dtos) none) (λ d h.
      put_all-conflicts (rows_of d.id (conflict_rows dtos db)) d
      ∙ rw
          (
            h.1,
            rows_of-bulk (λ c. c.inspection_id) conflict_dto (λ c. c.created_at)
                (λ c. c.inspection_id == d.id && is_open c.status)
                (λ c. among dtos c.inspection_id && is_open c.status) d.id db.conflicts
                (λ c. both-among dtos d.id c.inspection_id (is_open c.status) h.0),
          )
          refl)
