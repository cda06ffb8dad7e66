-- ===== src/Inspections/Listing/Complete.antt =====
-- What the list of inspections answers.
use cc_005_offline_inspectio.Base.{ℕ, false, List, [], ◌∷◌, map, ◌≡◌, refl, sym, ap, ◌∙◌}
use cc_005_offline_inspectio.Models.{InspectionDto}
use cc_005_offline_inspectio.Db.{Db, Inspection}
use cc_005_offline_inspectio.Tx.{Result, ok, err, World, query_rows, breaks, attempt}
use cc_005_offline_inspectio.Tx.Inversion.{
  Returns, Returns-pure, Returns-bind, Returns-attempt, unbroken-rows,
}
use cc_005_offline_inspectio.Snapshot.{scan_inspection, open_conflicts_of}
use cc_005_offline_inspectio.Inspections.{listed, attachments_for}
use cc_005_offline_inspectio.Inspections.Listing.{
  scan_with_aggregates, owned, list_rows, attachment_rows, conflict_rows, fill_attachments,
  fill_open_conflicts, listing, with_open_conflicts, with_all_attachments, list_inspections,
}
use cc_005_offline_inspectio.Inspections.Listing.Bulk.{All, fill-attachments, fill-conflicts}

abbrev with_own_attachments : Db → InspectionDto → InspectionDto
with_own_attachments db d = record d { attachments = attachments_for d.id db }

abbrev with_own_conflicts : Db → InspectionDto → InspectionDto
with_own_conflicts db d = record d { conflicts = open_conflicts_of d.id db }

-- the entry of a row: its columns, counts, attachments and open conflicts
abbrev pub entry : Db → Inspection → InspectionDto
entry db r = record (scan_with_aggregates db r) {
  attachments = attachments_for r.id db;
  conflicts = open_conflicts_of r.id db;
}

module _ {A B : Type 0} where
  All-every : (P : B → Type 0) (h : A → B) (xs : List A) → ((x : A) → P (h x)) → All P (map h xs)
  All-every P h [] f = tt
  All-every P h (x ∷ xs) f = (f x, All-every P h xs f)

  map-map :
      {C : Type 0} (g : B → C) (h : A → B) (xs : List A) → map g (map h xs) ≡ map (λ x. g (h x)) xs
  map-map g h [] = refl
  map-map g h (x ∷ xs) = rw (map-map g h xs) refl

filled_attachments :
    (out ds : List InspectionDto) (w v : World)
    → breaks w.outcomes ≡ false
    → All (λ d. d.attachments ≡ []) out
    → Returns (fill_attachments out) w ds v
    → (ds ≡ map (with_own_attachments w.db) out) × (w.db ≡ v.db) × (breaks v.outcomes ≡ false)
unfolding fill_attachments
filled_attachments [] ds w v whole none h =
    let (e, f) = Returns-pure [] ds w v h in (sym e, ap (λ (x : World). x.db) f, rw (← f) whole)
filled_attachments (d ∷ out) ds w v whole none h =
    let (rows, u, asked, rest) = Returns-bind (query_rows (attachment_rows (d ∷ out))) _ w ds v h in
    let (answer, same, still) = unbroken-rows (attachment_rows (d ∷ out)) w rows u whole asked in
    let (e, f) = Returns-pure _ ds u v rest in
    (
      sym e ∙ rw (← answer) (fill-attachments (d ∷ out) w.db none),
      same ∙ ap (λ (x : World). x.db) f,
      rw (← f) still,
    )

filled_conflicts :
    (out ds : List InspectionDto) (w v : World)
    → breaks w.outcomes ≡ false
    → All (λ d. d.conflicts ≡ []) out
    → Returns (fill_open_conflicts out) w ds v
    → ds ≡ map (with_own_conflicts w.db) out
unfolding fill_open_conflicts
filled_conflicts [] ds w v whole none h = let (e, f) = Returns-pure [] ds w v h in sym e
filled_conflicts (d ∷ out) ds w v whole none h =
    let (rows, u, asked, rest) = Returns-bind (query_rows (conflict_rows (d ∷ out))) _ w ds v h in
    let (answer, _, _) = unbroken-rows (conflict_rows (d ∷ out)) w rows u whole asked in
    let (e, f) = Returns-pure _ ds u v rest in
    sym e ∙ rw (← answer) (fill-conflicts (d ∷ out) w.db none)

listing-listed :
    (x : Result (List InspectionDto)) (ds : List InspectionDto) → listing x ≡ listed ds → x ≡ ok ds
unfolding listing
listing-listed (err e) ds h = cc h
listing-listed (ok out) ds h = cc h

listed-conflicts :
    (x : Result (List InspectionDto)) (ds : List InspectionDto) (w w' : World)
    → Returns (with_open_conflicts x) w (listed ds) w'
    → (out : List InspectionDto) × (x ≡ ok out)
      × (v : World) × Returns (fill_open_conflicts out) w ds v
unfolding with_open_conflicts
listed-conflicts (err e) ds w w' h = let (other, _) = Returns-pure _ (listed ds) w w' h in cc other
listed-conflicts (ok out) ds w w' h =
    let (y, v, tried, rest) =
      Returns-bind (attempt (fill_open_conflicts out)) _ w (listed ds) w' h in
    let (found, left) = Returns-attempt (fill_open_conflicts out) w y v tried in
    let (answer, _) = Returns-pure _ (listed ds) v w' rest in
    (out, refl, v, (found ∙ listing-listed y ds answer, left))

listed-attachments :
    (x : Result (List InspectionDto)) (ds : List InspectionDto) (w w' : World)
    → Returns (with_all_attachments x) w (listed ds) w'
    → (out mid : List InspectionDto) × (v u : World) × (x ≡ ok out)
      × Returns (fill_attachments out) w mid v
      × Returns (fill_open_conflicts mid) v ds u
unfolding with_all_attachments
listed-attachments (err e) ds w w' h =
    let (other, _) = Returns-pure _ (listed ds) w w' h in cc other
listed-attachments (ok out) ds w w' h =
    let (y, v, tried, rest) = Returns-bind (attempt (fill_attachments out)) _ w (listed ds) w' h in
    let (found, left) = Returns-attempt (fill_attachments out) w y v tried in
    let (mid, here, u, filled) = listed-conflicts y ds v w' rest in
    (out, mid, v, u, refl, (found ∙ here, left), filled)

filled :
    (rs : List Inspection) (db : Db) (out mid ds : List InspectionDto) (v u z : World)
    → map (scan_with_aggregates db) rs ≡ out
    → db ≡ v.db
    → breaks v.outcomes ≡ false
    → Returns (fill_attachments out) v mid u
    → Returns (fill_open_conflicts mid) u ds z
    → ds ≡ map (entry db) rs
unfolding scan_with_aggregates scan_inspection
filled rs db out mid ds v u z rows same whole first_fill second_fill =
    let scan : Inspection → InspectionDto = scan_with_aggregates db in
    let none : All (λ (d : InspectionDto). d.attachments ≡ []) out =
      rw (← rows) (All-every _ scan rs (λ r. refl)) in
    let (attached, kept, still) = filled_attachments out mid v u whole none first_fill in
    let entries : mid ≡ map (λ r. with_own_attachments db (scan r)) rs =
      attached ∙ rw (← same, ← rows) (map-map (with_own_attachments db) scan rs) in
    let none_open : All (λ (d : InspectionDto). d.conflicts ≡ []) mid =
      rw entries (All-every _ (λ r. with_own_attachments db (scan r)) rs (λ r. refl)) in
    filled_conflicts mid ds u z still none_open second_fill
    ∙ rw (← kept, ← same, entries) (map-map (with_own_conflicts db) _ rs)

-- If the list is answered and the rows of no result break off, then it has an entry for each of the
-- user's inspections, deleted ones included, and for no other, the latest change first; and each entry
-- has the attachments that the detail of its inspection shows and the open conflicts that its snapshot
-- shows.
pub list_inspections-entries :
    (user : ℕ) (ds : List InspectionDto) (w w' : World)
    → breaks w.outcomes ≡ false
    → Returns (list_inspections user) w (listed ds) w'
    → ds ≡ map (entry w.db) (owned user w.db)
unfolding list_inspections list_rows
list_inspections-entries user ds w w' whole h =
    let (x, v, tried, rest) =
      Returns-bind (attempt (query_rows (list_rows user))) _ w (listed ds) w' h in
    let (found, left) = Returns-attempt (query_rows (list_rows user)) w x v tried in
    let (out, mid, u, z, here, first_fill, second_fill) = listed-attachments x ds v w' rest in
    let (rows, same, still) = unbroken-rows (list_rows user) w out v whole (found ∙ here, left) in
    filled (owned user w.db) w.db out mid ds v u z rows same still first_fill second_fill
