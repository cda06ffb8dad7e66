-- ===== src/Db/Laws.antt =====
-- The row under a key after an update or an insertion.
use cc_005_offline_inspectio.Base.{
  ℕ, true, false, ◌&&◌, List, ◌≡◌, arith, ◌==◌, ==_iff, inl, inr, Bool-cases, if◌then◌else◌,
  both_true,
}
use mathlib.Core.Option
use cc_005_offline_inspectio.Base.Rows.{first, update}
use cc_005_offline_inspectio.Base.Rows.Laws.{first-update, first-update_apart}
use cc_005_offline_inspectio.Models.{Field, field_eq, field_eq_iff}
use cc_005_offline_inspectio.Db.{Inspection, FieldRev, has_id, of_field}

pub inspection-update :
    (id j : ℕ) (f : Inspection → Inspection) (xs : List Inspection)
    → ((r : Inspection) → (f r).id ≡ r.id)
    → first (has_id j) (update (has_id id) f xs)
      ≡ (if id == j then Option.map f (first (has_id j) xs) else first (has_id j) xs)
inspection-update id j f xs h = elim (Bool-cases (id == j)) [
  | inl e ↦ rw (e, ← (==_iff id j).0 e) (first-update (has_id id) f xs (λ r. rw (h r)))
  | inr e ↦ rw e (
      first-update_apart (has_id id) (has_id j) f xs (λ r p. ground arith)
        (λ r p. rw (h r) (ground arith)))
]

of_field-apart :
    (id j : ℕ) (k l : Field) (r : FieldRev)
    → (id == j && field_eq k l) ≡ false
    → of_field id k r ≡ true
    → of_field j l r ≡ false
of_field-apart id j k l r e p =
    let (ids, fields) = both_true (r.inspection_id == id) (field_eq r.field k) p in
    rw ((==_iff r.inspection_id id).0 ids, (field_eq_iff r.field k).0 fields) e

pub field_rev-update :
    (id j : ℕ) (k l : Field) (f : FieldRev → FieldRev) (xs : List FieldRev)
    → ((r : FieldRev) → (f r).inspection_id ≡ r.inspection_id)
    → ((r : FieldRev) → (f r).field ≡ r.field)
    → first (of_field j l) (update (of_field id k) f xs) ≡ (
        if id == j && field_eq k l
        then Option.map f (first (of_field j l) xs)
        else first (of_field j l) xs)
field_rev-update id j k l f xs h g = elim (Bool-cases (id == j && field_eq k l)) [
  | inl e ↦
      let (ids, fields) = both_true (id == j) (field_eq k l) e in
      rw (e, ← (==_iff id j).0 ids, ← (field_eq_iff k l).0 fields)
        (first-update (of_field id k) f xs (λ r. rw (h r, g r)))
  | inr e ↦ rw e (
      first-update_apart (of_field id k) (of_field j l) f xs (λ r p. of_field-apart id j k l r e p)
        (λ r p. rw (h r, g r) (of_field-apart id j k l r e p)))
]
