-- ===== src/Sync/Evolves.antt =====
-- What no operation undoes: a row of `inspections` stays, with its owner and its tombstone, and its
-- revision does not go down.
use cc_005_offline_inspectio.Base.{
  ℕ, String, true, some, ◌≡◌, refl, ◌≤◌, arith, ◌==◌, inl, inr, Bool-cases,
}
use cc_005_offline_inspectio.Base.Rows.{update, insert}
use cc_005_offline_inspectio.Base.Rows.Laws.{first-insert}
use cc_005_offline_inspectio.Models.{Field, title}
use cc_005_offline_inspectio.Db.{Db, Inspection, has_id, inspection}
use cc_005_offline_inspectio.Db.Laws.{inspection-update}
use cc_005_offline_inspectio.Tx.Respects.{IsPreorder}
use cc_005_offline_inspectio.Sync.Statements.{tombstone, next_rev}
use cc_005_offline_inspectio.Sync.Fields.{set_column, set_items, new_inspection}
use cc_005_offline_inspectio.Sync.Steps.{Steps}

-- a later state of a row
pub record Continues (r r' : Inspection) : Type 0 where
  pub same_id : r'.id ≡ r.id
  pub same_owner : r'.owner_id ≡ r.owner_id
  pub stays_deleted : r.is_deleted ≡ true → r'.is_deleted ≡ true
  pub grows : r.rev ≤ r'.rev

Continues-refl : (r : Inspection) → Continues r r
Continues-refl r = record {
  same_id = refl;
  same_owner = refl;
  stays_deleted = λ h. h;
  grows = omega arith;
}

pub record Evolves (a b : Db) : Type 0 where
  pub row :
      (id : ℕ) (r : Inspection)
      → inspection a id ≡ some r
      → (r' : Inspection) × (inspection b id ≡ some r') × Continues r r'

pub Evolves-IsPreorder : IsPreorder Evolves
Evolves-IsPreorder = record {
  self = λ a. record { row = λ id r e. (r, e, Continues-refl r) };
  through = λ a b c f g. record {
    row = λ id r e.
        let (s, es, cs) = f.row id r e in
        let (t, et, ct) = g.row id s es in
        (
          t,
          et,
          record {
            same_id = cc (cs.same_id, ct.same_id);
            same_owner = cc (cs.same_owner, ct.same_owner);
            stays_deleted = λ h. ct.stays_deleted (cs.stays_deleted h);
            grows = omega (arith, cs.grows, ct.grows);
          },
        );
  };
}

-- an update of one row by a function that continues it
update-Evolves :
    (id : ℕ) (f : Inspection → Inspection) (db : Db)
    → ((r : Inspection) → Continues r (f r))
    → Evolves db (record db { inspections = update (has_id id) f db.inspections })
update-Evolves id f db h = record {
  row = λ j r found.
      rw (inspection-update id j f db.inspections (λ s. (h s).same_id))
        (elim (Bool-cases (id == j)) [
          | inl e ↦ rw (e, found) (f r, refl, h r)
          | inr e ↦ rw (e, found) (r, refl, Continues-refl r)
        ]);
}

insert-Evolves :
    (new : Inspection) (db : Db)
    → Evolves db (record db { inspections = insert new db.inspections })
insert-Evolves new db = record {
  row = λ j r found.
      rw (first-insert (has_id j) new db.inspections, found) (r, refl, Continues-refl r);
}

set_column-Continues : (f : Field) (s : String) (r : Inspection) → Continues r (set_column f s r)
unfolding set_column
set_column-Continues title s r = ground arith
set_column-Continues _ s r = ground arith

-- Every write of an operation lets every row of `inspections` continue.
pub Evolves-Steps : (user id : ℕ) → Steps Evolves user id
Evolves-Steps user id = record {
  preorder = Evolves-IsPreorder;
  column = λ f s db. update-Evolves id (set_column f s) db (set_column-Continues f s);
  items = λ j db. update-Evolves id (set_items j) db (λ r. ground arith);
  delete = λ at db. update-Evolves id (tombstone at) db (λ r. ground arith);
  bump = λ at db. update-Evolves id (next_rev at) db (λ r. ground arith);
  create = λ at j d db _. insert-Evolves (new_inspection at user id j d) db;
  add_rev = λ at f j op_id db _. record { row = λ i r e. (r, e, Continues-refl r) };
  rewrite = λ at f j op_id db. record { row = λ i r e. (r, e, Continues-refl r) };
  add_conflict =
      λ at new_id f cur op_id j k db _ _. record { row = λ i r e. (r, e, Continues-refl r) };
  choose = λ c j op_id db. record { row = λ i r e. (r, e, Continues-refl r) };
  settle = λ c at j db. record { row = λ i r e. (r, e, Continues-refl r) };
}
