-- ===== src/Sync/Confined.antt =====
-- How far an operation of `user` on the inspection `id` reaches: no row of another inspection and no
-- other table than `inspections`, `field_revs` and `conflicts`; and a new row belongs to `user`.
use cc_005_offline_inspectio.Base.{
  ℕ, String, Bool, true, false, Option, none, some, List, ◌≡◌, ◌≢◌, ◌⊎◌, refl, ap, ◌∙◌, arith, ◌==◌,
  inl, inr, if◌then◌else◌,
}
use mathlib.Core.Option
use cc_005_offline_inspectio.Base.Rows.{first, update, insert}
use cc_005_offline_inspectio.Base.Rows.Laws.{first-insert, or_new, or_new-false}
use cc_005_offline_inspectio.Json.{Json}
use cc_005_offline_inspectio.Models.{Field, title}
use cc_005_offline_inspectio.Db.{
  Db, Inspection, FieldRev, Conflict, has_id, of_field, inspection, field_rev,
}
use cc_005_offline_inspectio.Db.Laws.{inspection-update, field_rev-update}
use cc_005_offline_inspectio.Tx.Respects.{IsPreorder}
use cc_005_offline_inspectio.Sync.Statements.{tombstone, next_rev}
use cc_005_offline_inspectio.Sync.Fields.{set_column, set_items, new_inspection, rev_row, rewritten}
use cc_005_offline_inspectio.Sync.Steps.{Steps}

abbrev pub owner : Db → ℕ → Option ℕ
owner db id = Option.map (λ r. r.owner_id) (inspection db id)

-- the tables that the application of an operation does not write
pub record SameBooks (a b : Db) : Type 0 where
  pub users : b.users ≡ a.users
  pub processed_ops : b.processed_ops ≡ a.processed_ops
  pub attachments : b.attachments ≡ a.attachments
  pub upload_parts : b.upload_parts ≡ a.upload_parts

pub record Confined (user id : ℕ) (a b : Db) : Type 0 where
  pub books : SameBooks a b
  pub inspections : (j : ℕ) → j ≢ id → inspection b j ≡ inspection a j
  pub field_revs : (j : ℕ) (f : Field) → j ≢ id → field_rev b j f ≡ field_rev a j f
  pub owners : (x : ℕ) → owner b id ≡ some x → (owner a id ≡ some x) ⊎ (x ≡ user)

same_owner :
    (c : Bool) (f : Inspection → Inspection) (r : Option Inspection)
    → ((r : Inspection) → ((f r).id ≡ r.id) × ((f r).owner_id ≡ r.owner_id))
    → Option.map (λ r. r.owner_id) (if c then Option.map f r else r)
      ≡ Option.map (λ r. r.owner_id) r
same_owner true f none h = refl
same_owner true f (some r) h = ap some (h r).1
same_owner false f r h = refl

owner-update :
    (id : ℕ) (f : Inspection → Inspection) (db : Db)
    → ((r : Inspection) → ((f r).id ≡ r.id) × ((f r).owner_id ≡ r.owner_id))
    → owner (record db { inspections = update (has_id id) f db.inspections }) id ≡ owner db id
owner-update id f db h =
    rw (inspection-update id id f db.inspections (λ r. (h r).0))
      (same_owner (id == id) f (inspection db id) h)

module _ (user id : ℕ) where
  Confined-IsPreorder : IsPreorder (Confined user id)
  Confined-IsPreorder = record {
    self = λ a. record {
      books = record {
        users = refl;
        processed_ops = refl;
        attachments = refl;
        upload_parts = refl;
      };
      inspections = λ j h. refl;
      field_revs = λ j f h. refl;
      owners = λ x e. inl e;
    };
    through = λ a b c f g. record {
      books = ground (arith, f.books, g.books);
      inspections = λ j h. g.inspections j h ∙ f.inspections j h;
      field_revs = λ j k h. g.field_revs j k h ∙ f.field_revs j k h;
      owners = λ x e. elim (g.owners x e) [ inl before ↦ f.owners x before | inr same ↦ inr same ];
    };
  }

  -- the tables of field revisions and of conflicts may change in their own rows
  same_inspections-Confined :
      (db : Db) (revs : List FieldRev)
      → ((j : ℕ) (f : Field) → j ≢ id → first (of_field j f) revs ≡ field_rev db j f)
      → Confined user id db (record db { field_revs = revs })
  same_inspections-Confined db revs h = record {
    books = record { users = refl; processed_ops = refl; attachments = refl; upload_parts = refl };
    inspections = λ j _. refl;
    field_revs = h;
    owners = λ x e. inl e;
  }

  update-Confined :
      (f : Inspection → Inspection) (db : Db)
      → ((r : Inspection) → ((f r).id ≡ r.id) × ((f r).owner_id ≡ r.owner_id))
      → Confined user id db (record db { inspections = update (has_id id) f db.inspections })
  update-Confined f db h = record {
    books = record { users = refl; processed_ops = refl; attachments = refl; upload_parts = refl };
    inspections =
        λ j other. rw (inspection-update id j f db.inspections (λ r. (h r).0)) (ground (arith));
    field_revs = λ j k _. refl;
    owners = λ x e. inl (rw (owner-update id f db h) at e);
  }

  set_column-keeps :
      (f : Field) (s : String) (r : Inspection)
      → ((set_column f s r).id ≡ r.id) × ((set_column f s r).owner_id ≡ r.owner_id)
  unfolding set_column
  set_column-keeps title s r = (refl, refl)
  set_column-keeps _ s r = (refl, refl)

  insert-Confined :
      (new : Inspection) (db : Db)
      → new.id ≡ id
      → new.owner_id ≡ user
      → Confined user id db (record db { inspections = insert new db.inspections })
  insert-Confined new db at_id own = record {
    books = record { users = refl; processed_ops = refl; attachments = refl; upload_parts = refl };
    inspections = λ j apart.
        first-insert (has_id j) new db.inspections ∙ or_new-false (has_id j) new _ (ground arith);
    field_revs = λ j k _. refl;
    owners = λ x e. go (inspection db id) x (rw (first-insert (has_id id) new db.inspections) at e);
  }
    where
      go :
          (r : Option Inspection) (x : ℕ)
          → Option.map (λ r. r.owner_id) (or_new (has_id id) new r) ≡ some x
          → (Option.map (λ r. r.owner_id) r ≡ some x) ⊎ (x ≡ user)
      go none x e = inr (ground arith)
      go (some r) x e = inl e

  rewrite-apart :
      (f : Field) (at : ℕ) (v : Json) (op_id : ℕ) (db : Db) (j : ℕ) (k : Field)
      → j ≢ id
      → first (of_field j k) (update (of_field id f) (rewritten at v op_id) db.field_revs)
        ≡ field_rev db j k
  rewrite-apart f at v op_id db j k apart =
      rw (field_rev-update id j f k (rewritten at v op_id) db.field_revs (λ r. refl) (λ r. refl))
        (ground arith)

  add_rev-apart :
      (row : FieldRev) (db : Db) (j : ℕ) (k : Field)
      → row.inspection_id ≡ id
      → j ≢ id
      → first (of_field j k) (insert row db.field_revs) ≡ field_rev db j k
  add_rev-apart row db j k at_id apart =
      first-insert (of_field j k) row db.field_revs
      ∙ or_new-false (of_field j k) row _ (ground arith)

  conflicts-Confined :
      (db : Db) (cs : List Conflict) → Confined user id db (record db { conflicts = cs })
  conflicts-Confined db cs = record {
    books = record { users = refl; processed_ops = refl; attachments = refl; upload_parts = refl };
    inspections = λ j _. refl;
    field_revs = λ j k _. refl;
    owners = λ x e. inl e;
  }

  -- Every write of an operation of `user` on `id` is confined.
  pub Confined-Steps : Steps (Confined user id) user id
  Confined-Steps = record {
    preorder = Confined-IsPreorder;
    column = λ f s db. update-Confined (set_column f s) db (set_column-keeps f s);
    items = λ j db. update-Confined (set_items j) db (λ r. (refl, refl));
    delete = λ at db. update-Confined (tombstone at) db (λ r. (refl, refl));
    bump = λ at db. update-Confined (next_rev at) db (λ r. (refl, refl));
    create = λ at j d db _. insert-Confined (new_inspection at user id j d) db refl refl;
    add_rev = λ at f j op_id db _.
        same_inspections-Confined db _ (λ i k. add_rev-apart (rev_row at id f j op_id) db i k refl);
    rewrite = λ at f j op_id db. same_inspections-Confined db _ (rewrite-apart f at j op_id db);
    add_conflict = λ at new_id f cur op_id j k db _ _. conflicts-Confined db _;
    choose = λ c j op_id db. conflicts-Confined db _;
    settle = λ c at j db. conflicts-Confined db _;
  }
