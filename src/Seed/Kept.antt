-- ===== src/Seed/Kept.antt =====
-- No operation takes away what the seed has inserted.
use mathlib.Core.Path.{subst}
use cc_005_offline_inspectio.Base.{
  ℕ, String, Bool, ◌≡◌, refl, sym, inl, inr, List, [], ◌∷◌, Bool-cases, ◌∙◌,
}
use cc_005_offline_inspectio.Base.Rows.{exists, update}
use cc_005_offline_inspectio.Models.{Field, title, Op, OpResult}
use cc_005_offline_inspectio.Models.Outside.{Outside}
use cc_005_offline_inspectio.Db.{Db, Inspection, has_id, of_field}
use cc_005_offline_inspectio.Tx.{World}
use cc_005_offline_inspectio.Sync.Statements.{tombstone, next_rev}
use cc_005_offline_inspectio.Sync.Fields.{set_column, set_items, new_inspection, rewritten, rev_row}
use cc_005_offline_inspectio.Sync.Ledger.{apply_op}
use cc_005_offline_inspectio.Sync.Steps.{Steps}
use cc_005_offline_inspectio.Sync.Steps.Operation.{apply_op_tx-Respects}
use cc_005_offline_inspectio.Sync.Delivery.{Committed}
use cc_005_offline_inspectio.Sync.Effect.{apply_op-Effect}
use cc_005_offline_inspectio.Seed.Adds.{Grows, Grows-IsPreorder, exists-insert_stays}

exists-update :
    {A : Type 0} (p q : A → Bool) (f : A → A) (xs : List A)
    → ((x : A) → p (f x) ≡ p x)
    → exists p (update q f xs) ≡ exists p xs
unfolding exists update
exists-update p q f [] h = refl
exists-update p q f (x ∷ xs) h = elim (Bool-cases (q x)) [
  | inl e ↦ rw (e, h x, exists-update p q f xs h) refl
  | inr e ↦ rw (e, exists-update p q f xs h) refl
]

-- tables that differ in other columns and tables
pub unmoved-Grows :
    (a b : Db)
    → b.users ≡ a.users
    → b.inspections ≡ a.inspections
    → b.field_revs ≡ a.field_revs
    → Grows a b
unmoved-Grows a b e f g = record {
  users_stay = λ n h. rw e h;
  inspections_stay = λ i h. rw f h;
  revs_stay = λ i k h. rw g h;
}

update-Grows :
    (id : ℕ) (f : Inspection → Inspection) (db : Db)
    → ((r : Inspection) → (f r).id ≡ r.id)
    → Grows db (record db { inspections = update (has_id id) f db.inspections })
update-Grows id f db h = record {
  users_stay = λ n k. k;
  inspections_stay =
      λ i k. exists-update (has_id i) (has_id id) f db.inspections (λ r. rw (h r) refl) ∙ k;
  revs_stay = λ i g k. k;
}

set_column-id : (f : Field) (s : String) (r : Inspection) → (set_column f s r).id ≡ r.id
unfolding set_column
set_column-id title s r = refl
set_column-id _ s r = refl

Grows-Steps : (user id : ℕ) → Steps Grows user id
Grows-Steps user id = record {
  preorder = Grows-IsPreorder;
  column = λ f s db. update-Grows id (set_column f s) db (set_column-id f s);
  items = λ j db. update-Grows id (set_items j) db (λ r. refl);
  delete = λ at db. update-Grows id (tombstone at) db (λ r. refl);
  bump = λ at db. update-Grows id (next_rev at) db (λ r. refl);
  create = λ at j d db _. record {
    users_stay = λ n k. k;
    inspections_stay =
        λ i. exists-insert_stays (has_id i) (new_inspection at user id j d) db.inspections;
    revs_stay = λ i g k. k;
  };
  add_rev = λ at f j op_id db _. record {
    users_stay = λ n k. k;
    inspections_stay = λ i k. k;
    revs_stay = λ i g. exists-insert_stays (of_field i g) (rev_row at id f j op_id) db.field_revs;
  };
  rewrite = λ at f j op_id db. record {
    users_stay = λ n k. k;
    inspections_stay = λ i k. k;
    revs_stay = λ i g k.
        exists-update (of_field i g) (of_field id f) (rewritten at j op_id) db.field_revs
          (λ r. refl)
        ∙ k;
  };
  add_conflict = λ at new_id f cur op_id j k db _ _. unmoved-Grows db _ refl refl refl;
  choose = λ c j op_id db. unmoved-Grows db _ refl refl refl;
  settle = λ c at j db. unmoved-Grows db _ refl refl refl;
}

Committed-Grows :
    {o : Outside} {user op_id id : ℕ} {op : Op} {res : OpResult} (a b : Db)
    → Committed o user op_id id op res a b
    → Grows a b
Committed-Grows {o} {user} {op_id} {id} {op} {res} a b c =
    let walked : Grows c.before.db c.after.db =
      rw c.ran.1 at ((apply_op_tx-Respects o (Grows-Steps user id) op_id op).at c.before) in
    let applied : Grows a c.applied = rw (c.started, c.left) at walked in
    subst (Grows a) (sym c.recorded)
      (Grows-IsPreorder.through a c.applied _ applied (unmoved-Grows c.applied _ refl refl refl))

pub apply_op-Grows :
    (o : Outside) (user : ℕ) (op : Op) (w : World) → Grows w.db (apply_op o user op w).1.db
apply_op-Grows o user op w = elim (apply_op-Effect o user op w) [
  | inl same ↦ subst (Grows w.db) (sym same) (Grows-IsPreorder.self w.db)
  | inr c ↦ Committed-Grows _ _ c.did
]
