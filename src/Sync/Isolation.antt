-- ===== src/Sync/Isolation.antt =====
-- What a delivery of one user leaves of the inspections of the others.
use native.Mathlib.Decide.{ℕ_discrete}
use cc_005_offline_inspectio.Base.{ℕ, some, ◌≡◌, ◌≢◌, ◌⊎◌, refl, ◌∙◌, inl, inr, arith}
use cc_005_offline_inspectio.Models.{Field, Op, OpResult}
use cc_005_offline_inspectio.Models.Outside.{Outside}
use cc_005_offline_inspectio.Db.{Db, Inspection, inspection, field_rev}
use cc_005_offline_inspectio.Tx.{World}
use cc_005_offline_inspectio.Sync.Ledger.{apply_op}
use cc_005_offline_inspectio.Sync.Confined.{owner}
use cc_005_offline_inspectio.Sync.Delivery.{Committed}
use cc_005_offline_inspectio.Sync.Effect.{apply_op-Effect}

Committed-foreign :
    {o : Outside} {user op_id id : ℕ} {op : Op} {res : OpResult} (a b : Db)
    (c : Committed o user op_id id op res a b) (j : ℕ) (r : Inspection)
    → inspection a j ≡ some r
    → r.owner_id ≢ user
    → (inspection b j ≡ some r) × ((f : Field) → field_rev b j f ≡ field_rev a j f)
Committed-foreign {user} {op_id} {id} a b c j r found foreign = elim (ℕ_discrete j id) [
  | yes same ↦
      let still = c.refused r (rw same at found) (ground arith) in
      rw (c.recorded, still) (found, λ f. refl)
  | no apart ↦
      rw c.recorded (c.confined.inspections j apart ∙ found, λ f. c.confined.field_revs j f apart)
]

-- Whatever operation a user sends and however the database answers, an inspection that belongs to
-- somebody else keeps its row and the lineage of all its fields.
pub apply_op-isolated :
    (o : Outside) (user : ℕ) (op : Op) (w : World) (j : ℕ) (r : Inspection)
    → inspection w.db j ≡ some r
    → r.owner_id ≢ user
    → (inspection (apply_op o user op w).1.db j ≡ some r)
      × ((f : Field) → field_rev (apply_op o user op w).1.db j f ≡ field_rev w.db j f)
apply_op-isolated o user op w j r found foreign = elim (apply_op-Effect o user op w) [
  | inl same ↦ rw same (found, λ f. refl)
  | inr c ↦ Committed-foreign _ _ c.did j r found foreign
]

-- The owner of an inspection after a delivery is the one before it, or the user of the token that
-- sent the operation: no field of the operation chooses it.
pub apply_op-owner :
    (o : Outside) (user : ℕ) (op : Op) (w : World) (j x : ℕ)
    → owner (apply_op o user op w).1.db j ≡ some x
    → (owner w.db j ≡ some x) ⊎ (x ≡ user)
apply_op-owner o user op w j x e = elim (apply_op-Effect o user op w) [
  | inl same ↦ inl (rw same at e)
  | inr c ↦ elim (ℕ_discrete j c.id) [
    | yes at_id ↦ rw at_id (c.did.confined.owners x (rw (c.did.recorded, at_id) at e))
    | no apart ↦ inl (rw (c.did.recorded, c.did.confined.inspections j apart) at e)
  ]
]
