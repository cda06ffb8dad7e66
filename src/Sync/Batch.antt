-- ===== src/Sync/Batch.antt =====
-- A whole sync request.
use cc_005_offline_inspectio.Base.{ℕ, Option, none, some, List, [], ◌∷◌, ◌++◌, ◌≡◌, ◌≢◌, refl, ◌∙◌}
use cc_005_offline_inspectio.Models.{Field, Op}
use cc_005_offline_inspectio.Models.Outside.{Outside}
use cc_005_offline_inspectio.Db.{Inspection, inspection, field_rev}
use cc_005_offline_inspectio.Tx.{World}
use cc_005_offline_inspectio.Sync.Ledger.{apply_op, apply_ops, sync}
use cc_005_offline_inspectio.Sync.Isolation.{apply_op-isolated}

module _ (o : Outside) (user : ℕ) where
  -- A queue that a client sends in two requests, one after the other, is answered and applied as if it
  -- were sent in one.
  pub apply_ops-append :
      (xs ys : List Op) (w : World)
      → apply_ops o user (xs ++ ys) w ≡ (
        (apply_ops o user xs w).0 ++ (apply_ops o user ys (apply_ops o user xs w).1).0,
        (apply_ops o user ys (apply_ops o user xs w).1).1,
      )
  unfolding apply_ops
  apply_ops-append [] ys w = refl
  apply_ops-append (x ∷ xs) ys w = rw (apply_ops-append xs ys (apply_op o user x w).1)

  ops-isolated :
      (ops : List Op) (w : World) (j : ℕ) (r : Inspection)
      → inspection w.db j ≡ some r
      → r.owner_id ≢ user
      → (inspection (apply_ops o user ops w).1.db j ≡ some r)
        × ((f : Field) → field_rev (apply_ops o user ops w).1.db j f ≡ field_rev w.db j f)
  unfolding apply_ops
  ops-isolated [] w j r found foreign = (found, λ f. refl)
  ops-isolated (op ∷ ops) w j r found foreign =
      let (still, revs) = apply_op-isolated o user op w j r found foreign in
      let (row, others) = ops-isolated ops (apply_op o user op w).1 j r still foreign in
      (row, λ f. others f ∙ revs f)

  -- Whatever a sync request of a user holds, an inspection of another user keeps its row and the
  -- lineage of its fields.
  pub sync-isolated :
      (req : Option (List Op)) (w : World) (j : ℕ) (r : Inspection)
      → inspection w.db j ≡ some r
      → r.owner_id ≢ user
      → (inspection (sync o user req w).1.db j ≡ some r)
        × ((f : Field) → field_rev (sync o user req w).1.db j f ≡ field_rev w.db j f)
  unfolding sync
  sync-isolated none w j r found foreign = (found, λ f. refl)
  sync-isolated (some ops) w j r found foreign = ops-isolated ops w j r found foreign
