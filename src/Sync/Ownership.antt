-- ===== src/Sync/Ownership.antt =====
-- Operations on an inspection of somebody else.
use cc_005_offline_inspectio.Base.{ℕ, false, some, ◌≡◌, refl, ◌⊎◌, inl, inr, ◌==◌, Bool-cases}
use cc_005_offline_inspectio.Models.{
  editable, Op, OpType, upsert, delete, resolve_conflict, unknown_op, OpResult, OpStatus,
  not_assigned, bad_field,
}
use cc_005_offline_inspectio.Models.Outside.{Outside}
use cc_005_offline_inspectio.Db.{Db, Inspection, inspection}
use cc_005_offline_inspectio.Tx.{World, Result, ok, err, pure, query, ◌>>=◌}
use cc_005_offline_inspectio.Tx.Inversion.{query-bind}
use cc_005_offline_inspectio.Sync.Upsert.{upsert_or_delete}
use cc_005_offline_inspectio.Sync.Resolve.{resolve_on, apply_resolve, apply_kind, apply_op_tx}

-- an application that changed nothing, and that answered, if it did, that the operation is not allowed
-- or names no editable field
abbrev IsRefusal : Db → Result OpResult × World → Type 0
IsRefusal db (err e, v) = v.db ≡ db
IsRefusal db (ok res, v) =
    (v.db ≡ db)
    × (((res.status ≡ OpStatus.forbidden) × (res.code ≡ not_assigned))
        ⊎ ((res.status ≡ OpStatus.invalid) × (res.code ≡ bad_field)))

pub IsRefusal-same : (db : Db) (x : Result OpResult × World) → IsRefusal db x → x.1.db ≡ db
IsRefusal-same db (err e, v) h = h
IsRefusal-same db (ok res, v) h = h.0

module _ (o : Outside) (user op_id id : ℕ) (op : Op) (r : Inspection)
    (foreign : (r.owner_id == user) ≡ false) where
  refused_upsert :
      (db : Db) (v : World)
      → v.db ≡ db
      → IsRefusal db (upsert_or_delete o user op_id id op (some r) v)
  unfolding upsert_or_delete pure
  refused_upsert db v same = rw foreign (same, inl (refl, refl))

  refused_resolve :
      (db : Db) (v : World) → v.db ≡ db → IsRefusal db (resolve_on o user op_id id op (some r) v)
  unfolding resolve_on pure
  refused_resolve db v same = rw foreign (same, inl (refl, refl))

  refused_upsert_query :
      (w : World)
      → inspection w.db id ≡ some r
      → IsRefusal w.db (
          (query (λ db. inspection db id) >>= λ found. upsert_or_delete o user op_id id op found) w)
  refused_upsert_query w found =
      query-bind (IsRefusal w.db) (λ db. inspection db id) (upsert_or_delete o user op_id id op) w
        (λ e v same. same) (λ v same. rw found (refused_upsert w.db v same))

  refused_kind :
      (kind : OpType) (w : World)
      → inspection w.db id ≡ some r
      → IsRefusal w.db (apply_kind o user op_id id op kind w)
  unfolding apply_kind apply_resolve pure
  refused_kind resolve_conflict w found = elim (Bool-cases (editable op.field)) [
    | inl e ↦ rw e (
        query-bind (IsRefusal w.db) (λ db. inspection db id) (resolve_on o user op_id id op) w
          (λ e v same. same) (λ v same. rw found (refused_resolve w.db v same)))
    | inr e ↦ rw e (refl, inr (refl, refl))
  ]
  refused_kind upsert w found = refused_upsert_query w found
  refused_kind delete w found = refused_upsert_query w found
  refused_kind (unknown_op s) w found = refused_upsert_query w found

  pub apply_op_tx-IsRefusal :
      (w : World) → inspection w.db id ≡ some r → IsRefusal w.db (apply_op_tx o user op_id id op w)
  unfolding apply_op_tx
  apply_op_tx-IsRefusal w found = refused_kind op.kind w found
