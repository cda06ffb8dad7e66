-- ===== src/Sync/Effect.antt =====
-- The effect of one delivery of an operation on the tables, whatever the database answers.
use mathlib.Core.Path.{subst}
use cc_005_offline_inspectio.Base.{
  Bool-cases, ℕ, true, Option, none, some, List, [], ◌∷◌, ◌≡◌, ◌⊎◌, refl, sym, inl, inr,
}
use cc_005_offline_inspectio.Models.{Op, OpResult, OpStatus}
use cc_005_offline_inspectio.Models.Outside.{Outside}
use cc_005_offline_inspectio.Db.{Db}
use cc_005_offline_inspectio.Tx.{
  Tx, World, Result, ok, err, Outcome, fine, refused, lost, cut, query, ◌>>◌,
}
use cc_005_offline_inspectio.Tx.Inversion.{Returns, Returns-query, Returns-bind}
use cc_005_offline_inspectio.Sync.Ledger.{
  Ending, rolled_back, committed, commit, finish, in_transaction, deliver, is_known, with_ids,
  apply_op,
}
use cc_005_offline_inspectio.Sync.Delivery.{Committed, deliver-committed}

-- the delivery committed, and the client has the result or, if the answer was lost, an error
pub record Commits (o : Outside) (user : ℕ) (op : Op) (res : OpResult) (a b : Db) : Type 0 where
  pub op_id : ℕ
  pub id : ℕ
  pub result : OpResult
  pub op_id_parsed : o.parse_uuid op.op_id ≡ some op_id
  pub id_parsed : o.parse_uuid op.inspection_id ≡ some id
  pub known : is_known op.kind ≡ true
  pub did : Committed o user op_id id op result a b
  pub reported : (res ≡ result) ⊎ (res.status ≡ OpStatus.error)

-- how a transaction over `body` ended: rolled back, or with the tables of a commit
abbrev Ended : Tx Ending → World → OpResult × World → Type 0
Ended body w (x, w') =
    (w'.db ≡ w.db)
    ⊎ ((r : OpResult) × (v : World) × (u : World) × (w.db ≡ v.db)
        × Returns body v (committed r) u
        × (w'.db ≡ u.db)
        × ((x ≡ r) ⊎ (x.status ≡ OpStatus.error)))

module _ (op : Op) (body : Tx Ending) (w : World) where
  commit-Ended :
      (l : List Outcome) (r : OpResult) (v u : World)
      → w.db ≡ v.db
      → Returns body v (committed r) u
      → Ended body w (commit l op r u w.db)
  commit-Ended [] r v u same h = inr (r, v, u, same, h, refl, inl refl)
  commit-Ended (fine ∷ l) r v u same h = inr (r, v, u, same, h, refl, inl refl)
  commit-Ended (refused e ∷ l) r v u same h = inl refl
  commit-Ended (lost e ∷ l) r v u same h = inr (r, v, u, same, h, refl, inr refl)
  commit-Ended (cut n e ∷ l) r v u same h = inr (r, v, u, same, h, refl, inr refl)

  abbrev begun : Tx Ending
  begun = query (λ db. tt {0}) >> body

  finish-Ended :
      (x : Result Ending) (u : World)
      → (begun w).0 ≡ x
      → (begun w).1 ≡ u
      → Ended body w (finish op (x, u) w.db)
  finish-Ended (err e) u h g = inl refl
  finish-Ended (ok (rolled_back r)) u h g = inl refl
  finish-Ended (ok (committed r)) u h g =
      let (_, v, started, rest) =
        Returns-bind (query (λ db. tt {0})) (λ _. body) w (committed r) u (h, g) in
      let (_, same) = Returns-query (λ db. tt {0}) w tt v started in
      commit-Ended u.outcomes r v u same rest

  in_transaction-Ended : Ended body w (in_transaction op body w)
  unfolding in_transaction
  in_transaction-Ended = finish-Ended (begun w).0 (begun w).1 refl refl

module _ (o : Outside) (user : ℕ) (op : Op) where
  -- a delivery's effect: none, or a commit
  abbrev pub Effect : World → OpResult × World → Type 0
  Effect w (res, w') = (w'.db ≡ w.db) ⊎ Commits o user op res w.db w'.db

  in_transaction-Effect :
      (op_id id : ℕ) (w : World)
      → o.parse_uuid op.op_id ≡ some op_id
      → o.parse_uuid op.inspection_id ≡ some id
      → is_known op.kind ≡ true
      → Effect w (in_transaction op (deliver o user op_id id op) w)
  in_transaction-Effect op_id id w e f known =
      elim (in_transaction-Ended op (deliver o user op_id id op) w) [
        | inl same ↦ inl same
        | inr (r, v, u, same, h, left, told) ↦ inr (record {
          op_id = op_id;
          id = id;
          result = r;
          op_id_parsed = e;
          id_parsed = f;
          known = known;
          did =
              subst (λ b. Committed o user op_id id op r w.db b) (sym left)
                (subst (λ a. Committed o user op_id id op r a u.db) (sym same)
                  (deliver-committed o user op_id id op r v u h));
          reported = told;
        })
      ]

  with_ids-Effect :
      (x y : Option ℕ) (w : World)
      → o.parse_uuid op.op_id ≡ x
      → o.parse_uuid op.inspection_id ≡ y
      → Effect w (with_ids o user op x y w)
  unfolding with_ids
  with_ids-Effect none y w e f = inl refl
  with_ids-Effect (some op_id) none w e f = elim (Bool-cases (is_known op.kind)) [
    | inl known ↦ rw known (inl refl)
    | inr strange ↦ rw strange (inl refl)
  ]
  with_ids-Effect (some op_id) (some id) w e f = elim (Bool-cases (is_known op.kind)) [
    | inl known ↦ rw known (in_transaction-Effect op_id id w e f known)
    | inr strange ↦ rw strange (inl refl)
  ]

  -- However the database answers, a delivery leaves the tables as they were, or it has committed the
  -- operation: the operation was applied once, to the inspection that it names and to nothing of
  -- another inspection, no entry for its id was in the ledger before, its result is terminal and is
  -- the one new entry, and the client is told that result or an error.
  pub apply_op-Effect : (w : World) → Effect w (apply_op o user op w)
  unfolding apply_op
  apply_op-Effect w =
      with_ids-Effect (o.parse_uuid op.op_id) (o.parse_uuid op.inspection_id) w refl refl
