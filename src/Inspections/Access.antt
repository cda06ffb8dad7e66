-- ===== src/Inspections/Access.antt =====
-- Who may read an inspection and resolve its conflicts.
use cc_005_offline_inspectio.Base.{
  ℕ, String, Option, none, some, List, [], ◌≡◌, ◌≢◌, refl, ap, ◌∙◌, sym, inl, inr, ◌==◌, ==_iff,
  Bool-cases,
}
use cc_005_offline_inspectio.Models.{Field, AttachmentDto, ConflictDto, InspectionDto, Op}
use cc_005_offline_inspectio.Models.Outside.{Outside}
use cc_005_offline_inspectio.Db.{Db, Inspection, inspection, field_rev}
use cc_005_offline_inspectio.Tx.{Result, ok, err, World, query, attempt}
use cc_005_offline_inspectio.Tx.Inversion.{
  Returns, Returns-pure, Returns-bind, Returns-attempt, Returns-query,
}
use cc_005_offline_inspectio.Snapshot.{scan_inspection}
use cc_005_offline_inspectio.Sync.Isolation.{apply_op-isolated}
use cc_005_offline_inspectio.Uploads.Completion.{query-kept}
use cc_005_offline_inspectio.Inspections.{
  Reply, detail, Fetched, fetched, unfetched, fetched_of, fetch_one, with_conflicts,
  with_attachments, detail_of, get_inspection, Resolution, resolve_owned, conflict_owner,
  resolve_endpoint, resolve_op,
}

-- the row of an inspection and the lineage of its fields stay
abbrev pub IsUntouched : ℕ → Inspection → Db → Db → Type 0
IsUntouched j r a b = (inspection b j ≡ some r) × ((f : Field) → field_rev b j f ≡ field_rev a j f)

module _ (o : Outside) (user : ℕ) where
  resolve_owned-IsUntouched :
      (op : Op) (x : Result (Option ℕ)) (w : World) (j : ℕ) (r : Inspection)
      → inspection w.db j ≡ some r
      → r.owner_id ≢ user
      → IsUntouched j r w.db (resolve_owned o user op x w).1.db
  unfolding resolve_owned
  resolve_owned-IsUntouched op (err e) w j r found foreign = (found, λ f. refl)
  resolve_owned-IsUntouched op (ok none) w j r found foreign = (found, λ f. refl)
  resolve_owned-IsUntouched op (ok (some owner)) w j r found foreign =
      elim (Bool-cases (owner == user)) [
        | inl e ↦ rw e (apply_op-isolated o user op w j r found foreign)
        | inr e ↦ rw e (found, λ f. refl)
      ]

  -- Whatever conflict, inspection and value a request to the conflict endpoint names, an inspection of
  -- another user keeps its row and the lineage of its fields.
  pub resolve_endpoint-IsUntouched :
      (conflict_id : ℕ) (op_id : String) (req : Option Resolution) (w : World) (j : ℕ)
      (r : Inspection)
      → inspection w.db j ≡ some r
      → r.owner_id ≢ user
      → IsUntouched j r w.db (resolve_endpoint o user conflict_id op_id req w).1.db
  unfolding resolve_endpoint
  resolve_endpoint-IsUntouched conflict_id op_id none w j r found foreign = (found, λ f. refl)
  resolve_endpoint-IsUntouched conflict_id op_id (some req) w j r found foreign =
      let asked = query (conflict_owner conflict_id) w in
      let same : asked.1.db ≡ w.db = query-kept (conflict_owner conflict_id) w in
      rw same at (
        resolve_owned-IsUntouched (resolve_op op_id req) asked.0 asked.1 j r (rw same found)
          foreign)

-- the columns of a detail are those of a row, and the user is its owner
abbrev pub IsOwnRow : ℕ → ℕ → InspectionDto → Db → Type 0
IsOwnRow user id d db =
    (r : Inspection) × (inspection db id ≡ some r)
    × (r.owner_id ≡ user)
    × (record d { attachments = []; conflicts = [] } ≡ scan_inspection r)

module _ (user id : ℕ) where
  fetched-own :
      (x : Result (Option Inspection)) (d : InspectionDto)
      → fetched_of user x ≡ fetched d
      → (r : Inspection) × (x ≡ ok (some r)) × (r.owner_id ≡ user) × (scan_inspection r ≡ d)
  unfolding fetched_of
  fetched-own (err e) d h = cc h
  fetched-own (ok none) d h = cc h
  fetched-own (ok (some r)) d h = elim (Bool-cases (r.owner_id == user)) [
    | inl e ↦ (r, refl, (==_iff r.owner_id user).0 e, cc (rw e at h))
    | inr e ↦ cc (rw e at h)
  ]

  unfetched-failed :
      (x : Result (Option Inspection)) (r : Reply) (d : InspectionDto)
      → fetched_of user x ≡ unfetched r
      → r ≢ detail d
  unfolding fetched_of
  unfetched-failed (err e) r d h g = cc (h, g)
  unfetched-failed (ok none) r d h g = cc (h, g)
  unfetched-failed (ok (some row)) r d h g = elim (Bool-cases (row.owner_id == user)) [
    | inl e ↦ cc (rw e at h)
    | inr e ↦ cc (rw e at h, g)
  ]

  -- the columns of `d` are those of `a`
  abbrev SameColumns : InspectionDto → InspectionDto → Type 0
  SameColumns a d =
      record d { attachments = []; conflicts = [] } ≡ record a { attachments = []; conflicts = [] }

  with_conflicts-SameColumns :
      (a d : InspectionDto) (as' : List AttachmentDto) (x : Result (List ConflictDto))
      → with_conflicts a as' x ≡ detail d
      → SameColumns a d
  unfolding with_conflicts
  with_conflicts-SameColumns a d as' (err e) h = cc h
  with_conflicts-SameColumns a d as' (ok cs) h =
      let same : record a { attachments = as'; conflicts = cs } ≡ d = cc h in
      ap (λ (z : InspectionDto). record z { attachments = []; conflicts = [] }) (sym same)

  with_attachments-SameColumns :
      (a d : InspectionDto) (x : Result (List AttachmentDto)) (w w' : World)
      → Returns (with_attachments id a x) w (detail d) w'
      → SameColumns a d
  unfolding with_attachments
  with_attachments-SameColumns a d (err e) w w' h =
      let (other, _) = Returns-pure _ (detail d) w w' h in cc other
  with_attachments-SameColumns a d (ok as') w w' h =
      let (cs, v, _, rest) = Returns-bind (attempt _) _ w (detail d) w' h in
      let (reply, _) = Returns-pure _ (detail d) v w' rest in
      with_conflicts-SameColumns a d as' cs reply

  detail_of-SameColumns :
      (x : Fetched) (d : InspectionDto) (w w' : World)
      → ((r : Reply) → x ≡ unfetched r → r ≢ detail d)
      → Returns (detail_of id x) w (detail d) w'
      → (a : InspectionDto) × (x ≡ fetched a) × SameColumns a d
  unfolding detail_of
  detail_of-SameColumns (unfetched r) d w w' apart h =
      let (other, _) = Returns-pure r (detail d) w w' h in absurd (apart r refl other)
  detail_of-SameColumns (fetched a) d w w' apart h =
      let (as', v, _, rest) = Returns-bind (attempt _) _ w (detail d) w' h in
      (a, refl, with_attachments-SameColumns a d as' v w' rest)

  -- A detail is answered only for an inspection of the user, and shows the columns of its row.
  pub get_inspection-IsOwnRow :
      (d : InspectionDto) (w w' : World)
      → Returns (get_inspection user id) w (detail d) w'
      → IsOwnRow user id d w.db
  unfolding get_inspection fetch_one scan_inspection
  get_inspection-IsOwnRow d w w' h =
      let (x, v, got, rest) = Returns-bind (fetch_one id user) _ w (detail d) w' h in
      let (y, u, tried, answer) =
        Returns-bind (attempt (query (λ db. inspection db id))) _ w x v got in
      let (found, left) = Returns-attempt (query (λ db. inspection db id)) w y u tried in
      let (is_fetched, _) = Returns-pure _ x u v answer in
      let (a, fetch, columns) =
        detail_of-SameColumns x d v w' (λ r e. unfetched-failed y r d (is_fetched ∙ e)) rest in
      let (r, row, own, scanned) = fetched-own y a (is_fetched ∙ fetch) in
      let (there, _) = Returns-query (λ db. inspection db id) w (some r) u (found ∙ row, left) in
      (
        r,
        there,
        own,
        columns
            ∙ ap (λ (z : InspectionDto). record z { attachments = []; conflicts = [] })
                (sym scanned),
      )
