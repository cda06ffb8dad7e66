-- ===== src/Uploads/Resume/Received.antt =====
-- The parts that a resumed upload need not send.
use cc_005_offline_inspectio.Base.{
  ℕ, String, true, sym, ◌&&◌, List, [], ◌∷◌, ◌==◌, ==_iff, ◌≡◌, ◌≢◌, refl, ◌∙◌, inl, inr,
  Bool-cases, some, none, Option, arith,
}
use cc_005_offline_inspectio.Base.Rows.{select}
use cc_005_offline_inspectio.Base.Rows.Order.{holds, Ascends, order_by-Ascends, holds-order_by}
use cc_005_offline_inspectio.Db.{Attachment, UploadPart}
use cc_005_offline_inspectio.Tx.{Result, ok, err, World, query, query_rows, breaks, attempt}
use cc_005_offline_inspectio.Tx.Inversion.{
  Returns, Returns-pure, Returns-bind, Returns-attempt, Returns-query, Arrived, Arrived-later,
  Returns-query_rows, query-breaks,
}
use cc_005_offline_inspectio.Uploads.{
  Reply, progress, Progress, Access, granted, denied, access_of, authorize_upload, upload_of,
}
use cc_005_offline_inspectio.Uploads.Resume.{
  ledger_of, numbers_of, reconciled, progress_of, answer_status, reconcile, status_authorized,
  upload_status,
}

select-holds :
    (n : ℕ) (there : List ℕ) (rows : List UploadPart)
    → holds n (numbers_of (select (λ p. holds p.part_number there) rows))
      ≡ (holds n (numbers_of rows) && holds n there)
unfolding select holds
select-holds n there [] = refl
select-holds n there (p ∷ ps) = elim (Bool-cases (p.part_number == n)) [
  | inl e ↦
      let same : p.part_number ≡ n = (==_iff p.part_number n).0 e in
      rw same (ground (arith, select-holds n there ps))
  | inr e ↦ ground (arith, select-holds n there ps)
]

reconciled-holds :
    (n : ℕ) (there : List ℕ) (rows : List UploadPart)
    → holds n (numbers_of (reconciled rows there)) ≡ (holds n (numbers_of rows) && holds n there)
unfolding reconciled
reconciled-holds n there rows = holds-order_by n (λ p. p.part_number) _ ∙ select-holds n there rows

reconciled-Ascends :
    (ledger : List UploadPart) (there : List ℕ) → Ascends 0 (numbers_of (reconciled ledger there))
unfolding reconciled
reconciled-Ascends ledger there = order_by-Ascends {A = UploadPart} (λ q. q.part_number) _

-- what an answer about an upload promises of the rows that were seen and of the parts that are there
abbrev IsReport : Attachment → List ℕ → List UploadPart → Progress → Type 0
IsReport a there seen p =
    (p.attachment_id ≡ a.id)
    × Ascends 0 p.received_parts
    × (p.received_parts ≡ numbers_of p.parts)
    × ((n : ℕ) → holds n p.received_parts ≡ (holds n (numbers_of seen) && holds n there))

access_of-granted :
    (user : ℕ) (x : Result (Option (Attachment × ℕ))) (a : Attachment)
    → access_of user x ≡ granted a
    → x ≡ ok (some (a, user))
unfolding access_of
access_of-granted user (err e) a h = cc h
access_of-granted user (ok none) a h = cc h
access_of-granted user (ok (some (b, owner))) a h = elim (Bool-cases (owner == user)) [
  | inl e ↦ let same : owner ≡ user = (==_iff owner user).0 e in cc (rw e at h, same)
  | inr e ↦ cc (rw e at h)
]

access_of-denied :
    (user : ℕ) (x : Result (Option (Attachment × ℕ))) (r : Reply) (p : Progress)
    → access_of user x ≡ denied r
    → r ≢ progress p
unfolding access_of
access_of-denied user (err e) r p h g = cc (h, g)
access_of-denied user (ok none) r p h g = cc (h, g)
access_of-denied user (ok (some (b, owner))) r p h g = elim (Bool-cases (owner == user)) [
  | inl e ↦ cc (rw e at h)
  | inr e ↦ cc (rw e at h, g)
]

-- what the authorization of a request has found
pub authorized :
    (user : ℕ) (upload_id : String) (c : Access) (w v : World)
    → Returns (authorize_upload upload_id user) w c v
    → (x : Result (Option (Attachment × ℕ))) × (access_of user x ≡ c)
      × ((f : Option (Attachment × ℕ)) → x ≡ ok f → (upload_of upload_id w.db ≡ f) × (w.db ≡ v.db))
      × (breaks v.outcomes ≡ true → breaks w.outcomes ≡ true)
unfolding authorize_upload
authorized user upload_id c w v h =
    let (x, u, asked, answer) = Returns-bind (attempt (query (upload_of upload_id))) _ w c v h in
    let (found, left) = Returns-attempt (query (upload_of upload_id)) w x u asked in
    let (is_access, still) = Returns-pure _ c u v answer in
    (
      x,
      is_access,
      λ f e. rw (← still) (Returns-query (upload_of upload_id) w f u (found ∙ e, left)),
      rw (← still, ← left) (query-breaks (upload_of upload_id) w),
    )

module _ (completed_parts : String → String → Result (List ℕ)) where
  -- the upload is the user's, the object store lists its parts, and the ledger was read
  abbrev pub IsReportOf : ℕ → String → Progress → World → Type 0
  IsReportOf user upload_id p w =
      (a : Attachment) × (there : List ℕ) × (seen : List UploadPart) × (upload_of upload_id w.db
        ≡ some (a, user))
      × (completed_parts a.upload_id a.object_key ≡ ok there)
      × Arrived seen (ledger_of a.upload_id w.db) w
      × IsReport a there seen p

  answered-IsReport :
      (user : ℕ) (a : Attachment) (w : World) (upload_id : String) (r : Result (List UploadPart))
      (p : Progress)
      → upload_of upload_id w.db ≡ some (a, user)
      → ((seen : List UploadPart) → r ≡ ok seen → Arrived seen (ledger_of a.upload_id w.db) w)
      → reconcile completed_parts a r ≡ progress p
      → IsReportOf user upload_id p w
  unfolding reconcile answer_status progress_of
  answered-IsReport user a w upload_id (err e) p here rows h = cc h
  answered-IsReport user a w upload_id (ok seen) p here rows h =
      go (completed_parts a.upload_id a.object_key) refl h
    where
      go :
          (x : Result (List ℕ))
          → completed_parts a.upload_id a.object_key ≡ x
          → answer_status a seen x ≡ progress p
          → IsReportOf user upload_id p w
      go (err e) k s = cc s
      go (ok there) k s =
          let same : progress_of a (reconciled seen there) ≡ p = cc s in
          let report : IsReport a there seen (progress_of a (reconciled seen there)) =
            (refl, reconciled-Ascends seen there, refl, λ n. reconciled-holds n there seen) in
          (a, there, seen, here, k, rows seen refl, rw (← same) report)

  -- If the status of an upload is answered, then the upload is the user's, the object store listed its
  -- parts, and the parts that the answer calls received are, in ascending order, exactly those that
  -- are both in the object store and in the rows that the code saw of the ledger. These are all of its
  -- rows, or the first ones of a result that broke off.
  pub upload_status-IsReportOf :
      (user : ℕ) (upload_id : String) (p : Progress) (w w' : World)
      → Returns (upload_status completed_parts user upload_id) w (progress p) w'
      → IsReportOf user upload_id p w
  unfolding upload_status status_authorized
  upload_status-IsReportOf user upload_id p w w' h =
      let (c, v, access, rest) =
        Returns-bind (authorize_upload upload_id user) _ w (progress p) w' h in
      let (x, is_access, found, before) = authorized user upload_id c w v access in
      go c v x is_access found before rest
    where
      go :
          (c : Access) (v : World) (x : Result (Option (Attachment × ℕ)))
          → access_of user x ≡ c
          → ((f : Option (Attachment × ℕ))
              → x ≡ ok f
              → (upload_of upload_id w.db ≡ f) × (w.db ≡ v.db))
          → (breaks v.outcomes ≡ true → breaks w.outcomes ≡ true)
          → Returns (status_authorized completed_parts c) v (progress p) w'
          → IsReportOf user upload_id p w
      go (denied r) v x e found before s =
          let (other, _) = Returns-pure r (progress p) v w' s in
          absurd (access_of-denied user x r p e other)
      go (granted a) v x e found before s =
          let (here, same) = found (some (a, user)) (access_of-granted user x a e) in
          let ledger = ledger_of a.upload_id in
          let (r, u, asked, answer) =
            Returns-bind (attempt (query_rows ledger)) _ v (progress p) w' s in
          let (did, left) = Returns-attempt (query_rows ledger) v r u asked in
          let (is_answer, _) = Returns-pure _ (progress p) u w' answer in
          answered-IsReport user a w upload_id r p here
            (λ seen k.
              Arrived-later ledger seen v w (sym same) before
                (Returns-query_rows ledger v seen u (did ∙ k, left)).0)
            is_answer
