-- ===== src/Uploads/Completion.antt =====
-- The completion of an upload.
use cc_005_offline_inspectio.Base.{
  ℕ, zero, suc, String, Option, none, some, List, [], ◌∷◌, map, ◌==◌, ==_iff, ◌+◌, ◌≡◌, ◌≢◌, ◌<◌,
  refl, true, ◌∙◌, inl, inr, Bool-cases, arith,
}
use cc_005_offline_inspectio.Base.Rows.{length}
use cc_005_offline_inspectio.Db.{Db, Attachment, UploadPart}
use cc_005_offline_inspectio.Tx.{Result, ok, err, World, query, query_rows, breaks, attempt}
use cc_005_offline_inspectio.Tx.Respects.{IsPreorder, Respects-query}
use cc_005_offline_inspectio.Tx.Inversion.{
  Returns, Returns-pure, Returns-bind, Returns-attempt, Arrived, Arrived-later, Returns-query_rows,
  query-breaks,
}
use cc_005_offline_inspectio.Uploads.{
  Reply, finished, Access, granted, denied, access_of, authorize_upload, upload_of, first_gap,
  parts_of, completion, complete_stored, complete_without_gap, complete_parts, complete_authorized,
  complete_upload, is_finished,
}

abbrev Same : Db → Db → Type 0
Same a b = b ≡ a

pub query-kept : {A : Type 0} (q : Db → A) (w : World) → (query q w).1.db ≡ w.db
query-kept q w =
    let preorder : IsPreorder Same = record { self = λ a. refl; through = λ a b c f g. g ∙ f } in
    (Respects-query preorder q).at w

-- the numbers `n`, `n + 1`, … of `k` parts
abbrev pub count_from : ℕ → ℕ → List ℕ
count_from n zero = []
count_from n (suc k) = n ∷ count_from (n + 1) k

abbrev pub numbers : List UploadPart → List ℕ
numbers ps = map (λ p. p.part_number) ps

first_gap-numbers :
    (n : ℕ) (ps : List UploadPart) → first_gap n ps ≡ none → numbers ps ≡ count_from n (length ps)
unfolding first_gap
first_gap-numbers n [] h = refl
first_gap-numbers n (p ∷ ps) h = elim (Bool-cases (p.part_number == n)) [
  | inl here ↦ cc ((==_iff p.part_number n).0 here, first_gap-numbers (n + 1) ps (rw here at h))
  | inr there ↦ cc (rw there at h)
]

module _ (store : String → List UploadPart → Result (Unit {0})) where
  -- what a completion with these parts promises
  abbrev IsWhole : ℕ → List UploadPart → Type 0
  IsWhole k parts = (0 < k) × (numbers parts ≡ count_from 1 k)

  stored-length :
      (a : Attachment) (parts : List UploadPart) (r : Result (Unit {0})) (k : ℕ) (w w' : World)
      → Returns (complete_stored store a parts r) w (finished k) w'
      → k ≡ length parts
  unfolding complete_stored completion
  stored-length a parts (err e) k w w' h =
      let (other, _) = Returns-pure _ (finished k) w w' h in cc other
  stored-length a parts (ok u) k w w' h =
      let (done, v, _, rest) = Returns-bind (attempt _) _ w (finished k) w' h in
      let (same, _) = Returns-pure _ (finished k) v w' rest in go done same
    where
      go : (d : Result (Unit {0})) → completion (length parts) d ≡ finished k → k ≡ length parts
      go (err e) s = cc s
      go (ok u) s = cc s

  parts-IsWhole :
      (a : Attachment) (r : Result (List UploadPart)) (k : ℕ) (w w' : World)
      → Returns (complete_parts store a r) w (finished k) w'
      → (ps : List UploadPart) × (r ≡ ok ps) × IsWhole k ps
  unfolding complete_parts complete_without_gap
  parts-IsWhole a (err e) k w w' h = let (other, _) = Returns-pure _ (finished k) w w' h in cc other
  parts-IsWhole a (ok []) k w w' h = let (other, _) = Returns-pure _ (finished k) w w' h in cc other
  parts-IsWhole a (ok (p ∷ ps)) k w w' h = go (first_gap 1 (p ∷ ps)) refl h
    where
      go :
          (g : Option ℕ)
          → first_gap 1 (p ∷ ps) ≡ g
          → Returns (complete_without_gap store a (p ∷ ps) g) w (finished k) w'
          → (qs : List UploadPart) × (ok (p ∷ ps) ≡ ok qs) × IsWhole k qs
      go (some n) e s = let (other, _) = Returns-pure _ (finished k) w w' s in cc other
      go none e s =
          let size = stored-length a (p ∷ ps) (store a.object_key (p ∷ ps)) k w w' s in
          (p ∷ ps, refl, (rw size (omega arith), rw size (first_gap-numbers 1 (p ∷ ps) e)))

  -- what a completion with this number of parts promises: it saw that many rows of the ledger, numbered
  -- from one, and these are all rows unless a result broke off
  abbrev pub IsCompletion : String → ℕ → World → Type 0
  IsCompletion upload_id k w =
      (seen : List UploadPart) × Arrived seen (parts_of upload_id w.db) w × IsWhole k seen

  authorized-IsWhole :
      (upload_id : String) (c : Access) (k : ℕ) (v w w' : World)
      → ((r : Reply) → c ≡ denied r → r ≢ finished k)
      → v.db ≡ w.db
      → (breaks v.outcomes ≡ true → breaks w.outcomes ≡ true)
      → Returns (complete_authorized store upload_id c) v (finished k) w'
      → IsCompletion upload_id k w
  unfolding complete_authorized
  authorized-IsWhole upload_id (denied r) k v w w' apart same before h =
      let (other, _) = Returns-pure r (finished k) v w' h in absurd (apart r refl other)
  authorized-IsWhole upload_id (granted a) k v w w' apart same before h =
      elim (Bool-cases (is_finished a.status)) [
        | inl over ↦ let (other, _) = Returns-pure _ (finished k) v w' (rw over at h) in cc other
        | inr going ↦
            let (r, u, asked, rest) =
              Returns-bind (attempt (query_rows (parts_of upload_id))) _ v (finished k) w'
                (rw going at h) in
            let (ps, found, whole) = parts-IsWhole a r k u w' rest in
            let (answer, left) = Returns-attempt (query_rows (parts_of upload_id)) v r u asked in
            let (rows, _) = Returns-query_rows (parts_of upload_id) v ps u (answer ∙ found, left) in
            (ps, Arrived-later (parts_of upload_id) ps v w same before rows, whole)
      ]

  access_of-finished :
      (user k : ℕ) (x : Result (Option (Attachment × ℕ))) (r : Reply)
      → access_of user x ≡ denied r
      → r ≢ finished k
  unfolding access_of
  access_of-finished user k (err e) r h g = cc (h, g)
  access_of-finished user k (ok none) r h g = cc (h, g)
  access_of-finished user k (ok (some (a, owner))) r h g = elim (Bool-cases (owner == user)) [
    | inl e ↦ cc (rw e at h)
    | inr e ↦ cc (rw e at h, g)
  ]

  -- If the completion of an upload succeeds with some number of parts, then there is a part, and the
  -- code saw that many rows of the ledger of the upload, numbered from one to that number without a gap.
  -- These are all of its rows, or the first ones of a result that broke off.
  pub complete_upload-whole :
      (user : ℕ) (upload_id : String) (k : ℕ) (w w' : World)
      → Returns (complete_upload store user upload_id) w (finished k) w'
      → IsCompletion upload_id k w
  unfolding complete_upload authorize_upload
  complete_upload-whole user upload_id k w w' h =
      let (c, v, authorized, rest) =
        Returns-bind (authorize_upload upload_id user) _ w (finished k) w' h in
      let (x, u, asked, answer) =
        Returns-bind (attempt (query (upload_of upload_id))) _ w c v authorized in
      let (found, left) = Returns-attempt (query (upload_of upload_id)) w x u asked in
      let (is_access, still) = Returns-pure _ c u v answer in
      authorized-IsWhole upload_id c k v w w' (λ r e. access_of-finished user k x r (is_access ∙ e))
        (rw (← still, ← left) (query-kept (upload_of upload_id) w))
        (rw (← still, ← left) (query-breaks (upload_of upload_id) w)) rest
