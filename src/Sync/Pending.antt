-- ===== src/Sync/Pending.antt =====
-- The conflicting edits of an upsert: none of them is lost.
use cc_005_offline_inspectio.Base.{
  ℕ, String, true, false, not, Option, none, some, ◌≡◌, ◌⊎◌, refl, ap, ◌∙◌, sym, inl, inr, ◌==◌,
  ==_iff, Bool-cases, arith, ◌&&◌, ◌||◌, both_true,
}
use cc_005_offline_inspectio.Base.Rows.{update, insert, exists}
use cc_005_offline_inspectio.Base.Rows.Laws.{first-insert, first_of_exists, or_new-false}
use cc_005_offline_inspectio.Base.Rows.Unique.{first-update_other, first-update_hit}
use cc_005_offline_inspectio.Json.{Json}
use cc_005_offline_inspectio.Json.Equality.{RawMessage}
use cc_005_offline_inspectio.Models.{Field, field_eq, field_eq_iff, FieldChange, ConflictDto}
use cc_005_offline_inspectio.Models.Outside.{Outside}
use cc_005_offline_inspectio.Merge.{same_json}
use cc_005_offline_inspectio.Db.{Db, Conflict, FieldRev, open_on, is_open, open_conflict_on}
use cc_005_offline_inspectio.Tx.{World, Result, ok, err, with_json, query, statement, now, new_uuid}
use cc_005_offline_inspectio.Tx.Inversion.{
  Returns, Returns-pure, Returns-bind, Returns-query, Returns-statement, table_or,
}
use cc_005_offline_inspectio.Sync.Statements.{
  to_jsonb, insert_conflict, set_conflict, skipping_parameter,
}
use cc_005_offline_inspectio.Sync.Conflicts.{
  conflict_row, chosen, open_new, refresh_open, open_or_refresh, record_conflict,
}
use cc_005_offline_inspectio.Sync.Keyed.{IsKeyed}

-- an open conflict holds the value `v` that the operation wanted for the field
abbrev pub IsPending : Outside → ℕ → RawMessage → Db → ℕ → Field → Type 0
IsPending o op_id v db id f =
    (c : Conflict) × (open_conflict_on db id f ≡ some c)
    × (c.client_op_id ≡ op_id)
    × ((to_jsonb o v ≡ ok c.client_value) ⊎ (same_json o (some c.client_value) v ≡ true))

-- the open conflicts of the other fields stay
abbrev pub OthersStay : ℕ → Field → Db → Db → Type 0
OthersStay id f a b =
    (g : Field) → field_eq f g ≡ false → open_conflict_on b id g ≡ open_conflict_on a id g

module _ (id : ℕ) (f : Field) where
  -- what an insertion of a conflict has done
  insert_conflict-ok :
      (c c' : Conflict) (a b : Db)
      → insert_conflict c a ≡ ok (c', b)
      → c.inspection_id ≡ id
      → c.field ≡ f
      → (exists (open_on id f) a.conflicts ≡ false)
        × (b ≡ record a { conflicts = insert c a.conflicts })
  insert_conflict-ok c c' a b h at_id on =
      elim (Bool-cases (exists (λ d. d.id == c.id) a.conflicts)) [
        | inl used ↦ cc (rw used at h)
        | inr new ↦ elim (Bool-cases (exists (open_on c.inspection_id c.field) a.conflicts)) [
          | inl there ↦ cc (rw (new, there) at h)
          | inr free ↦ (rw (at_id, on) at free, sym (ap (table_or a) (rw (new, free) at h)))
        ]
      ]

  insert-OthersStay :
      (c : Conflict) (a : Db)
      → c.field ≡ f
      → OthersStay id f a (record a { conflicts = insert c a.conflicts })
  insert-OthersStay c a on g apart =
      first-insert (open_on id g) c a.conflicts
      ∙ or_new-false (open_on id g) c (open_conflict_on a id g) (rw (on, apart) (ground arith))

  open_on-field : (c : Conflict) → open_on id f c ≡ true → c.field ≡ f
  open_on-field c h =
      let (_, rest) =
        both_true (c.inspection_id == id) (field_eq c.field f && is_open c.status) h in
      (field_eq_iff c.field f).0 (both_true (field_eq c.field f) (is_open c.status) rest).0

  choose-OthersStay :
      (c : Conflict) (j : Json) (op_id : ℕ) (a : Db)
      → IsKeyed a
      → open_conflict_on a id f ≡ some c
      → OthersStay id f a
          (record a { conflicts = update (λ d. d.id == c.id) (chosen j op_id) a.conflicts })
  choose-OthersStay c j op_id a keys found g apart =
      first-update_other (λ d. d.id == c.id) (open_on id g) (open_on id f) (chosen j op_id)
        a.conflicts c (keys.conflicts c.id) found ((==_iff c.id c.id).1 refl)
        (λ d h. rw (open_on-field d h, apart) (ground arith)) (λ d. refl)

module _ (o : Outside) (op_id id : ℕ) (f : Field) (ch : FieldChange) where
  -- what a conflict that is recorded has left
  abbrev pub IsRecorded : Db → Db → Type 0
  IsRecorded a b = IsPending o op_id ch.v b id f × OthersStay id f a b

  new-IsRecorded :
      (at new_id : ℕ) (cur : FieldRev) (x y : Result Json) (c : Conflict) (a b : Db)
      → to_jsonb o ch.v ≡ y
      → with_json x
          (λ j. with_json y (λ k. insert_conflict (conflict_row at new_id id f cur op_id j k)))
          a
        ≡ ok (c, b)
      → IsRecorded a b
  new-IsRecorded at new_id cur (err e) y c a b client h = cc h
  new-IsRecorded at new_id cur (ok j) (err e) c a b client h = cc h
  new-IsRecorded at new_id cur (ok j) (ok k) c a b client h =
      let row = conflict_row at new_id id f cur op_id j k in
      let (free, done) = insert_conflict-ok id f row c a b h refl refl in
      let found : open_conflict_on b id f ≡ some row = rw done (
        first-insert (open_on id f) row a.conflicts
        ∙ rw (first_of_exists (open_on id f) a.conflicts free)
            (ground (arith, (==_iff id id).1 refl, (field_eq_iff f f).1 refl))) in
      ((row, found, refl, inl client), rw done (insert-OthersStay id f row a refl))

  open_new-IsRecorded :
      (cur : FieldRev) (dto : ConflictDto) (w w' : World)
      → Returns (open_new o op_id id f cur ch) w dto w'
      → IsRecorded w.db w'.db
  unfolding open_new now new_uuid
  open_new-IsRecorded cur dto w w' h =
      let (new_id, u, fresh, rest) = Returns-bind new_uuid _ w dto w' h in
      let (at, v, clock, last) = Returns-bind now _ u dto w' rest in
      let (c, x, inserted, done) = Returns-bind (statement _) _ v dto w' last in
      let (_, left) = Returns-pure _ dto x w' done in
      let ticked : v.db ≡ u.db = ap (λ (k : World). k.db) (sym clock.1) in
      let same : u.db ≡ w.db = ap (λ (k : World). k.db) (sym fresh.1) in
      rw (ticked ∙ same, left) at
        (new-IsRecorded at new_id cur (to_jsonb o (some cur.value)) (to_jsonb o ch.v) c v.db x.db
          refl (Returns-statement _ v c x inserted))

  chosen-IsRecorded :
      (m : Option String) (y : Result Json) (c : Conflict) (a b : Db)
      → IsKeyed a
      → open_conflict_on a id f ≡ some c
      → to_jsonb o ch.v ≡ y
      → skipping_parameter m (with_json y (λ j. set_conflict c.id (chosen j op_id))) a ≡ ok (tt, b)
      → IsRecorded a b
  chosen-IsRecorded (some e) y c a b keys found client h = cc h
  chosen-IsRecorded none (err e) c a b keys found client h = cc h
  chosen-IsRecorded none (ok j) c a b keys found client h =
      let found' =
        first-update_hit (open_on id f) (λ d. d.id == c.id) (chosen j op_id) a.conflicts c found
          ((==_iff c.id c.id).1 refl) (λ d. refl) in
      rw (← ap (table_or a) h) (
        (chosen j op_id c, found', refl, inl client),
        choose-OthersStay id f c j op_id a keys found,
      )

  refresh_open-IsRecorded :
      (c : Conflict) (dto : ConflictDto) (w w' : World)
      → IsKeyed w.db
      → open_conflict_on w.db id f ≡ some c
      → Returns (refresh_open o op_id f ch c) w dto w'
      → IsRecorded w.db w'.db
  unfolding refresh_open
  refresh_open-IsRecorded c dto w w' keys found h =
      elim (Bool-cases
        (not (same_json o (some c.client_value) ch.v) || not (c.client_op_id == op_id))) [
          | inl changed ↦
              let (_, v, updated, rest) = Returns-bind (statement _) _ w dto w' (rw changed at h) in
              let (_, left) = Returns-pure _ dto v w' rest in
              rw left at (
                chosen-IsRecorded o.skipped_parameter (to_jsonb o ch.v) c w.db v.db keys found refl
                  (Returns-statement _ w tt v updated))
          | inr unchanged ↦
              let (_, left) = Returns-pure _ dto w w' (rw unchanged at h) in
              let same : same_json o (some c.client_value) ch.v ≡ true = ground arith in
              let own : (c.client_op_id == op_id) ≡ true = ground arith in
              rw (← left)
                ((c, found, (==_iff c.client_op_id op_id).0 own, inr same), λ g apart. refl)
        ]

  -- A conflict that is recorded is open with the client's value, for this operation, and the open
  -- conflicts of the other fields stay.
  pub record_conflict-IsRecorded :
      (cur : FieldRev) (dto : ConflictDto) (w w' : World)
      → IsKeyed w.db
      → Returns (record_conflict o op_id id f cur ch) w dto w'
      → IsRecorded w.db w'.db
  unfolding record_conflict open_or_refresh
  record_conflict-IsRecorded cur dto w w' keys h =
      let q : Db → Option Conflict = λ db. open_conflict_on db id f in
      let (x, v, asked, rest) = Returns-bind (query q) _ w dto w' h in
      let (found, same) = Returns-query q w x v asked in
      rw (← same) at (go x v (rw same at keys) (rw same at found) rest)
    where
      go :
          (x : Option Conflict) (v : World)
          → IsKeyed v.db
          → open_conflict_on v.db id f ≡ x
          → Returns (open_or_refresh o op_id id f cur ch x) v dto w'
          → IsRecorded v.db w'.db
      go none v keys found rest = open_new-IsRecorded cur dto v w' rest
      go (some c) v keys found rest = refresh_open-IsRecorded c dto v w' keys found rest
