-- ===== src/Sync/Validate/Laws.antt =====
-- What `validateChanges` lets through.
use cc_005_offline_inspectio.Base.{
  String, Bool, true, false, Option, none, some, List, [], ◌∷◌, ◌≡◌, ◌≢◌, ◌↔◌, ◌⊎◌, refl, inl, inr,
  Option-cases, eq_iff, arith,
}
use cc_005_offline_inspectio.Models.{Field, status, editable, FieldChange, Changes, Message}
use cc_005_offline_inspectio.Merge.{unmarshal_string}
use cc_005_offline_inspectio.Sync.Validate.{
  change_of, valid_status, check_fields, check_status, validate_changes, or_then,
}

-- a base is asked for unless the inspection is new
abbrev HasBase : Bool → FieldChange → Type 0
HasBase true ch = Unit
HasBase false ch = ch.base ≢ none

-- a change of an editable field to a given value, with its base
abbrev pub IsAllowed : Bool → Field × FieldChange → Type 0
IsAllowed creating (f, ch) = (editable f ≡ true) × (ch.v ≢ none) × HasBase creating ch

abbrev pub All {ℓ κ} : {A : Type ℓ} → (A → Type κ) → List A → Type κ
All P [] = Unit
All P (x ∷ xs) = P x × All P xs

abbrev IsStatus : String → Type 0
IsStatus s = (s ≡ "draft") ⊎ ((s ≡ "submitted") ⊎ ((s ≡ "approved") ⊎ (s ≡ "rejected")))

-- a new status is one of the four texts
abbrev pub IsStatusChange : Option FieldChange → Type 0
IsStatusChange none = Unit
IsStatusChange (some ch) = (s : String) × (unmarshal_string ch.v ≡ some s) × IsStatus s

valid_status_iff : (s : String) → (valid_status s ≡ true) ↔ IsStatus s
unfolding valid_status
valid_status_iff s =
    ground (arith, eq_iff s "draft", eq_iff s "submitted", eq_iff s "approved", eq_iff s "rejected")

check_fields_iff :
    (changes : Changes) (creating : Bool)
    → (check_fields changes creating ≡ none) ↔ All (IsAllowed creating) changes
unfolding check_fields
check_fields_iff [] creating = ((λ h. tt), (λ h. refl))
check_fields_iff ((f, ch) ∷ rest) true =
    let ih = check_fields_iff rest true in ((λ h. ground (arith, ih)), (λ h. ground (arith, ih)))
check_fields_iff ((f, ch) ∷ rest) false =
    let ih = check_fields_iff rest false in ((λ h. ground (arith, ih)), (λ h. ground (arith, ih)))

check_status_iff : (c : Option FieldChange) → (check_status c ≡ none) ↔ IsStatusChange c
unfolding check_status
check_status_iff none = ((λ h. tt), (λ h. refl))
check_status_iff (some ch) = elim (Option-cases (unmarshal_string ch.v)) [
  | inl bad ↦ ((λ h. cc (rw bad at h)), (λ h. cc (bad, h.1)))
  | inr (s, e) ↦ (
    (λ h. (s, e, (valid_status_iff s).0 (ground (arith, e, h)))),
    (λ h. let same : h.0 ≡ s = cc (e, h.1) in rw (e, (valid_status_iff s).1 (rw same at h.2))),
  )
]

or_then-none : (a b : Option Message) → (or_then a b ≡ none) ↔ ((a ≡ none) × (b ≡ none))
or_then-none none b = ((λ h. (refl, h)), (λ h. h.1))
or_then-none (some m) b = ((λ h. cc h), (λ h. cc (h.0)))

-- A set of changes passes exactly if it is not empty, every field is editable and has a value, and a
-- base unless the inspection is being created, and a new status is a text of the four.
pub validate_changes_iff :
    (changes : Changes) (creating : Bool)
    → (validate_changes changes creating ≡ none) ↔ (
        (changes ≢ [])
        × All (IsAllowed creating) changes
        × IsStatusChange (change_of status changes))
unfolding validate_changes
validate_changes_iff [] creating = ((λ h. cc h), (λ h. absurd (h.0 refl)))
validate_changes_iff (c ∷ cs) creating =
    let fields = check_fields_iff (c ∷ cs) creating in
    let state = check_status_iff (change_of status (c ∷ cs)) in
    let both =
      or_then-none (check_fields (c ∷ cs) creating) (check_status (change_of status (c ∷ cs))) in
    (
      (λ h. let (f, s) = both.0 h in ((λ e. cc e), fields.0 f, state.0 s)),
      (λ h. both.1 (fields.1 h.1, state.1 h.2)),
    )
