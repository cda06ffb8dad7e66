-- ===== src/Models/Fields.antt =====
-- The names of an inspection's fields, as keys of `changes` and as `field` of a resolve operation.
use cc_005_offline_inspectio.Base.{String, Bool, true, false, ◌≡◌, refl, ap, ◌↔◌, str_eq, eq_iff}
use text.Mathlib.TextPositions.{eq_refl}

-- the six editable names, and any other text
pub data Field : Type 0 where
  title status findings notes checked_items photo_caption : Field
  other : String → Field

-- `==` of two names
unfoldable pub field_eq : Field → Field → Bool
field_eq title title = true
field_eq status status = true
field_eq findings findings = true
field_eq notes notes = true
field_eq checked_items checked_items = true
field_eq photo_caption photo_caption = true
field_eq (other a) (other b) = str_eq a b
field_eq _ _ = false

-- `editableFields[field]`
unfoldable pub editable : Field → Bool
editable (other _) = false
editable _ = true

field_eq_sound : (a b : Field) → field_eq a b ≡ true → a ≡ b
unfolding field_eq
field_eq_sound title title h = refl
field_eq_sound status status h = refl
field_eq_sound findings findings h = refl
field_eq_sound notes notes h = refl
field_eq_sound checked_items checked_items h = refl
field_eq_sound photo_caption photo_caption h = refl
field_eq_sound (other a) (other b) h = ap other ((eq_iff a b).0 h)
field_eq_sound _ _ h = cc

field_eq_self : (a : Field) → field_eq a a ≡ true
unfolding field_eq
field_eq_self (other a) = eq_refl a
field_eq_self title = refl
field_eq_self status = refl
field_eq_self findings = refl
field_eq_self notes = refl
field_eq_self checked_items = refl
field_eq_self photo_caption = refl

pub field_eq_iff : (a b : Field) → (field_eq a b ≡ true) ↔ (a ≡ b)
field_eq_iff a b = (field_eq_sound a b, λ e. rw e (field_eq_self b))
