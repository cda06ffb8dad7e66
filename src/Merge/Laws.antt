-- ===== src/Merge/Laws.antt =====
-- The decision against the values that the three texts stand for.
use cc_005_offline_inspectio.Base.{
  ℕ, String, true, Option, some, none, ◌≡◌, refl, ◌↔◌, inl, inr, sym, arith, Bool-cases,
}
use cc_005_offline_inspectio.Json.{
  Json, Value, Values, Entries, null, bool, num, str, arr, obj, nil_value, text, unmarshal,
  to_float, to_slice, to_object,
}
use cc_005_offline_inspectio.Json.Equality.{RawMessage, equal_json, equal_json_iff, decode_any}
use cc_005_offline_inspectio.Models.Outside.{Outside, KeepsValues}
use cc_005_offline_inspectio.Merge.{
  FieldVerdict, noop, apply, conflict, same_json, classify_field, unmarshal_string, decode_str,
}

module _ (o : Outside) where
  -- both texts decode, and to one value
  abbrev SameValue : RawMessage → RawMessage → Type 0
  SameValue a b =
      (v : Value) × (decode_any o.parse_float a ≡ some v) × (decode_any o.parse_float b ≡ some v)

  same_json_iff : (a b : RawMessage) → (same_json o a b ≡ true) ↔ SameValue a b
  unfolding same_json
  same_json_iff a b = equal_json_iff o.parse_float a b

  -- What each verdict says of the values.
  abbrev pub Agrees : FieldVerdict → RawMessage → RawMessage → RawMessage → Type 0
  Agrees noop server v base = SameValue v server
  Agrees apply server v base = SameValue base server × (¬ (SameValue v server))
  Agrees conflict server v base = (¬ (SameValue base server)) × (¬ (SameValue v server))

  -- For any three texts: no-op means that the new value is the server's, apply that it is not and
  -- the base is, conflict that neither is; and these are all the cases, so the verdict is the only
  -- one that agrees with the values.
  pub classify_field-Agrees :
      (server v base : RawMessage) (verdict : FieldVerdict)
      → (classify_field o server v base ≡ verdict) ↔ Agrees verdict server v base
  unfolding classify_field
  classify_field-Agrees server v base noop = (
    (λ h. (same_json_iff v server).0 (ground arith)),
    (λ s. let here : same_json o v server ≡ true = (same_json_iff v server).1 s in ground arith),
  )
  classify_field-Agrees server v base apply = (
    (λ h. (
      (same_json_iff base server).0 (ground arith),
      λ s. let here : same_json o v server ≡ true = (same_json_iff v server).1 s in ground arith,
    )),
    (λ s.
        let seen : same_json o base server ≡ true = (same_json_iff base server).1 s.0 in
        elim (Bool-cases (same_json o v server)) [
          | inl e ↦ absurd (s.1 ((same_json_iff v server).0 e))
          | inr e ↦ ground arith
        ]),
  )
  classify_field-Agrees server v base conflict = (
    (λ h. (
      λ s.
          let seen : same_json o base server ≡ true = (same_json_iff base server).1 s in
          ground arith,
      λ s. let here : same_json o v server ≡ true = (same_json_iff v server).1 s in ground arith,
    )),
    (λ s. elim (Bool-cases (same_json o base server)) [
      | inl e ↦ absurd (s.0 ((same_json_iff base server).0 e))
      | inr e ↦ elim (Bool-cases (same_json o v server)) [
        | inl e' ↦ absurd (s.1 ((same_json_iff v server).0 e'))
        | inr e' ↦ ground arith
      ]
    ]),
  )

-- A text that Postgres stored and read back decides like the text that was sent.
module _ (o : Outside) (laws : KeepsValues o) (j k : Json) (stored : o.jsonb j ≡ some k) where
  same_json-stored_right : (b : RawMessage) → same_json o b (some k) ≡ same_json o b (some j)
  unfolding same_json equal_json decode_any
  same_json-stored_right b = rw (laws.keeps j k stored)

  -- The verdict on a field does not depend on how jsonb spells the server's value.
  pub classify_field-stored :
      (v base : RawMessage) → classify_field o (some k) v base ≡ classify_field o (some j) v base
  unfolding classify_field
  classify_field-stored v base = rw (same_json-stored_right v, same_json-stored_right base)

-- The string that a decoded value holds.
abbrev text_of : Option Value → Option String
text_of (some (text s)) = some s
text_of (some nil_value) = some ""
text_of _ = none

text_of-to_float : (x : Option ℕ) → text_of (to_float x) ≡ none
text_of-to_float none = refl
text_of-to_float (some x) = refl

text_of-to_slice : (x : Option Values) → text_of (to_slice x) ≡ none
text_of-to_slice none = refl
text_of-to_slice (some x) = refl

text_of-to_object : (x : Option Entries) → text_of (to_object x) ≡ none
text_of-to_object none = refl
text_of-to_object (some x) = refl

text_of-unmarshal :
    (parse_float : String → Option ℕ) (j : Json)
    → unmarshal_string (some j) ≡ text_of (unmarshal parse_float j)
unfolding unmarshal_string unmarshal
text_of-unmarshal p null = refl
text_of-unmarshal p (bool b) = refl
text_of-unmarshal p (num s) = sym (text_of-to_float (p s))
text_of-unmarshal p (str s) = refl
text_of-unmarshal p (arr xs) = sym (text_of-to_slice _)
text_of-unmarshal p (obj ms) = sym (text_of-to_object _)

-- The string in a column is the string in the stored lineage, however jsonb spells it.
pub decode_str-stored :
    (o : Outside)
    → KeepsValues o
    → (j k : Json) → o.jsonb j ≡ some k
    → decode_str (some k) ≡ decode_str (some j)
unfolding decode_str
decode_str-stored o laws j k stored =
    rw (text_of-unmarshal o.parse_float k, text_of-unmarshal o.parse_float j, laws.keeps j k stored)
