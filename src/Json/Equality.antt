-- ===== src/Json/Equality.antt =====
-- reflect.DeepEqual on decoded values, and equalJSON of backend/internal/api/models.go.
use package.text.Mathlib.TextPositions.{eq_refl}
use cc_005_offline_inspectio.Base.{
  ℕ, String, Bool, true, false, ◌&&◌, Option, none, some, ◌≡◌, refl, ap, ◌↔◌, arith, str_eq, eq_iff,
  ◌==◌, both_true,
}
use cc_005_offline_inspectio.Json.{
  Json, Value, Values, Entries, nil_value, bool_value, float, text, slice, object, no_values, value,
  no_entries, entry, unmarshal,
}

abbrev bool_eq : Bool → Bool → Bool
bool_eq true b = b
bool_eq false true = false
bool_eq false false = true

unfoldable mutual
  -- reflect.DeepEqual
  pub deep_equal : Value → Value → Bool
  deep_equal nil_value nil_value = true
  deep_equal (bool_value a) (bool_value b) = bool_eq a b
  deep_equal (float a) (float b) = a == b
  deep_equal (text a) (text b) = str_eq a b
  deep_equal (slice a) (slice b) = deep_equal_values a b
  deep_equal (object a) (object b) = deep_equal_entries a b
  deep_equal _ _ = false

  pub deep_equal_values : Values → Values → Bool
  deep_equal_values no_values no_values = true
  deep_equal_values (value a as') (value b bs) = deep_equal a b && deep_equal_values as' bs
  deep_equal_values _ _ = false

  pub deep_equal_entries : Entries → Entries → Bool
  deep_equal_entries no_entries no_entries = true
  deep_equal_entries (entry j a m) (entry k b n) =
      str_eq j k && (deep_equal a b && deep_equal_entries m n)
  deep_equal_entries _ _ = false

mutual
  unfolding deep_equal

  deep_equal_sound : (a b : Value) → deep_equal a b ≡ true → a ≡ b
  deep_equal_sound nil_value nil_value h = refl
  deep_equal_sound (bool_value a) (bool_value b) h = ground arith
  deep_equal_sound (float a) (float b) h = ground arith
  deep_equal_sound (text a) (text b) h = ap text ((eq_iff a b).0 h)
  deep_equal_sound (slice a) (slice b) h = ap slice (deep_equal_values_sound a b h)
  deep_equal_sound (object a) (object b) h = ap object (deep_equal_entries_sound a b h)
  deep_equal_sound _ _ h = cc

  deep_equal_values_sound : (a b : Values) → deep_equal_values a b ≡ true → a ≡ b
  deep_equal_values_sound no_values no_values h = refl
  deep_equal_values_sound (value a m) (value b n) h =
      ground (arith, deep_equal_sound a b, deep_equal_values_sound m n)
  deep_equal_values_sound _ _ h = cc

  deep_equal_entries_sound : (a b : Entries) → deep_equal_entries a b ≡ true → a ≡ b
  deep_equal_entries_sound no_entries no_entries h = refl
  deep_equal_entries_sound (entry j a m) (entry k b n) h =
      let (keys, rest) = both_true (str_eq j k) (deep_equal a b && deep_equal_entries m n) h in
      let (values, others) = both_true (deep_equal a b) (deep_equal_entries m n) rest in
      cc ((eq_iff j k).0 keys, deep_equal_sound a b values, deep_equal_entries_sound m n others)
  deep_equal_entries_sound _ _ h = cc

mutual
  unfolding deep_equal

  deep_equal_self : (a : Value) → deep_equal a a ≡ true
  deep_equal_self nil_value = refl
  deep_equal_self (bool_value a) = ground arith
  deep_equal_self (float a) = ground arith
  deep_equal_self (text a) = eq_refl a
  deep_equal_self (slice a) = deep_equal_values_self a
  deep_equal_self (object a) = deep_equal_entries_self a

  deep_equal_values_self : (a : Values) → deep_equal_values a a ≡ true
  deep_equal_values_self no_values = refl
  deep_equal_values_self (value a m) = ground (arith, deep_equal_self a, deep_equal_values_self m)

  deep_equal_entries_self : (a : Entries) → deep_equal_entries a a ≡ true
  deep_equal_entries_self no_entries = refl
  deep_equal_entries_self (entry j a m) =
      ground (arith, eq_refl j, deep_equal_self a, deep_equal_entries_self m)

deep_equal_iff : (a b : Value) → (deep_equal a b ≡ true) ↔ (a ≡ b)
deep_equal_iff a b = (deep_equal_sound a b, λ e. rw e (deep_equal_self b))

abbrev equal_values : Option Value → Option Value → Bool
equal_values (some a) (some b) = deep_equal a b
equal_values _ _ = false

-- a RawMessage: `none` is the empty one, which Unmarshal refuses
abbrev pub RawMessage : Type 0
RawMessage = Option Json

module _ (parse_float : String → Option ℕ) where
  unfoldable pub decode_any : RawMessage → Option Value
  decode_any none = none
  decode_any (some j) = unmarshal parse_float j

  unfoldable pub equal_json : RawMessage → RawMessage → Bool
  equal_json a b = equal_values (decode_any a) (decode_any b)

  -- equalJSON answers true exactly when both texts decode, and to one value.
  pub equal_json_iff :
      (a b : RawMessage)
      → (equal_json a b ≡ true) ↔ ((v : Value) × (decode_any a ≡ some v) × (decode_any b ≡ some v))
  unfolding equal_json
  equal_json_iff a b = go (decode_any a) (decode_any b)
    where
      go :
          (x y : Option Value)
          → (equal_values x y ≡ true) ↔ ((v : Value) × (x ≡ some v) × (y ≡ some v))
      go none y = ((λ h. cc), (λ h. cc (h.1)))
      go (some u) none = ((λ h. cc), (λ h. cc (h.2)))
      go (some u) (some v) = (
        (λ h. (v, ap some ((deep_equal_iff u v).0 h), refl)),
        (λ h. (deep_equal_iff u v).1 (cc (h.1, h.2))),
      )
