-- ===== src/Json.antt =====
-- encoding/json and reflect as the sync engine uses them. A json.RawMessage holds the text of one
-- valid JSON value, since the decoder of the request body has read it, or nothing, where the key was
-- missing. `Json` is that text as a syntax tree; `Value` is what Unmarshal makes of it in an `any`.
pub mod Equality
use Prim.Native.Nat.{Ordering}
use Prim.Native.String.{compare as compare_text}
use cc_005_offline_inspectio.Base.{
  ℕ, String, Bool, true, false, ◌&&◌, Option, none, some, str_eq, ◌==◌, if◌then◌else◌,
}

mutual
  -- a number keeps its spelling, an object the order of its keys and repeated ones
  pub data Json : Type 0 where
    null : Json
    bool : Bool → Json
    num : String → Json
    str : String → Json
    arr : Items → Json
    obj : Members → Json

  pub data Items : Type 0 where
    nil : Items
    item : Json → Items → Items

  pub data Members : Type 0 where
    end : Members
    member : String → Json → Members → Members

mutual
  -- a float64 by its number of order; a Go map by its entries in the order of the keys
  pub data Value : Type 0 where
    nil_value : Value
    bool_value : Bool → Value
    float : ℕ → Value
    text : String → Value
    slice : Values → Value
    object : Entries → Value

  pub data Values : Type 0 where
    no_values : Values
    value : Value → Values → Values

  pub data Entries : Type 0 where
    no_entries : Entries
    entry : String → Value → Entries → Entries

-- `m[k] = v`; the entries stay in the order of the keys, so two equal maps are one value
pub put : String → Value → Entries → Entries
put k v no_entries = entry k v no_entries
put k v (entry j w m) =
    let rest = entry j w (put k v m) in
    elim (compare_text k j) [
      | Ordering.lt ↦ entry k v (entry j w m)
      | Ordering.eq ↦ entry k v m
      | Ordering.gt ↦ rest
    ]

abbrev cons_value : Option Value → Option Values → Option Values
cons_value (some v) (some vs) = some (value v vs)
cons_value _ _ = none

abbrev put_member : String → Option Value → Option Entries → Option Entries
put_member k (some v) (some m) = some (put k v m)
put_member _ _ _ = none

abbrev pub to_slice : Option Values → Option Value
to_slice none = none
to_slice (some vs) = some (slice vs)

abbrev pub to_object : Option Entries → Option Value
to_object none = none
to_object (some m) = some (object m)

abbrev pub to_float : Option ℕ → Option Value
to_float none = none
to_float (some x) = some (float x)

-- `parse_float` reads a number's spelling as a float64, `none` where it is out of range
module _ (parse_float : String → Option ℕ) where
  unfoldable mutual
    -- json.Unmarshal into an `any`
    pub unmarshal : Json → Option Value
    unmarshal null = some nil_value
    unmarshal (bool b) = some (bool_value b)
    unmarshal (num s) = to_float (parse_float s)
    unmarshal (str s) = some (text s)
    unmarshal (arr xs) = to_slice (unmarshal_items xs)
    unmarshal (obj ms) = to_object (unmarshal_members ms no_entries)

    pub unmarshal_items : Items → Option Values
    unmarshal_items nil = some no_values
    unmarshal_items (item x xs) = cons_value (unmarshal x) (unmarshal_items xs)

    -- the members are stored from first to last, so the last of a repeated key stays
    pub unmarshal_members : Members → Entries → Option Entries
    unmarshal_members end m = some m
    unmarshal_members (member k x ms) m = elim (unmarshal x) [
      | none ↦ none
      | some v ↦ unmarshal_members ms (put k v m)
    ]
