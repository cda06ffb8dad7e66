-- ===== src/Merge.antt =====
-- The three-way decision for one field: `classifyField` of backend/internal/api/models.go.
pub mod Laws
use cc_005_offline_inspectio.Base.{String, Bool, Option, some, none, if◌then◌else◌}
use cc_005_offline_inspectio.Json.{null, str}
use cc_005_offline_inspectio.Json.Equality.{RawMessage, equal_json}
use cc_005_offline_inspectio.Models.Outside.{Outside}

pub data FieldVerdict : Type 0 where
  noop apply conflict : FieldVerdict

module _ (o : Outside) where
  pub same_json : RawMessage → RawMessage → Bool
  unfolding equal_json
  same_json = equal_json o.parse_float

  unfoldable pub classify_field : RawMessage → RawMessage → RawMessage → FieldVerdict
  unfolding same_json
  classify_field server v base =
      if same_json base server
      then (if same_json v server then noop else apply)
      else if same_json v server
      then noop
      else conflict

-- json.Unmarshal into a string: `none` is an error, and a null leaves the empty string
unfoldable pub unmarshal_string : RawMessage → Option String
unmarshal_string (some (str s)) = some s
unmarshal_string (some null) = some ""
unmarshal_string _ = none

abbrev or_empty : Option String → String
or_empty none = ""
or_empty (some s) = s

unfoldable pub decode_str : RawMessage → String
unfolding unmarshal_string
decode_str b = or_empty (unmarshal_string b)
