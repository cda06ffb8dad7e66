-- ===== src/Sync/Validate.antt =====
-- `validateChanges` of backend/internal/api/handlers_sync.go.
pub mod Laws
use cc_005_offline_inspectio.Base.{
  String, Bool, true, false, not, ◌&&◌, ◌||◌, Option, none, some, [], ◌∷◌, str_eq, if◌then◌else◌,
}
use cc_005_offline_inspectio.Json.Equality.{RawMessage}
use cc_005_offline_inspectio.Models.{
  Field, status, field_eq, editable, FieldChange, Changes, Message, changes_required, not_editable,
  missing_value, missing_base, invalid_status,
}
use cc_005_offline_inspectio.Merge.{unmarshal_string}

-- `changes[field]`
unfoldable pub change_of : Field → Changes → Option FieldChange
change_of f [] = none
change_of f ((g, ch) ∷ rest) = if field_eq g f then some ch else change_of f rest

-- `len(m) == 0`
is_missing : RawMessage → Bool
is_missing none = true
is_missing (some _) = false

-- `validStatus[st]`
pub valid_status : String → Bool
valid_status st =
    str_eq st "draft" || (str_eq st "submitted" || (str_eq st "approved" || str_eq st "rejected"))

abbrev is_valid_status : Option String → Bool
is_valid_status none = false
is_valid_status (some st) = valid_status st

-- the loop over the changes: the first error
unfoldable pub check_fields : Changes → Bool → Option Message
unfolding is_missing editable
check_fields [] creating = none
check_fields ((field, ch) ∷ rest) creating =
    if not (editable field)
    then some (not_editable field)
    else if is_missing ch.v
    then some (missing_value field)
    else if not creating && is_missing ch.base
    then some (missing_base field)
    else check_fields rest creating

unfoldable pub check_status : Option FieldChange → Option Message
unfolding valid_status unmarshal_string
check_status none = none
check_status (some ch) =
    if is_valid_status (unmarshal_string ch.v) then none else some invalid_status

abbrev or_then : Option Message → Option Message → Option Message
or_then (some m) _ = some m
or_then none next = next

-- `none` is a nil error
unfoldable pub validate_changes : Changes → Bool → Option Message
validate_changes [] creating = some changes_required
validate_changes (c ∷ cs) creating =
    or_then (check_fields (c ∷ cs) creating) (check_status (change_of status (c ∷ cs)))
