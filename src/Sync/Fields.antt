-- ===== src/Sync/Fields.antt =====
-- `createInspection` and `writeField` of backend/internal/api/handlers_sync.go.
use cc_005_offline_inspectio.Base.{
  ℕ, String, Bool, false, none, some, List, [], ◌∷◌, str_eq, if◌then◌else◌,
}
use cc_005_offline_inspectio.Json.{str, arr, nil, Json}
use cc_005_offline_inspectio.Json.Equality.{RawMessage}
use cc_005_offline_inspectio.Models.{
  Field, title, status, findings, notes, checked_items, photo_caption, other, field_eq, Changes,
}
use cc_005_offline_inspectio.Models.Outside.{Outside}
use cc_005_offline_inspectio.Merge.{decode_str}
use cc_005_offline_inspectio.Db.{Inspection, FieldRev}
use cc_005_offline_inspectio.Tx.{with_json, Tx, pure, throw, statement, now, ◌>>=◌, ◌>>◌}
use cc_005_offline_inspectio.Sync.Statements.{
  to_jsonb, set_inspection, insert_inspection, insert_rev, set_rev,
}

-- the map `defaults`
abbrev pub Defaults : Type 0
Defaults = List (Field × RawMessage)

abbrev empty_string : RawMessage
empty_string = some (str "")

abbrev initial_defaults : Defaults
initial_defaults =
    (title, empty_string)
    ∷ (status, some (str "draft"))
    ∷ (findings, empty_string)
    ∷ (notes, empty_string)
    ∷ (checked_items, some (arr nil))
    ∷ (photo_caption, empty_string)
    ∷ []

-- `defaults[field] = v`
set_default : Field → RawMessage → Defaults → Defaults
set_default f v [] = (f, v) ∷ []
set_default f v ((g, w) ∷ d) = if field_eq g f then (g, v) ∷ d else (g, w) ∷ set_default f v d

unfoldable pub with_changes : Changes → Defaults → Defaults
unfolding set_default
with_changes [] d = d
with_changes ((f, ch) ∷ rest) d = with_changes rest (set_default f ch.v d)

-- `defaults[field]`
pub default_of : Field → Defaults → RawMessage
default_of f [] = none
default_of f ((g, v) ∷ d) = if field_eq g f then v else default_of f d

-- a new inspection without a title gets one
unfoldable pub with_title : Defaults → Defaults
unfolding default_of set_default
with_title d =
    if str_eq (decode_str (default_of title d)) ""
    then set_default title (some (str "新巡检记录")) d
    else d

-- the map once the loop over the changes and the test of the title are done
abbrev pub defaults_of : Changes → Defaults
defaults_of changes = with_title (with_changes changes initial_defaults)

abbrev pub new_inspection : ℕ → ℕ → ℕ → Json → Defaults → Inspection
new_inspection at user id items d = record {
  id = id;
  owner_id = user;
  title = decode_str (default_of title d);
  status = decode_str (default_of status d);
  findings = decode_str (default_of findings d);
  notes = decode_str (default_of notes d);
  checked_items = items;
  photo_caption = decode_str (default_of photo_caption d);
  is_deleted = false;
  rev = 1;
  updated_at = at;
}

abbrev pub rev_row : ℕ → ℕ → Field → Json → ℕ → FieldRev
rev_row at id field j op_id = record {
  inspection_id = id;
  field = field;
  value = j;
  op_id = op_id;
  updated_at = at;
}

module _ (o : Outside) where
  unfoldable pub insert_field : ℕ → ℕ → Field → RawMessage → ℕ → Tx (Unit {0})
  insert_field at id field v op_id =
      statement (with_json (to_jsonb o v) (λ j. insert_rev (rev_row at id field j op_id)))

  -- the loop that writes the lineage of a new inspection
  unfoldable pub insert_fields : ℕ → ℕ → Defaults → ℕ → Tx (Unit {0})
  insert_fields at id [] op_id = pure tt
  insert_fields at id ((f, v) ∷ d) op_id = do
    insert_field at id f v op_id
    insert_fields at id d op_id

  unfoldable pub create_inspection : ℕ → ℕ → ℕ → Changes → Tx (Unit {0})
  create_inspection user op_id id changes = do
    at ← now
    let d = defaults_of changes
    statement (
        with_json (to_jsonb o (default_of checked_items d))
          (λ items. insert_inspection (new_inspection at user id items d)))
    insert_fields at id d op_id

-- the text column of a field
unfoldable pub set_column : Field → String → Inspection → Inspection
set_column title s r = record r { title = s }
set_column status s r = record r { status = s }
set_column findings s r = record r { findings = s }
set_column notes s r = record r { notes = s }
set_column photo_caption s r = record r { photo_caption = s }
set_column checked_items s r = r
set_column (other _) s r = r

abbrev pub set_items : Json → Inspection → Inspection
set_items j r = record r { checked_items = j }

abbrev pub rewritten : ℕ → Json → ℕ → FieldRev → FieldRev
rewritten at j op_id r = record r { value = j; op_id = op_id; updated_at = at }

module _ (o : Outside) where
  -- the switch of `writeField`
  unfoldable pub write_column : ℕ → Field → RawMessage → Tx (Unit {0})
  write_column id checked_items v =
      statement (with_json (to_jsonb o v) (λ j. set_inspection id (set_items j)))
  write_column id (other f) v = throw "field not writable"
  write_column id field v = statement (set_inspection id (set_column field (decode_str v)))

  unfoldable pub write_field : ℕ → Field → RawMessage → ℕ → Bool → Tx (Unit {0})
  write_field id field v op_id insert = do
    write_column id field v
    at ← now
    if insert
        then insert_field o at id field v op_id
        else statement (with_json (to_jsonb o v) (λ j. set_rev id field (rewritten at j op_id)))
