-- ===== src/Models/Outside.antt =====
-- What the backend relies on and does not implement: the float64 that a number's spelling denotes,
-- the uuid package, Postgres's jsonb type and its preparation of statements, and the JSON text in
-- which a result lies in the ledger.
use cc_005_offline_inspectio.Base.{ℕ, String, Option, some, ◌≡◌}
use cc_005_offline_inspectio.Json.{Json, unmarshal}
use cc_005_offline_inspectio.Models.{OpResult}

pub record Outside : Type 0 where
  -- strconv.ParseFloat on a number of a JSON text; `none` is out of range
  pub parse_float : String → Option ℕ
  -- uuid.Parse, and Postgres's reading of the same text as a UUID
  pub parse_uuid : String → Option ℕ
  -- a text cast to jsonb, as it is read back; `none` is a refused cast
  pub jsonb : Json → Option Json
  -- a result marshalled into processed_ops.result, read back and unmarshalled
  pub reread : OpResult → Option OpResult
  -- what preparing a statement answers whose parameters skip a number; `some` is an error
  pub skipped_parameter : Option String

-- Postgres keeps the value of a text that it stores as jsonb.
pub record KeepsValues (o : Outside) : Type 0 where
  pub keeps :
      (j k : Json) → o.jsonb j ≡ some k → unmarshal o.parse_float k ≡ unmarshal o.parse_float j
