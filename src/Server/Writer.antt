-- ===== src/Server/Writer.antt =====
-- http.ResponseWriter, as the handlers use it, and `writeJSON` and `writeErr` of
-- backend/internal/api/server.go. Which bytes encoding/json makes of a value is left out.
use cc_005_offline_inspectio.Base.{
  ℕ, String, Bool, Option, none, some, List, [], ◌∷◌, ◌++◌, str_eq, if◌then◌else◌,
}
use cc_005_offline_inspectio.Models.{InspectionDto, OpResult}
use cc_005_offline_inspectio.Auth.{Denial, Session, Profile}
use cc_005_offline_inspectio.Inspections as Inspections
use cc_005_offline_inspectio.Uploads as Uploads
use cc_005_offline_inspectio.Uploads.{Started, Progress}
use cc_005_offline_inspectio.Uploads.Fetch.{Link}

-- the texts of the errors
pub data Trouble : Type 0 where
  denial : Denial → Trouble
  of_inspection : Inspections.Problem → Trouble
  of_upload : Uploads.Problem → Trouble
  invalid_sync_body internal_error : Trouble

-- what is written to a body
pub data Payload : Type 0 where
  error : Trouble → Payload
  health_report : Bool → Bool → Payload
  session : Session → Payload
  profile : Profile → Payload
  inspection : InspectionDto → Payload
  inspections : List InspectionDto → Payload
  op_result : OpResult → Payload
  sync_results : List OpResult → Payload
  upload_started : Started → Payload
  part_received : ℕ → String → Bool → Payload
  upload_progress : Progress → Payload
  upload_completed : ℕ → Payload
  completed_before : Payload
  link : Link → Payload
  bytes : List ℕ → Payload
  text : String → Payload

-- The headers, the code if one is written, and the body. A header that is set after the code is not
-- sent; no handler does that.
pub record Writer : Type 0 where
  pub headers : List (String × String)
  pub code : Option ℕ
  pub body : List Payload

abbrev pub fresh : Writer
fresh = record { headers = []; code = none; body = [] }

unfoldable pub put : String → String → List (String × String) → List (String × String)
put k v [] = (k, v) ∷ []
put k v ((j, x) ∷ hs) = let rest = (j, x) ∷ put k v hs in if str_eq j k then (k, v) ∷ hs else rest

unfoldable pub header : String → List (String × String) → Option String
header k [] = none
header k ((j, x) ∷ hs) = if str_eq j k then some x else header k hs

-- w.Header().Set
abbrev pub set_header : String → String → Writer → Writer
set_header k v out = record out { headers = put k v out.headers }

-- only the first code counts
abbrev pub first_code : Option ℕ → ℕ → Option ℕ
first_code none code = some code
first_code (some c) code = some c

abbrev pub write_header : ℕ → Writer → Writer
write_header code out = record out { code = first_code out.code code }

-- a body without a code is sent with 200
abbrev pub write : Payload → Writer → Writer
write p out = record out { code = first_code out.code 200; body = out.body ++ p ∷ [] }

unfoldable pub write_json : ℕ → Payload → Writer → Writer
write_json status v out =
    write v (write_header status (set_header "Content-Type" "application/json" out))

unfoldable pub write_err : ℕ → Trouble → Writer → Writer
write_err status msg out = write_json status (error msg) out
