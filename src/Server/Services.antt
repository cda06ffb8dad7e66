-- ===== src/Server/Services.antt =====
-- What a server of backend/internal/api/server.go is made of, and a request to it.
use cc_005_offline_inspectio.Base.{ℕ, String, Bool, Option, List}
use cc_005_offline_inspectio.Models.{Op}
use cc_005_offline_inspectio.Models.Outside.{Outside}
use cc_005_offline_inspectio.Tx.{Result}
use cc_005_offline_inspectio.Auth.{Jwt, Manager}
use cc_005_offline_inspectio.Inspections.{Resolution}
use cc_005_offline_inspectio.Uploads.Start.{Request as UploadRequest}
use cc_005_offline_inspectio.Store.{Clients}
use cc_005_offline_inspectio.Store.Calls.{S3}

-- the bytes of a body, or the error of reading them
abbrev pub Body : Type 0
Body = Result (List ℕ)

-- The configuration with the clients of the server, and what it takes from libraries: the bodies that
-- encoding/json decodes, the texts of numbers and ids, and the text of an error of the driver.
pub record Services : Type 0 where
  pub outside : Outside
  pub jwt : Jwt
  pub manager : Manager
  -- bcrypt.CompareHashAndPassword
  pub matches : String → String → Bool
  pub chunk_size : ℕ
  -- the two clients of the object store, and its bucket
  pub s3 : Clients S3
  pub bucket : String
  pub decode_login : Body → Option (String × String)
  pub decode_sync : Body → Option (List Op)
  pub decode_resolution : Body → Option Resolution
  pub decode_upload : Body → Option UploadRequest
  -- strconv.Atoi, of a number that is not negative
  pub atoi : String → Option ℕ
  -- strconv.FormatInt, and the text of a UUID
  pub format_int : ℕ → String
  pub uuid_text : ℕ → String
  -- strconv.Quote
  pub quote : String → String
  -- what the driver says to an argument that is no UUID
  pub bad_uuid : String → String
  -- the key of a new object, from the inspection and the attachment
  pub object_key : String → ℕ → String

pub record Request : Type 0 where
  pub method : String
  pub path : List String
  pub authorization : String
  pub body : Body
