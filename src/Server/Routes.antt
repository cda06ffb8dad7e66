-- ===== src/Server/Routes.antt =====
-- The routes of `Routes` in backend/internal/api/server.go, and how http.ServeMux picks one. A path is
-- the list of its segments, once the mux has cleaned and unescaped it; a final slash is an empty one.
pub mod Apart
pub mod Unique
use cc_005_offline_inspectio.Base.{
  String, Bool, true, false, ◌&&◌, ◌||◌, Option, none, some, List, [], ◌∷◌, str_eq, if◌then◌else◌,
}

pub data Segment : Type 0 where
  literal wildcard : String → Segment

-- the handlers behind `auth`
pub data Handled : Type 0 where
  me list_inspections get_inspection sync resolve_conflict : Handled
  create_upload upload_status put_part complete_upload : Handled
  download_attachment attachment_content : Handled

pub data Endpoint : Type 0 where
  health login : Endpoint
  auth : Handled → Endpoint

pub record Route : Type 0 where
  pub method : String
  pub pattern : List Segment
  pub endpoint : Endpoint

abbrev pub Params : Type 0
Params = List (String × String)

abbrev api : List Segment → List Segment
api rest = literal "api" ∷ rest

unfoldable pub routes : List Route
routes =
    record { method = "GET"; pattern = literal "healthz" ∷ []; endpoint = health }
    ∷ record {
      method = "POST";
      pattern = api (literal "auth" ∷ literal "login" ∷ []);
      endpoint = login;
    }
    ∷ record { method = "GET"; pattern = api (literal "me" ∷ []); endpoint = auth me }
    ∷ record {
      method = "GET";
      pattern = api (literal "inspections" ∷ []);
      endpoint = auth list_inspections;
    }
    ∷ record {
      method = "GET";
      pattern = api (literal "inspections" ∷ wildcard "id" ∷ []);
      endpoint = auth get_inspection;
    }
    ∷ record { method = "POST"; pattern = api (literal "sync" ∷ []); endpoint = auth sync }
    ∷ record {
      method = "POST";
      pattern = api (literal "conflicts" ∷ wildcard "id" ∷ literal "resolve" ∷ []);
      endpoint = auth resolve_conflict;
    }
    ∷ record {
      method = "POST";
      pattern = api (literal "uploads" ∷ []);
      endpoint = auth create_upload;
    }
    ∷ record {
      method = "GET";
      pattern = api (literal "uploads" ∷ wildcard "uploadID" ∷ []);
      endpoint = auth upload_status;
    }
    ∷ record {
      method = "PUT";
      pattern =
          api (literal "uploads" ∷ wildcard "uploadID" ∷ literal "parts" ∷ wildcard "partNum" ∷ []);
      endpoint = auth put_part;
    }
    ∷ record {
      method = "POST";
      pattern = api (literal "uploads" ∷ wildcard "uploadID" ∷ literal "complete" ∷ []);
      endpoint = auth complete_upload;
    }
    ∷ record {
      method = "GET";
      pattern = api (literal "attachments" ∷ wildcard "id" ∷ literal "download" ∷ []);
      endpoint = auth download_attachment;
    }
    ∷ record {
      method = "GET";
      pattern = api (literal "attachments" ∷ wildcard "id" ∷ literal "content" ∷ []);
      endpoint = auth attachment_content;
    }
    ∷ []

abbrev named : String → String → Option Params → Option Params
named name x none = none
named name x (some ps) = some ((name, x) ∷ ps)

-- the path values, if the path fits; a wildcard takes no empty segment
unfoldable pub fit : List Segment → List String → Option Params
fit [] [] = some []
fit [] (x ∷ xs) = none
fit (p ∷ ps) [] = none
fit (literal s ∷ ps) (x ∷ xs) = let rest = fit ps xs in if str_eq x s then rest else none
fit (wildcard name ∷ ps) (x ∷ xs) =
    let rest = named name x (fit ps xs) in if str_eq x "" then none else rest

-- a pattern for GET takes HEAD too
unfoldable pub takes_method : String → String → Bool
takes_method pattern method =
    str_eq method pattern || (str_eq pattern "GET" && str_eq method "HEAD")

-- what the mux makes of a request
pub data Match : Type 0 where
  found : Endpoint → Params → Match
  not_found method_not_allowed : Match

unfoldable pub unmatched : Bool → Match
unmatched true = method_not_allowed
unmatched false = not_found

-- the first pattern that fits, of a route for the method
unfoldable pub pick : List Route → String → List String → Bool → Match
pick [] method path known = unmatched known
pick (r ∷ rs) method path known = elim (fit r.pattern path) [
  | none ↦ pick rs method path known
  | some ps ↦
      let rest = pick rs method path true in
      if takes_method r.method method then found r.endpoint ps else rest
]

unfoldable pub match : String → List String → Match
match method path = pick routes method path false

-- r.PathValue
unfoldable pub path_value : String → Params → String
path_value name [] = ""
path_value name ((k, v) ∷ ps) = if str_eq k name then v else path_value name ps
