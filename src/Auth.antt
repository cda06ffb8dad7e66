-- ===== src/Auth.antt =====
-- backend/internal/auth/auth.go, backend/internal/api/handlers_auth.go, and `auth` and `userFromCtx` of
-- backend/internal/api/server.go. The token library, bcrypt and Go's contexts are arguments.
pub mod Tokens
pub mod Bearer
use Prim.Native.Char.{code}
use cc_005_offline_inspectio.Base.{
  ℕ, String, Bool, true, false, not, ◌+◌, Option, none, some, ◌==◌, str_eq, if◌then◌else◌,
}
use cc_005_offline_inspectio.Base.Rows.{first}
use cc_005_offline_inspectio.Db.{Db, User}
use cc_005_offline_inspectio.Tx.{Result, ok, err, Tx, pure, query, attempt, now, ◌>>=◌}

-- the claims of a token; a token of another issuer may lack the times
pub record Claims : Type 0 where
  pub user_id : ℕ
  pub username : String
  pub subject : ℕ
  pub issued_at : Option ℕ
  pub expires_at : Option ℕ

-- whether a token's method is one of *jwt.SigningMethodHMAC
pub data Method : Type 0 where
  hmac other_method : Method

-- package jwt: SignedString of a HS256 token with a key, and ParseWithClaims at a time, with a function
-- from the token's method to the key; its answer has the token's claims and `Valid`
pub record Jwt : Type 0 where
  pub signed_string : String → Claims → Result String
  pub parse_with_claims : (Method → Result String) → ℕ → String → Result (Claims × Bool)

-- `ttl` in seconds, to which the library truncates times
pub record Manager : Type 0 where
  pub secret : String
  pub ttl : ℕ

abbrev pub claims_of : Manager → ℕ → ℕ → String → Claims
claims_of m at user_id username = record {
  user_id = user_id;
  username = username;
  subject = user_id;
  issued_at = some at;
  expires_at = some (at + m.ttl);
}

unfoldable pub issue : Jwt → Manager → ℕ → ℕ → String → Result String
issue jwt m at user_id username = jwt.signed_string m.secret (claims_of m at user_id username)

abbrev pub key_for : Manager → Method → Result String
key_for m hmac = ok m.secret
key_for m other_method = err "unexpected signing method"

unfoldable pub parsed : Result (Claims × Bool) → Result Claims
parsed (err e) = err "invalid token"
parsed (ok (c, false)) = err "invalid token"
parsed (ok (c, true)) = ok c

unfoldable pub parse : Jwt → Manager → ℕ → String → Result Claims
parse jwt m at token = parsed (jwt.parse_with_claims (key_for m) at token)

abbrev is_some : Option ℕ → Bool
is_some none = false
is_some (some n) = true

-- `ValidUUID`; `parse_uuid` is uuid.Parse
unfoldable valid_uuid : (String → Option ℕ) → String → Bool
valid_uuid parse_uuid s = is_some (parse_uuid s)

-- the keys of the values that `WithUser` puts into a context
pub data CtxKey : Type 0 where
  user_id_key username_key : CtxKey

-- package context: Value with the assertion that it is a text, and WithValue
pub record Contexts (C : Type 0) : Type 0 where
  pub value : C → CtxKey → Option String
  pub with_value : C → CtxKey → String → C

abbrev text_or_empty : Option String → String
text_or_empty none = ""
text_or_empty (some s) = s

module _ {C : Type 0} (cx : Contexts C) where
  unfoldable with_user : C → String → String → C
  with_user ctx user_id username =
      cx.with_value (cx.with_value ctx user_id_key user_id) username_key username

  unfoldable user_id_in : C → String
  user_id_in ctx = text_or_empty (cx.value ctx user_id_key)

  unfoldable username_in : C → String
  username_in ctx = text_or_empty (cx.value ctx username_key)

-- the texts of the errors
pub data Denial : Type 0 where
  bad_request invalid_credentials token_failure unknown_user : Denial
  missing_token invalid_token : Denial

-- an answer: an HTTP code with a text, or what is served
pub data Answer (A : Type 0) : Type 0 where
  refusal : ℕ → Denial → Answer A
  served : A → Answer A

pub record Session : Type 0 where
  pub token : String
  pub user_id : ℕ
  pub username : String
  pub display_name : String

abbrev pub user_named : String → Db → Option User
user_named name db = first (λ u. str_eq u.username name) db.users

-- `matches` is whether bcrypt.CompareHashAndPassword accepts a hash and a password
module _ (jwt : Jwt) (m : Manager) (matches : String → String → Bool) where
  unfoldable pub issued : User → String → Result String → Answer Session
  issued u name (err e) = refusal 500 token_failure
  issued u name (ok token) =
      served
        (record { token = token; user_id = u.id; username = name; display_name = u.display_name })

  unfoldable pub checked : String → String → Result (Option User) → Tx (Answer Session)
  checked name password (err e) = pure (refusal 401 invalid_credentials)
  checked name password (ok none) = pure (refusal 401 invalid_credentials)
  checked name password (ok (some u)) =
      if not (matches u.password_hash password)
      then pure (refusal 401 invalid_credentials)
      else do at ← now; pure (issued u name (issue jwt m at u.id name))

  -- `none` is a body that does not decode
  unfoldable pub login : Option (String × String) → Tx (Answer Session)
  login none = pure (refusal 400 bad_request)
  login (some (name, password)) = do
    found ← attempt (query (user_named name))
    checked name password found

pub record Profile : Type 0 where
  pub user_id : ℕ
  pub username : String
  pub display_name : String

unfoldable pub profile_of : Claims → Result (Option User) → Answer Profile
profile_of c (err e) = refusal 401 unknown_user
profile_of c (ok none) = refusal 401 unknown_user
profile_of c (ok (some u)) =
    served (record { user_id = c.user_id; username = c.username; display_name = u.display_name })

unfoldable pub me : Claims → Tx (Answer Profile)
me c = do
  found ← attempt (query (λ db. first (λ u. u.id == c.user_id) db.users))
  pure (profile_of c found)

-- strings.TrimPrefix of a text for which strings.HasPrefix holds
unfoldable pub strip : String → String → Option String
strip String.[] s = some s
strip (String.◌∷◌ c p) String.[] = none
strip (String.◌∷◌ c p) (String.◌∷◌ d s) = if code c == code d then strip p s else none

-- the middleware: `next` is the handler, with the claims that `userFromCtx` reads
module _ (jwt : Jwt) (m : Manager) {A : Type 0} (next : Claims → Tx A) where
  unfoldable pub with_claims : Result Claims → Tx (Answer A)
  with_claims (err e) = pure (refusal 401 invalid_token)
  with_claims (ok c) = next c >>= λ a. pure (served a)

  unfoldable pub with_token : Option String → Tx (Answer A)
  with_token none = pure (refusal 401 missing_token)
  with_token (some t) = do at ← now; with_claims (parse jwt m at t)

  unfoldable pub auth : String → Tx (Answer A)
  auth header = with_token (strip "Bearer " header)
