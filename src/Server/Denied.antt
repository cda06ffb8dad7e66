-- ===== src/Server/Denied.antt =====
-- Requests without a token that is accepted.
use cc_005_offline_inspectio.Base.{String, [], ◌∷◌, false, Option, none, some, ◌≡◌, refl, str_eq}
use cc_005_offline_inspectio.Tx.{Result, ok, err, World, Tx, pure, ◌>>=◌}
use cc_005_offline_inspectio.Auth.{
  Claims, Jwt, Manager, refusal, Denial, missing_token, invalid_token, strip, parse, with_claims,
  with_token, auth,
}
use cc_005_offline_inspectio.Server.Writer.{Writer, write_json, write_err, denial, error}
use cc_005_offline_inspectio.Server.Routes.{Endpoint, Handled, Params, found, match}
use cc_005_offline_inspectio.Server.Services.{Services, Request}
use cc_005_offline_inspectio.Server.Handlers.{guarded, authorized, run, dispatch, mux}
use cc_005_offline_inspectio.Server.Middleware.{serve, recovered, with_cors_headers}
use cc_005_offline_inspectio.Server.Served.{caller, accepted, token_claims}
use cc_005_offline_inspectio.Server.Isolation.{serve-Unchanged}

-- without claims the handler does not run
with_token-denied :
    {A : Type 0} (jwt : Jwt) (m : Manager) (next : Claims → Tx A) (t : Option String) (w : World)
    → token_claims jwt m w.clock t ≡ none
    → (d : Denial) × (with_token jwt m next t w ≡ (ok (refusal 401 d), w))
unfolding with_token with_claims ◌>>=◌
with_token-denied jwt m next none w h = (missing_token, refl)
with_token-denied jwt m next (some t) w h = go (parse jwt m w.clock t) refl h
  where
    go :
        (r : Result Claims)
        → parse jwt m w.clock t ≡ r
        → accepted r ≡ none
        → (d : Denial) × (with_claims jwt m next (parse jwt m w.clock t) w
            ≡ (ok (refusal 401 d), w))
    go (err e) p h = (invalid_token, rw p refl)
    go (ok c) p h = cc h

-- the answer 401 with the text of a refusal, and no more
abbrev pub IsRefused : Writer → Type 0
IsRefused out = (out.code ≡ some 401) × ((d : Denial) × (out.body ≡ error (denial d) ∷ []))

-- A request to a route behind `auth` that bears no token that is accepted is answered 401, with the
-- text of a refusal only, and changes no table. A request OPTIONS is not meant.
pub serve-IsRefused :
    (s : Services) (req : Request) (w : World) (h : Handled) (ps : Params)
    → str_eq req.method "OPTIONS" ≡ false
    → match req.method req.path ≡ found (Endpoint.auth h) ps
    → caller s req w.clock ≡ none
    → IsRefused (serve s req w).0 × ((serve s req w).1.db ≡ w.db)
unfolding serve recovered with_cors_headers mux dispatch run auth authorized write_err write_json
    pure ◌>>=◌
serve-IsRefused s req w h ps asks route anonymous =
    let next = guarded s h ps req.body in
    let (d, denied) =
      with_token-denied s.jwt s.manager next (strip "Bearer " req.authorization) w anonymous in
    (rw (asks, route, denied) (refl, (d, refl)), serve-Unchanged s req w anonymous)
