-- ===== src/Server/Served.antt =====
-- What a whole request does to the tables, by who sends it.
use cc_005_offline_inspectio.Base.{
  ℕ, String, Option, none, some, ◌≡◌, refl, str_eq, inl, inr, Bool-cases,
}
use cc_005_offline_inspectio.Db.{Db}
use cc_005_offline_inspectio.Tx.{Result, ok, err, World, Tx, pure, now, ◌>>=◌}
use cc_005_offline_inspectio.Tx.Respects.{
  IsPreorder, Respects, Respects-pure, Respects-bind, then_pure-R,
}
use cc_005_offline_inspectio.Auth.{
  Claims, Jwt, Manager, strip, parse, with_claims, with_token, auth,
}
use cc_005_offline_inspectio.Server.Writer.{Writer}
use cc_005_offline_inspectio.Server.Routes.{
  Endpoint, health, login, Params, Match, found, not_found, method_not_allowed, match,
}
use cc_005_offline_inspectio.Server.Services.{Services, Request}
use cc_005_offline_inspectio.Server.Handlers.{guarded, run, dispatch, mux}
use cc_005_offline_inspectio.Server.Middleware.{written, serve}
use cc_005_offline_inspectio.Server.Reading.{login-Respects}
use cc_005_offline_inspectio.Server.Walk.{Serves, Respects-asked}
use cc_005_offline_inspectio.Server.Guarded.{guarded-Respects}

abbrev pub accepted : Result Claims → Option Claims
accepted (ok c) = some c
accepted (err e) = none

abbrev pub token_claims : Jwt → Manager → ℕ → Option String → Option Claims
token_claims jwt m at none = none
token_claims jwt m at (some t) = accepted (parse jwt m at t)

-- the claims of the token that a request bears, if it is accepted at that time
abbrev pub caller : Services → Request → ℕ → Option Claims
caller s req at = token_claims s.jwt s.manager at (strip "Bearer " req.authorization)

module _ {A : Type 0} {R : Db → Db → Type 0} (p : IsPreorder R) (jwt : Jwt) (m : Manager)
    (next : Claims → Tx A) where
  claims-R :
      (r : Result Claims) (w : World)
      → ((c : Claims) → accepted r ≡ some c → Respects R (next c))
      → R w.db (with_claims jwt m next r w).1.db
  unfolding with_claims pure
  claims-R (err e) w h = p.self w.db
  claims-R (ok c) w h = (Respects-bind p (next c) _ (h c refl) (λ a. Respects-pure p _)).at w

  token-R :
      (t : Option String) (w : World)
      → ((c : Claims) → token_claims jwt m w.clock t ≡ some c → Respects R (next c))
      → R w.db (with_token jwt m next t w).1.db
  unfolding with_token now ◌>>=◌
  token-R none w h = p.self w.db
  token-R (some t) w h = claims-R (parse jwt m w.clock t) w h

module _ {R : Db → Db → Type 0} (p : IsPreorder R) (s : Services) (req : Request) (w : World)
    (k : (c : Claims) → caller s req w.clock ≡ some c → Serves R s.outside c.user_id) where
  run-R : (e : Endpoint) (ps : Params) → R w.db (run s e ps req w).1.db
  unfolding run auth
  run-R health ps = (Respects-asked p _ _ (λ r. Respects-pure p _)).at w
  run-R login ps = (Respects-bind p _ _ (login-Respects p _ _ _ _) (λ r. Respects-pure p _)).at w
  run-R (Endpoint.auth h) ps =
      then_pure-R R (auth s.jwt s.manager (guarded s h ps req.body) req.authorization) _ w.db w (
        token-R p s.jwt s.manager (guarded s h ps req.body) (strip "Bearer " req.authorization) w
          (λ c e. guarded-Respects s h ps req.body c (k c e)))

  dispatch-R : (x : Match) → R w.db (dispatch s x req w).1.db
  unfolding dispatch pure
  dispatch-R (found e ps) = run-R e ps
  dispatch-R not_found = p.self w.db
  dispatch-R method_not_allowed = p.self w.db

  written-R :
      (out : Writer) (x : Result (Writer → Writer) × World)
      → R w.db x.1.db
      → R w.db (written out x).1.db
  written-R out (ok f, v) h = h
  written-R out (err e, v) h = h

  -- a relation that the callers' deliveries respect, the whole request respects
  pub serve-R : R w.db (serve s req w).1.db
  unfolding serve mux
  serve-R = elim (Bool-cases (str_eq req.method "OPTIONS")) [
    | inl e ↦ rw e (p.self w.db)
    | inr e ↦ rw e (written-R _ _ (dispatch-R (match req.method req.path)))
  ]
