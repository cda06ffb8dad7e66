-- ===== src/Server/Answers.antt =====
-- Every request is answered.
use cc_005_offline_inspectio.Base.{
  String, Option, none, some, ◌≡◌, refl, ap, str_eq, inl, inr, Bool-cases,
}
use mathlib.Core.Path.{subst}
use cc_005_offline_inspectio.Tx.{Result, ok, err, World, Tx, pure, now, ◌>>=◌, continue}
use cc_005_offline_inspectio.Auth as Auth
use cc_005_offline_inspectio.Auth.{Answer, Session, Profile, Claims, Jwt, Manager}
use cc_005_offline_inspectio.Server.Writer.{Writer, fresh, put, header}
use cc_005_offline_inspectio.Server.Routes.{
  Endpoint, health, login, Handled, me, list_inspections, get_inspection, sync, resolve_conflict,
  create_upload, upload_status, put_part, complete_upload, download_attachment, attachment_content,
  Params, Match, found, not_found, method_not_allowed, match,
}
use cc_005_offline_inspectio.Server.Services.{Services, Request, Body}
use cc_005_offline_inspectio.Server.Handlers.{guarded, authorized, run, dispatch, mux}
use cc_005_offline_inspectio.Server.Middleware.{recovered, written, with_cors_headers, serve}
use cc_005_offline_inspectio.Server.Finishes.{
  IsOpen, IsAnswer, Finishes, coded, write_err-Finishes, session-Finishes, profile-Finishes,
  inspection-Finishes, sync-Finishes, upload-Finishes, link-Finishes, content-Finishes,
  health-Finishes, text_error-Finishes,
}

-- an action that returns gives such a value
record Gives {A : Type 0} (P : A → Type 0) (m : Tx A) : Type 0 where
  gives : (w : World) (a : A) → (m w).0 ≡ ok a → P a

Gives-pure : {A : Type 0} (P : A → Type 0) (a : A) → P a → Gives P (pure a)
unfolding pure
Gives-pure P a h = record { gives = λ w b e. let same : a ≡ b = cc e in subst P same h }

Gives-bind :
    {A B : Type 0} (P : A → Type 0) (Q : B → Type 0) (m : Tx A) (f : A → Tx B)
    → Gives P m
    → ((a : A) → P a → Gives Q (f a))
    → Gives Q (m >>= f)
unfolding ◌>>=◌
Gives-bind {A} {B} P Q m f hm hf = record { gives = λ w. go w (m w) refl }
  where
    go :
        (w : World) (x : Result A × World) → m w ≡ x → (b : B) → (continue x.0 f x.1).0 ≡ ok b → Q b
    go w (ok a, v) e b h = (hf a (hm.gives w a (ap (λ (y : Result A × World). y.0) e))).gives v b h
    go w (err m, v) e b h = cc h

Gives-answer :
    {A B : Type 0} (P : B → Type 0) (m : Tx A) (f : A → B)
    → ((a : A) → P (f a))
    → Gives P (m >>= λ a. pure (f a))
Gives-answer P m f h =
    Gives-bind (λ _. Unit {0}) P m _ (record { gives = λ w a e. tt })
      (λ a _. Gives-pure P (f a) (h a))

guarded-Finishes :
    (s : Services) (h : Handled) (ps : Params) (body : Body) (c : Claims)
    → Gives Finishes (guarded s h ps body c)
unfolding guarded
guarded-Finishes s me ps body c = Gives-answer Finishes _ _ profile-Finishes
guarded-Finishes s list_inspections ps body c = Gives-answer Finishes _ _ inspection-Finishes
guarded-Finishes s get_inspection ps body c = Gives-answer Finishes _ _ inspection-Finishes
guarded-Finishes s sync ps body c = Gives-answer Finishes _ _ sync-Finishes
guarded-Finishes s resolve_conflict ps body c = Gives-answer Finishes _ _ inspection-Finishes
guarded-Finishes s create_upload ps body c = Gives-answer Finishes _ _ upload-Finishes
guarded-Finishes s upload_status ps body c = Gives-answer Finishes _ _ upload-Finishes
guarded-Finishes s put_part ps body c = Gives-answer Finishes _ _ upload-Finishes
guarded-Finishes s complete_upload ps body c = Gives-answer Finishes _ _ upload-Finishes
guarded-Finishes s download_attachment ps body c = Gives-answer Finishes _ _ link-Finishes
guarded-Finishes s attachment_content ps body c =
    Gives-answer Finishes _ _ (content-Finishes s.format_int)

-- an answer of the middleware, if it is served, finishes the writer
abbrev FinishesIfServed : Answer (Writer → Writer) → Type 0
FinishesIfServed (Auth.refusal n d) = Unit
FinishesIfServed (Auth.served f) = Finishes f

module _ (jwt : Jwt) (m : Manager) (next : Claims → Tx (Writer → Writer))
    (h : (c : Claims) → Gives Finishes (next c)) where
  claims-Gives : (r : Result Claims) → Gives FinishesIfServed (Auth.with_claims jwt m next r)
  unfolding Auth.with_claims
  claims-Gives (err e) = Gives-pure FinishesIfServed _ tt
  claims-Gives (ok c) =
      Gives-bind Finishes FinishesIfServed (next c) _ (h c)
        (λ f k. Gives-pure FinishesIfServed (Auth.served f) k)

  token-Gives : (t : Option String) → Gives FinishesIfServed (Auth.with_token jwt m next t)
  unfolding Auth.with_token
  token-Gives none = Gives-pure FinishesIfServed _ tt
  token-Gives (some t) =
      Gives-bind (λ _. Unit {0}) FinishesIfServed now _ (record { gives = λ w a e. tt })
        (λ at _. claims-Gives (Auth.parse jwt m at t))

module _ (s : Services) where
  authorized-Finishes :
      (a : Answer (Writer → Writer)) → FinishesIfServed a → Finishes (authorized s a)
  unfolding authorized
  authorized-Finishes (Auth.refusal n d) h = record { finish = (write_err-Finishes n _).finish }
  authorized-Finishes (Auth.served f) h = record { finish = h.finish }

  run-Finishes : (e : Endpoint) (ps : Params) (req : Request) → Gives Finishes (run s e ps req)
  unfolding run Auth.auth
  run-Finishes health ps req = Gives-answer Finishes _ _ (λ r. health-Finishes _ _)
  run-Finishes login ps req = Gives-answer Finishes _ _ session-Finishes
  run-Finishes (Endpoint.auth h) ps req =
      Gives-bind FinishesIfServed Finishes
        (Auth.auth s.jwt s.manager (guarded s h ps req.body) req.authorization) _
        (token-Gives s.jwt s.manager (guarded s h ps req.body) (guarded-Finishes s h ps req.body)
          (Auth.strip "Bearer " req.authorization))
        (λ a k. Gives-pure Finishes (authorized s a) (authorized-Finishes a k))

  dispatch-Finishes : (x : Match) (req : Request) → Gives Finishes (dispatch s x req)
  unfolding dispatch
  dispatch-Finishes (found e ps) req = run-Finishes e ps req
  dispatch-Finishes not_found req = Gives-pure Finishes _ (text_error-Finishes _ 404)
  dispatch-Finishes method_not_allowed req = Gives-pure Finishes _ (text_error-Finishes _ 405)

  written-IsAnswer :
      (out : Writer) (x : Result (Writer → Writer) × World)
      → IsOpen out
      → ((f : Writer → Writer) → x.0 ≡ ok f → Finishes f)
      → IsAnswer (recovered (written out x).0)
  unfolding recovered
  written-IsAnswer out (ok f, w) h k = (k f refl).finish out h
  written-IsAnswer out (err e, w) h k = (write_err-Finishes 500 _).finish out h

  cors-IsOpen : IsOpen (with_cors_headers fresh)
  unfolding with_cors_headers put header
  cors-IsOpen = refl

  -- Every request is answered with a code, and with the header by which any origin may read the answer:
  -- also if no route fits it, and if it asks only for the rules of CORS.
  pub serve-IsAnswer : (req : Request) (w : World) → IsAnswer (serve s req w).0
  unfolding serve recovered mux
  serve-IsAnswer req w = elim (Bool-cases (str_eq req.method "OPTIONS")) [
    | inl e ↦ rw e (cors-IsOpen, coded (with_cors_headers fresh).code 204)
    | inr e ↦ rw e (
        written-IsAnswer (with_cors_headers fresh) (mux s req w) cors-IsOpen
          (λ f h. (dispatch-Finishes (match req.method req.path) req).gives w f h))
  ]
