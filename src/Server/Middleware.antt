-- ===== src/Server/Middleware.antt =====
-- `cors` and `recoverer` of backend/internal/api/server.go, and a whole server.
use cc_005_offline_inspectio.Base.{str_eq, if◌then◌else◌}
use cc_005_offline_inspectio.Tx.{Result, ok, err, World}
use cc_005_offline_inspectio.Server.Writer.{
  Writer, fresh, set_header, write_header, write_err, internal_error,
}
use cc_005_offline_inspectio.Server.Services.{Services, Request}
use cc_005_offline_inspectio.Server.Handlers.{mux}

-- how a handler ends, with what it has written
pub data Ran : Type 0 where
  returned panicked : Writer → Ran

abbrev pub Handler : Type 0
Handler = Request → Writer → World → Ran × World

unfoldable pub with_cors_headers : Writer → Writer
with_cors_headers out = set_header "Access-Control-Allow-Methods" "GET, POST, PUT, OPTIONS" (
    set_header "Access-Control-Allow-Headers" "Authorization, Content-Type, X-Op-Id"
      (set_header "Access-Control-Allow-Origin" "*" out))

unfoldable pub cors : Handler → Handler
cors next req out w =
    if str_eq req.method "OPTIONS"
    then (returned (write_header 204 (with_cors_headers out)), w)
    else next req (with_cors_headers out) w

unfoldable pub recovered : Ran → Writer
recovered (returned out) = out
recovered (panicked out) = write_err 500 internal_error out

unfoldable pub recoverer : Handler → Handler
recoverer next req out w = let (r, w') = next req out w in (returned (recovered r), w')

-- an error that a handler does not look at would be a panic
abbrev pub written : Writer → Result (Writer → Writer) × World → Ran × World
written out (ok write, w) = (returned (write out), w)
written out (err e, w) = (panicked out, w)

module _ (s : Services) where
  unfoldable pub mux_handler : Handler
  mux_handler req out w = written out (mux s req w)

  -- the handler that `Routes` returns
  unfoldable pub routed : Handler
  unfolding recoverer cors mux_handler
  routed = recoverer (cors mux_handler)

  unfoldable pub serve : Request → World → Writer × World
  unfolding routed
  serve req w = let (r, w') = routed req fresh w in (recovered r, w')
