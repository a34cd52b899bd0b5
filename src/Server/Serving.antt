-- ===== src/Server/Serving.antt =====
-- `RunWithOptions` of internal/server/server.go and the lifecycle of internal/server/sse.go.
use protonmail_mcp.Common.{
  String, Option, none, some, List, ◌<>◌, ◌==◌, ◌&&◌, nonempty, if◌then◌else◌,
}
use protonmail_mcp.Common.Strconv.{pos}
use protonmail_mcp.Common.Ints.{itoa}
use protonmail_mcp.Proterr.Chain.{server_closed, GoError, wrap, errors_is, Result, ok, err}
use protonmail_mcp.Exec.{Exec, with_error, context, ◌>>=◌}
use protonmail_mcp.Keyring.{lift}
use protonmail_mcp.Session.State.{Backend, State}
use protonmail_mcp.Server.Transport.{TransportConfig, transport_config_from_env}
use protonmail_mcp.Tools.Handler.{Tool}

abbrev pub default_api_url : String
default_api_url = "https://mail.proton.me/api"

-- How serving over HTTP ends: the context is cancelled, `Shutdown` returns, and so does `Serve`
-- after it; or `Serve` returns first. `Serve` always returns an error.
pub data Ending : Type 0 where
  cancelled : (shutdown : Option GoError) → (served : GoError) → Ending
  stopped : (served : GoError) → Ending

abbrev pub unless_closed : GoError → Result (Unit {0})
unfolding errors_is
unless_closed e = if errors_is e server_closed then ok tt else err (wrap "sse serve: " e "")

-- `serveSSEListener`, for each way that it can end.
unfoldable pub serve_sse_listener : Ending → Result (Unit {0})
serve_sse_listener (cancelled (some e) served) = err (wrap "sse shutdown: " e "")
serve_sse_listener (cancelled none served) = unless_closed served
serve_sse_listener (stopped served) = unless_closed served

-- What the server uses of go-sdk, net and net/http; a transport calls the tools on the session.
pub record Transports (b : Backend) : Type 1 where
  pub Listener : Type 0
  pub run_stdio : List (Tool b) → Exec (State b) (Unit {0})
  pub listen : (address : String) → Exec (State b) Listener
  pub serve : Listener → (token : String) → List (Tool b) → State b → Ending × State b

-- The API URL of `RunWithOptions`: the variable counts when the default was asked for.
unfoldable pub server_api_url : (from_env api_url : String) → String
server_api_url from_env api_url =
    let chosen = if api_url == "" then default_api_url else api_url in
    if nonempty from_env && chosen == default_api_url then from_env else chosen

module _ {b : Backend} (t : Transports b) where
  -- `serveSSE`, without its warning.
  unfoldable pub serve_sse : TransportConfig → List (Tool b) → Exec (State b) (Unit {0})
  serve_sse cfg tools = do
    let address = cfg.host <> ":" <> itoa (pos cfg.port)
    listener ← with_error (λ e. wrap ("listen " <> address <> ": ") e "") (t.listen address)
    ending ← λ st. let (ending, st') = t.serve listener cfg.token tools st in (ok ending, st')
    lift (serve_sse_listener ending)

  abbrev pub over : TransportConfig → List (Tool b) → Exec (State b) (Unit {0})
  over cfg tools =
      if cfg.kind == "sse" then serve_sse cfg tools else context "mcp server: " (t.run_stdio tools)

  -- What `RunWithOptions` does with its session.
  unfoldable pub serve_tools :
      (getenv quote : String → String) → List (Tool b) → Exec (State b) (Unit {0})
  serve_tools getenv quote tools = do
    cfg ← context "transport config: " (lift (transport_config_from_env getenv quote))
    over cfg tools
