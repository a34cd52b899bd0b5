-- ===== src/Tests/Edges.antt =====
-- The theorems on the transports and on the choice of a store, at concrete environments.
use protonmail_mcp.Common.{
  ◌↔◌, ◌++◌, nat_eq, length, arith, codes, true, ℕ, String, true, Option, none, some, List, [], ◌≡◌,
  refl, ◌==◌, ◌⊎◌, codes, strip_prefix, ◌<>◌, if◌then◌else◌,
}
use protonmail_mcp.Common.Strconv.{same_codes}
use protonmail_mcp.Proterr.Chain.{Result, ok, err, text}
use protonmail_mcp.Keychain.{Session}
use protonmail_mcp.Server.Transport.{
  TransportConfig, next_handler, transport_config_from_env, sse_config, token_config, byte_length,
  bearer_auth,
}
use protonmail_mcp.Server.Transport.Checks.{
  IsListening, transport_config_from_env-IsSafe, bearer_auth-next,
}
use protonmail_mcp.Selection.{
  Host, Selected, keychain_backend, file_backend, OtherBackendHint, backend_name,
  probe_other_backend, probe_backend,
}
use protonmail_mcp.Selection.Probing.{IsElsewhere, probe_other_backend-IsElsewhere}
use protonmail_mcp.Tests.Model.{stored_session}

abbrev sse_env : String → String
sse_env name =
    if name == "PROTONMAIL_MCP_TRANSPORT"
    then "sse"
    else if name == "PROTONMAIL_MCP_PORT"
    then "8080"
    else if name == "PROTONMAIL_MCP_SSE_TOKEN"
    then "0123456789abcdef"
    else ""

abbrev no_quote : String → String
no_quote s = s

abbrev sse_settings : TransportConfig
sse_settings = record { kind = "sse"; host = "127.0.0.1"; port = 8080; token = "0123456789abcdef" }

configured : transport_config_from_env sse_env no_quote ≡ ok sse_settings
unfolding transport_config_from_env sse_config token_config byte_length
    protonmail_mcp.Common.Strconv.atoi
configured = refl

transport_config_from_env-IsSafe_example : (sse_settings.kind ≡ "stdio") ⊎ IsListening sse_settings
transport_config_from_env-IsSafe_example =
    transport_config_from_env-IsSafe sse_env no_quote sse_settings configured

-- A digest that tells lengths apart.
same_length : (x y : ℕ) → (nat_eq x y ≡ true) ↔ (x ≡ y)
same_length x y = (λ h. ground (arith, h), λ h. ground (arith, h))

bearer_auth-next_example : (bearer_auth length nat_eq "secret" "Bearer secret" ≡ next_handler) ↔ (
    (given : List ℕ) × (codes "Bearer secret" ≡ codes "Bearer " ++ given)
    × (length given ≡ length (codes "secret")))
bearer_auth-next_example = bearer_auth-next length nat_eq same_length "secret" "Bearer secret"

abbrev file_host : Host
file_host = record {
  getenv = λ name. if name == "PROTONMAIL_MCP_CREDENTIAL_BACKEND" then "file" else "";
  home = err (text "no home");
  quote = λ s. s;
  join = λ _. "";
  flock_supported = true;
}

abbrev keychain_only : Selected → Result Session
keychain_only keychain_backend = ok stored_session
keychain_only (file_backend _) = err (text "corrupt")

abbrev elsewhere : OtherBackendHint
elsewhere = record { backend = "keychain"; dir = ""; unreadable = none }

probed : probe_other_backend file_host keychain_only ≡ some elsewhere
unfolding probe_other_backend probe_backend backend_name
probed = refl

probe_other_backend-IsElsewhere_example : IsElsewhere file_host keychain_only elsewhere
probe_other_backend-IsElsewhere_example =
    probe_other_backend-IsElsewhere file_host keychain_only elsewhere probed
