-- ===== src/Server/Transport.antt =====
-- internal/server/transport.go and the bearer check of internal/server/sse.go.
pub mod Checks
use Prim.Native.String
use protonmail_mcp.Common.{
  ℕ, ◌+◌, ◌≤◌, String, Bool, true, false, Option, none, some, List, [], ◌∷◌, ◌<>◌, ◌==◌, ◌&&◌, ◌||◌,
  ◌≡◌, ltb, leb, codes, strip_prefix, nat_eq, if◌then◌else◌,
}
use protonmail_mcp.Common.Strconv.{ℤ, pos, negsuc, Converted, atoi}
use protonmail_mcp.Proterr.Chain.{GoError, text, Result, ok, err}

pub record TransportConfig : Type 0 where
  pub kind : String
  pub host : String
  pub port : ℕ
  pub token : String

abbrev pub min_sse_token_len : ℕ
min_sse_token_len = 16

-- `len` of a text: its bytes in UTF-8.
unfoldable pub byte_length : List ℕ → ℕ
byte_length [] = 0
byte_length (c ∷ cs) =
    (if ltb c 0x80 then 1 else if ltb c 0x800 then 2 else if ltb c 0x10000 then 3 else 4)
    + byte_length cs

-- The port of a text, unless it is not a number from 1 to 65535.
abbrev pub port_of : ℤ → Bool → Option ℕ
port_of (pos n) failed = if failed || ltb n 1 || ltb 65535 n then none else some n
port_of (negsuc n) failed = none

abbrev pub in_range : Converted → Option ℕ
in_range c = port_of c.number c.failed

-- `os.Getenv`, and `strconv.Quote` for `%q`.
module _ (getenv quote : String → String) where
  abbrev or_default : String → String → String
  or_default name fallback = if getenv name == "" then fallback else getenv name

  unfoldable pub token_config : String → ℕ → String → Result TransportConfig
  token_config host port token =
      if token == ""
      then err (
          text (
            "PROTONMAIL_MCP_SSE_TOKEN is required when PROTONMAIL_MCP_TRANSPORT=sse "
            <> "(generate a random secret; clients must send `Authorization: Bearer <token>`)"))
      else if ltb (byte_length (codes token)) min_sse_token_len
      then err (
          text "PROTONMAIL_MCP_SSE_TOKEN must be at least 16 characters (generate a random secret)")
      else ok (record { kind = "sse"; host = host; port = port; token = token })

  abbrev port_config : String → String → Option ℕ → Result TransportConfig
  port_config host raw none =
      err (text ("PROTONMAIL_MCP_PORT " <> quote raw <> " is not a valid port (1-65535)"))
  port_config host raw (some port) = token_config host port (getenv "PROTONMAIL_MCP_SSE_TOKEN")

  unfoldable pub sse_config : Result TransportConfig
  sse_config =
      if getenv "PROTONMAIL_MCP_PORT" == ""
      then err (text "PROTONMAIL_MCP_PORT is required when PROTONMAIL_MCP_TRANSPORT=sse")
      else port_config (or_default "PROTONMAIL_MCP_HOST" "127.0.0.1") (getenv "PROTONMAIL_MCP_PORT")
          (in_range (atoi (getenv "PROTONMAIL_MCP_PORT")))

  unfoldable pub transport_config_from_env : Result TransportConfig
  transport_config_from_env =
      if or_default "PROTONMAIL_MCP_TRANSPORT" "stdio" == "stdio"
      then ok (record { kind = "stdio"; host = ""; port = 0; token = "" })
      else if or_default "PROTONMAIL_MCP_TRANSPORT" "stdio" == "sse"
      then sse_config
      else err (
          text (
            "invalid PROTONMAIL_MCP_TRANSPORT "
            <> quote (or_default "PROTONMAIL_MCP_TRANSPORT" "stdio")
            <> " (allowed: stdio, sse)"))

-- What `bearerAuth` does with a request: 401, or the handler behind it.
pub data Served : Type 0 where
  unauthorized next_handler : Served

-- `digest` is `sha256.Sum256` of the bytes, and `same` is whether two digests are equal.
unfoldable pub bearer_auth :
    {Digest : Type 0} (digest : List ℕ → Digest) (same : Digest → Digest → Bool)
    → (token header : String) → Served
bearer_auth digest same token header = elim (strip_prefix (codes "Bearer ") (codes header)) [
  | none ↦ unauthorized
  | some given ↦ if same (digest given) (digest (codes token)) then next_handler else unauthorized
]
