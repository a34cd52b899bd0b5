-- ===== src/Tools/Handler.antt =====
-- internal/tools/tools.go: the gates, and what all handlers share. A handler returns an output or a
-- `*proterr.Error`; that is an error of Go too, `mapped`.
use protonmail_mcp.Common.{
  ℕ, String, Bool, Option, none, some, List, [], ◌∷◌, ◌++◌, ◌==◌, ◌<>◌, any, ltb, length, codes,
  ◌+◌, ◌/◌, ◌%◌, zero, suc, if◌then◌else◌,
}
use protonmail_mcp.Proterr.Chain.{Error, mapped, Result, ok, err}
use protonmail_mcp.Proterr.Text.{error_text}
use protonmail_mcp.Proterr.Mapping.{err_to_mcp, plain}
use protonmail_mcp.Exec.{Exec, pure, raise, with_error, ◌>>=◌}
use protonmail_mcp.Protonraw.{Web}
use protonmail_mcp.Calendar.Decrypt.{PartCrypto, IcalProps}
use protonmail_mcp.Calendar.Recurrence.{Time, Rules}
use protonmail_mcp.Session.State.{Backend, State, RawClient, on_world}
use protonmail_mcp.Session.Access.{client, raw}
use protonmail_mcp.Tools.Api.{Api, MailAddress}

-- `crypto.Key` as far as it is read.
pub record PublicKey : Type 0 where
  pub fingerprint : String
  pub armored : Option String

-- What the handlers call: the session is `State b`. `quote_bytes` is `strconv.Quote` of a string by
-- its bytes, `parse_address` is `mail.ParseAddress`, `to_lower` is `strings.ToLower`, `new_key` is
-- `crypto.NewKey`, `parse_time` and `format_time` are `time.Parse` and `Format` for RFC 3339 (in UTC),
-- and `sort_by` is `sort.Slice`.
pub record Deps (b : Backend) : Type 1 where
  pub api : Api b
  pub web : Web b.World
  pub getenv : String → String
  pub quote_bytes : List ℕ → String
  pub parse_address : String → Option MailAddress
  pub to_lower : String → String
  pub new_key : String → Option PublicKey
  pub part_crypto : PartCrypto b.KeyRing
  pub decode_ical : String → Result (List IcalProps)
  pub rules : Rules
  pub parse_time : String → Option Time
  pub format_time : Time → String
  pub sort_by : {A : Type 0} → (A → A → Bool) → List A → List A

abbrev enabling : List String
enabling = "1" ∷ "true" ∷ "True" ∷ "TRUE" ∷ "yes" ∷ "Yes" ∷ "YES" ∷ []

unfoldable pub writes_enabled : (String → String) → Bool
writes_enabled getenv = any (λ v. getenv "PROTONMAIL_MCP_ENABLE_WRITES" == v) enabling

unfoldable pub dangerous_enabled : (String → String) → Bool
dangerous_enabled getenv = any (λ v. getenv "PROTONMAIL_MCP_ENABLE_DANGEROUS" == v) enabling

-- `&proterr.Error{Code: "proton/validation", Message: message}`
abbrev pub invalid : String → Error
invalid message = plain "proton/validation" message

unfoldable pub required : (name value : String) → Option Error
required name value = if value == "" then some (invalid (name <> " is required")) else none

abbrev continuation : ℕ → ℕ
continuation c = 0x80 + c % 0x40

-- The UTF-8 bytes of a text.
abbrev utf8_of : ℕ → List ℕ
utf8_of c =
    if ltb c 0x80
    then c ∷ []
    else if ltb c 0x800
    then (0xc0 + c / 0x40) ∷ continuation c ∷ []
    else if ltb c 0x10000
    then (0xe0 + c / 0x1000) ∷ continuation (c / 0x40) ∷ continuation c ∷ []
    else ((0xf0 + c / 0x40000)
        ∷ continuation (c / 0x1000)
        ∷ continuation (c / 0x40)
        ∷ continuation c
        ∷ [])

unfoldable pub utf8 : List ℕ → List ℕ
utf8 [] = []
utf8 (c ∷ cs) = utf8_of c ++ utf8 cs

-- `s[:n]`
unfoldable pub first_bytes : ℕ → List ℕ → List ℕ
first_bytes zero s = []
first_bytes (suc n) [] = []
first_bytes (suc n) (c ∷ s) = c ∷ first_bytes n s

-- The bytes that are quoted, "…" being three of them.
unfoldable pub truncated_bytes : List ℕ → List ℕ
truncated_bytes s = if ltb 100 (length s) then first_bytes 100 s ++ 0xe2 ∷ 0x80 ∷ 0xa6 ∷ [] else s

unfoldable pub quote_trunc : (quote_bytes : List ℕ → String) → String → String
quote_trunc quote_bytes s = quote_bytes (truncated_bytes (utf8 (codes s)))

module _ (b : Backend) where
  -- `return proterr.Map(err)`
  abbrev pub or_mapped : {A : Type 0} → Exec (State b) A → Exec (State b) A
  or_mapped = with_error (λ e. mapped (err_to_mcp b.codes e))

  -- `if perr != nil { return perr }`
  abbrev pub unless : Option Error → Exec (State b) (Unit {0})
  unless none = pure tt
  unless (some e) = raise (mapped e)

  -- `client`
  unfoldable pub tool_client : Exec (State b) b.Client
  tool_client = or_mapped (client b)

  -- `d.Session.Raw(ctx)`
  unfoldable pub raw_client : Exec (State b) RawClient
  raw_client st = let (r, st') = raw b st in (ok r, st')

  -- A call over that client
  abbrev pub with_raw : {A : Type 0} → (RawClient → Exec b.World A) → Exec (State b) A
  with_raw call = do r ← raw_client; on_world b (call r)

-- An entry of the server: a name, the hints of its annotations, and the handler. The destructive
-- hint is a pointer, which is nil (here none) for a tool that is not annotated with it.
pub record Tool (b : Backend) : Type 1 where
  pub name : String
  pub read_only_hint : Bool
  pub destructive_hint : Option Bool
  pub Input : Type 0
  pub Output : Type 0
  pub run : Input → Exec (State b) Output

abbrev pub tool :
    {b : Backend} {I O : Type 0}
    → String
    → (read_only : Bool) → (destructive : Option Bool) → (I → Exec (State b) O)
    → Tool b
tool {I = I} {O = O} name read_only destructive handler = record {
  name = name;
  read_only_hint = read_only;
  destructive_hint = destructive;
  Input = I;
  Output = O;
  run = handler;
}

-- What the caller of a tool is sent: the output, or an error with a text.
pub data CallResult (A : Type 0) : Type 0 where
  output : A → CallResult A
  failure : (text : String) → CallResult A

abbrev pub finish : {A S : Type 0} → Result A × S → CallResult A × S
finish (ok a, st) = (output a, st)
finish (err e, st) = (failure (error_text e), st)

-- The function that `addTool` hands to the server; the text is the one of `failure`.
abbrev pub call_tool :
    {b : Backend} (t : Tool b) → t.Input → State b → CallResult t.Output × State b
call_tool t input st = finish (t.run input st)
