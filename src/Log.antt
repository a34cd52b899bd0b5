-- ===== src/Log.antt =====
-- internal/log/log.go: the handler that redacts attributes, over the handler of log/slog.
pub mod Redaction
use protonmail_mcp.Common.{String, Bool, List, [], ◌∷◌, map, any, contains, if◌then◌else◌}

abbrev pub sensitive_substrings : List String
sensitive_substrings = "password" ∷ "passphrase" ∷ "token" ∷ "secret" ∷ "totp" ∷ "key" ∷ []

-- `[]slog.Attr`: each attribute has a name, and a value with its printed form or a group of
-- attributes. Values that are computed when they are printed (`slog.LogValuer`) are left out.
pub data Attrs : Type 0 where
  no_attrs : Attrs
  attr : (name value : String) → (rest : Attrs) → Attrs
  group : (name : String) → (inner rest : Attrs) → Attrs

-- `slog.Record`; its time, level and program counter are copied.
pub record Record : Type 0 where
  pub message : String
  pub attrs : Attrs

-- What a handler was derived by, the first first.
pub data Derivation : Type 0 where
  with_attrs : Attrs → Derivation
  with_group : String → Derivation

-- `strings.ToLower`
module _ (to_lower : String → String) where
  unfoldable pub is_sensitive_name : String → Bool
  is_sensitive_name name = any (contains (to_lower name)) sensitive_substrings

  -- `redactAttr` of each attribute.
  unfoldable pub redact_attrs : Attrs → Attrs
  redact_attrs no_attrs = no_attrs
  redact_attrs (attr name value rest) =
      let redacted = redact_attrs rest in
      if is_sensitive_name name then attr name "<redacted>" redacted else attr name value redacted
  redact_attrs (group name inner rest) = group name (redact_attrs inner) (redact_attrs rest)

  -- `WithAttrs` and `WithGroup`, as the inner handler sees them.
  unfoldable pub inner_derivation : Derivation → Derivation
  inner_derivation (with_attrs attrs) = with_attrs (redact_attrs attrs)
  inner_derivation (with_group name) = with_group name

  -- `Handle` of a handler that was so derived: how the inner handler was derived, and the record it gets.
  unfoldable pub handle : List Derivation → Record → List Derivation × Record
  handle derived r =
      (map inner_derivation derived, record { message = r.message; attrs = redact_attrs r.attrs })
