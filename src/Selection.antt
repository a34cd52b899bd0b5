-- ===== src/Selection.antt =====
-- internal/session/select.go and internal/credfile/path.go: which credential store is used, and
-- where the file store lives.
pub mod Probing
use Prim.Native.String
use Prim.Native.Char.{code}
use protonmail_mcp.Common.{
  String, Bool, true, false, Option, none, some, List, [], ◌∷◌, ◌<>◌, ◌==◌, ◌≡◌, ◌≢◌, nat_eq,
  nonempty, if◌then◌else◌, eq_iff, eq_refl, arith, Bool-cases, inl, inr, refl,
}
use protonmail_mcp.Proterr.Chain.{
  keychain_not_found, GoError, text, wrap, errors_is, Result, ok, err,
}
use protonmail_mcp.Keychain.{Session}
use protonmail_mcp.Credfile.{open_error}

-- A call of `os.Getenv`, which is "" for a variable that is not set, and the outcome of
-- `os.UserHomeDir`; `strconv.Quote` (`%q`), `filepath.Join` and whether the platform has file locks.
pub record Host : Type 0 where
  pub getenv : String → String
  pub home : Result String
  pub quote : String → String
  pub join : List String → String
  pub flock_supported : Bool

-- What stands before the first colon, or all of it.
unfoldable pub first_entry : String → String
first_entry String.[] = ""
first_entry (String.◌∷◌ c s) =
    let rest = first_entry s in if nat_eq (code c) b':' then "" else String.◌∷◌ c rest

-- A store by the backend that it uses.
pub data Selected : Type 0 where
  keychain_backend : Selected
  file_backend : (dir : String) → Selected

pub record OtherBackendHint : Type 0 where
  pub backend : String
  pub dir : String
  pub unreadable : Option GoError

module _ (h : Host) where
  open h use {getenv, home, quote, join, flock_supported}

  abbrev home_dir : Result String → Result String
  home_dir (ok d) = ok (join (d ∷ ".local" ∷ "state" ∷ "protonmail-mcp" ∷ []))
  home_dir (err e) = err (
      wrap
        ("resolve state dir: no PROTONMAIL_MCP_STATE_DIR/STATE_DIRECTORY/XDG_STATE_HOME "
          <> "and home unknown: ")
        e "")

  unfoldable pub resolve_state_dir : Result String
  resolve_state_dir =
      if nonempty (getenv "PROTONMAIL_MCP_STATE_DIR")
      then ok (getenv "PROTONMAIL_MCP_STATE_DIR")
      else if nonempty (getenv "STATE_DIRECTORY")
      then ok (first_entry (getenv "STATE_DIRECTORY"))
      else if nonempty (getenv "XDG_STATE_HOME")
      then ok (join (getenv "XDG_STATE_HOME" ∷ "protonmail-mcp" ∷ []))
      else home_dir home

  unfoldable pub backend_name : String
  backend_name =
      if nonempty (getenv "PROTONMAIL_MCP_CREDENTIAL_BACKEND")
      then getenv "PROTONMAIL_MCP_CREDENTIAL_BACKEND"
      else "keychain"

  -- `credfile.New`
  abbrev opened_at : String → Option GoError → Result Selected
  opened_at dir (some e) = err e
  opened_at dir none = ok (file_backend dir)

  abbrev file_store : Result String → Result Selected
  file_store (err e) = err e
  file_store (ok dir) = opened_at dir (open_error flock_supported dir)

  unfoldable pub select_store : Result Selected
  select_store =
      if backend_name == "keychain"
      then ok keychain_backend
      else if backend_name == "file"
      then file_store resolve_state_dir
      else err (
          text (
            "invalid PROTONMAIL_MCP_CREDENTIAL_BACKEND "
            <> quote backend_name
            <> " (allowed: keychain, file)"))

  -- The outcome of `LoadSession` on the other store decides.
  unfoldable pub probe_backend : Result Session → OtherBackendHint → Option OtherBackendHint
  probe_backend (ok _) base = some base
  probe_backend (err e) base =
      if errors_is e keychain_not_found then none else some (record base { unreadable = some e })

  -- `load` is `LoadSession` of a store.
  abbrev probe_file : (Selected → Result Session) → Result Selected → Option OtherBackendHint
  probe_file load (err _) = none
  probe_file load (ok keychain_backend) = none
  probe_file load (ok (file_backend dir)) =
      probe_backend (load (file_backend dir))
        (record { backend = "file"; dir = dir; unreadable = none })

  unfoldable pub probe_other_backend : (Selected → Result Session) → Option OtherBackendHint
  probe_other_backend load =
      if backend_name == "file"
      then probe_backend (load keychain_backend)
          (record { backend = "keychain"; dir = ""; unreadable = none })
      else probe_file load (file_store resolve_state_dir)
