-- ===== src/Keychain/Diagnosis.antt =====
-- The errors of the OS keyring that have a known cause, told apart by platform.
use protonmail_mcp.Common.{
  ℕ, String, Bool, false, none, some, ◌<>◌, ◌==◌, ◌||◌, nat_eq, contains, if◌then◌else◌,
}
use protonmail_mcp.Proterr.Chain.{GoError, wrap, find_first, pick_dbus, pick_exit}
use protonmail_mcp.Proterr.Text.{error_text}

abbrev pub interaction_not_allowed_exit_code : ℕ
interaction_not_allowed_exit_code = 36

abbrev pub secret_service_unknown_dbus_name : String
secret_service_unknown_dbus_name = "org.freedesktop.DBus.Error.ServiceUnknown"

abbrev pub no_session_bus_substr : String
no_session_bus_substr = "couldn't determine address of session bus"

-- `backendUnavailable`, and its exported name `IsBackendUnavailable`
unfoldable pub backend_unavailable : GoError → Bool
backend_unavailable cause =
    (elim (find_first pick_dbus cause) [
      | none ↦ false
      | some name ↦ name == secret_service_unknown_dbus_name
    ])
    || contains (error_text cause) no_session_bus_substr

-- `diagnoseKeychainErrFor` of an error that is not nil
unfoldable pub diagnose_keychain_err_for : GoError → String → GoError
diagnose_keychain_err_for cause goos =
    if goos == "darwin"
    then (elim (find_first pick_exit cause) [
      | none ↦ cause
      | some status ↦
          if nat_eq status interaction_not_allowed_exit_code
          then wrap "" cause (
              " (login keychain is locked or unreachable from this context — "
              <> "unlock via Keychain Access.app, or run `security unlock-keychain "
              <> "~/Library/Keychains/login.keychain-db` in a Terminal.app session "
              <> "that has a SecurityAgent connection)")
          else cause
    ])
    else if backend_unavailable cause
    then wrap "" cause (
        " (no D-Bus Secret Service is available on this host — set "
        <> "PROTONMAIL_MCP_CREDENTIAL_BACKEND=file and PROTONMAIL_MCP_STATE_DIR "
        <> "to use the file credential backend; see docs/headless-deployment.md)")
    else cause
