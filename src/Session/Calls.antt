-- ===== src/Session/Calls.antt =====
-- The operations of a session as data, for statements about any sequence of them.
use protonmail_mcp.Common.{String, List, [], ◌∷◌}
use protonmail_mcp.Keychain.{Session}
use protonmail_mcp.Session.State.{Backend, State}
use protonmail_mcp.Session.Login.{LoginInput, login_locked}
use protonmail_mcp.Session.Relogin.{logout}
use protonmail_mcp.Session.Access.{
  client, raw, on_auth_rotated, unlocked_keyrings, calendar_keyring,
}

-- `rotate` is the call of a client's auth handler; `Status` changes nothing and is left out.
pub data Call : Type 0 where
  login : LoginInput → Call
  log_out get_client get_raw get_keyrings : Call
  rotate : Session → Call
  get_calendar : String → Call

module _ (b : Backend) where
  unfoldable pub run_call : Call → State b → State b
  run_call (login input) st = (login_locked b input st).1
  run_call log_out st = (logout b st).1
  run_call (rotate next) st = on_auth_rotated b next st
  run_call get_client st = (client b st).1
  run_call get_raw st = (raw b st).1
  run_call get_keyrings st = (unlocked_keyrings b st).1
  run_call (get_calendar id) st = (calendar_keyring b id st).1

  unfoldable pub run_calls : List Call → State b → State b
  run_calls [] st = st
  run_calls (c ∷ calls) st = run_calls calls (run_call c st)
