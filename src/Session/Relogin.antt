-- ===== src/Session/Relogin.antt =====
-- Logout, and the unattended relogin from stored credentials.
use protonmail_mcp.Common.{false, Option, none, some, ◌||◌, ◌==◌, if◌then◌else◌}
use protonmail_mcp.Proterr.Chain.{Error, GoError, Result, ok, err}
use protonmail_mcp.Proterr.Mapping.{err_to_mcp}
use protonmail_mcp.Exec.{Exec, pure, ◌>>◌}
use protonmail_mcp.Keychain.{Creds}
use protonmail_mcp.Session.State.{Backend, set_auth, empty_session, State, on_world}
use protonmail_mcp.Session.Login.{LoginInput, effect, change, clear_keyring_cache, login_locked}

-- What `reloginLocked` returns: the client, the mapped CAPTCHA challenge, or neither.
pub data Relogin (Client : Type 0) : Type 0 where
  healed : Client → Relogin Client
  challenged : Error → Relogin Client
  declined : Relogin Client

module _ (b : Backend) where
  open b use {Client, store, codes}

  abbrev pub close_client : Option Client → Exec (State b) (Unit {0})
  close_client none = pure tt
  close_client (some c) = effect b (b.close c)

  abbrev pub logged_out : State b → State b
  logged_out st = record st { client = none; current = empty_session; raw = set_auth "" "" }

  abbrev pub reset_flags : State b → State b
  reset_flags st = record st {
    poisoned = false;
    persist_degraded = false;
    persist_err_reason = "";
    relogin_exhausted = false;
    scope_relogin_exhausted = false;
  }

  -- `Logout`, over the client that is cached
  abbrev pub logout_of : Option Client → Exec (State b) (Unit {0})
  logout_of cached = do
    close_client cached
    change b logged_out
    change b (clear_keyring_cache b)
    on_world b store.clear
    change b reset_flags

  unfoldable pub logout : Exec (State b) (Unit {0})
  logout st = logout_of st.client st

  abbrev pub client_or_declined : Option Client → Relogin Client
  client_or_declined none = declined
  client_or_declined (some c) = healed c

  abbrev pub relogin_error : GoError → Relogin Client
  relogin_error e =
      if (err_to_mcp codes e).code == "proton/captcha"
      then challenged (err_to_mcp codes e)
      else declined

  abbrev pub after_login : Result (Unit {0}) × State b → Relogin Client × State b
  after_login (ok _, st) = (client_or_declined st.client, st)
  after_login (err e, st) = (relogin_error e, st)

  abbrev pub input_of : Creds → LoginInput
  input_of c = record {
    username = c.username;
    password = c.password;
    totp_secret = c.totp_secret;
    totp_code = "";
    mailbox_password = c.mailbox_password;
  }

  abbrev pub with_creds : Result Creds × State b → Relogin Client × State b
  with_creds (err _, st) = (declined, st)
  with_creds (ok c, st) =
      if c.username == "" || c.password == ""
      then (declined, st)
      else after_login (login_locked b (input_of c) st)

  unfoldable pub relogin_locked : State b → Relogin Client × State b
  relogin_locked st = with_creds (on_world b store.load_creds st)
