-- ===== src/Session/Login.antt =====
-- Login, relogin and logout, each one critical section under the session's lock.
use protonmail_mcp.Common.{
  String, true, false, Option, none, some, List, [], ◌∷◌, ◌&&◌, ◌<>◌, ◌==◌, nonempty, if◌then◌else◌,
}
use protonmail_mcp.Proterr.Chain.{
  totp_rejected, totp_required, mailbox_password_required, GoError, text, sentinel, wrap, join,
  Result, ok, err,
}
use protonmail_mcp.Proterr.Mapping.{is_totp_rejected}
use protonmail_mcp.Exec.{Exec, pure, raise, attempt, with_error, context, ◌>>=◌, ◌>>◌}
use protonmail_mcp.Keychain.{Creds, Session}
use protonmail_mcp.Keychain.Diagnosis.{backend_unavailable}
use protonmail_mcp.Keyring.{Keyrings, lift, clear_keyrings}
use protonmail_mcp.Session.State.{
  one_password, two_password, other_mode, PasswordMode, Auth, Backend, set_auth, State, on_world,
}
use protonmail_mcp.Session.Capture.{new_capture, observe, merge}
use protonmail_mcp.Session.Totp.{generate_totp}

pub record LoginInput : Type 0 where
  pub username : String
  pub password : String
  pub totp_secret : String
  pub totp_code : String
  pub mailbox_password : String

unfoldable pub choose_mailbox_password : PasswordMode → String → Result String
choose_mailbox_password two_password supplied =
    if supplied == "" then err (sentinel mailbox_password_required) else ok supplied
choose_mailbox_password one_password supplied = ok ""
choose_mailbox_password (other_mode number) supplied =
    err (text ("unrecognised password mode " <> number))

-- The tokens that are kept of an `Auth`.
abbrev pub session_of_auth : Auth → Session
session_of_auth a = record {
  uid = a.uid;
  access_token = a.access_token;
  refresh_token = a.refresh_token;
  scope = a.scope;
}

module _ (b : Backend) where
  open b use {World, Client, KeyRing, store, codes, pgp}

  abbrev pub effect : (World → World) → Exec (State b) (Unit {0})
  effect f st = (ok tt, record st { world = f st.world })

  abbrev pub change : (State b → State b) → Exec (State b) (Unit {0})
  change f st = (ok tt, f st)

  -- `if err != nil { c.Close(); return err }`
  abbrev pub closed : {A : Type 0} → Client → Result A × State b → Result A × State b
  closed c (ok a, st) = (ok a, st)
  closed c (err e, st) = (err e, record st { world = b.close c st.world })

  abbrev pub closing : {A : Type 0} → Client → Exec (State b) A → Exec (State b) A
  closing c m st = closed c (m st)

  -- `clearKeyringCache`
  abbrev pub clear_cal : List (String × KeyRing) → World → World
  clear_cal [] w = w
  clear_cal ((_, kr) ∷ rest) w = clear_cal rest (pgp.clear_private_params kr w)

  abbrev pub clear_user : Option (Keyrings KeyRing) → World → World
  clear_user none w = w
  clear_user (some k) w = clear_keyrings pgp k w

  unfoldable pub clear_keyring_cache : State b → State b
  clear_keyring_cache st = record st {
    keyrings = none;
    cal_keyrings = [];
    world = clear_cal st.cal_keyrings (clear_user st.keyrings st.world);
  }

  unfoldable pub after_clear : String → GoError → Result (Unit {0}) → Exec (State b) (Unit {0})
  after_clear op cause (ok _) = raise (wrap (op <> ": ") cause "")
  after_clear op cause (err rerr) = do
    change (λ st. record st { poisoned = true })
    raise (
        join (wrap (op <> ": ") cause "") (
          wrap "login rollback: " rerr
            " (keychain may be inconsistent; run `protonmail-mcp logout` to clear)"))

  -- `rollbackLoginPersist` always ends in an error.
  unfoldable pub rollback_login_persist : String → GoError → Exec (State b) (Unit {0})
  rollback_login_persist op cause =
      if backend_unavailable cause
      then raise (
          wrap "" (wrap (op <> ": ") cause "") (
            " (nothing was persisted; the credential backend is unreachable, "
            <> "so no cleanup is needed)"))
      else (do cleared ← attempt (on_world b store.clear); after_clear op cause cleared)

  unfoldable pub or_rollback : String → Result (Unit {0}) → Exec (State b) (Unit {0})
  or_rollback op (ok _) = pure tt
  or_rollback op (err e) = rollback_login_persist op e

  unfoldable pub persist_login_state : Creds → Session → Exec (State b) (Unit {0})
  persist_login_state creds sess = do
    saved ← attempt (on_world b (store.save_creds creds))
    or_rollback "save creds" saved
    stored ← attempt (on_world b (store.save_session sess))
    or_rollback "save session" stored
    change (λ st. record st { persist_degraded = false; persist_err_reason = "" })

  -- The code to submit: the supplied one, or one made from the secret.
  unfoldable pub pick_code : LoginInput → Exec (State b) String
  pick_code input st =
      if input.totp_code == "" && nonempty input.totp_secret
      then with_error (λ e. wrap "generate totp: " e "")
          (lift (generate_totp b input.totp_secret st.world)) st
      else pure input.totp_code st

  abbrev pub require_code : String → Exec (State b) String
  require_code code = if code == "" then raise (sentinel totp_required) else pure code

  abbrev pub submit_error : GoError → GoError
  submit_error e =
      if is_totp_rejected codes e
      then wrap "submit 2fa: " (sentinel totp_rejected) ""
      else wrap "submit 2fa: " e ""

  -- A client over the captured tokens replaces the first one.
  unfoldable pub with_captured : Client → Auth → Option Auth → Exec (State b) (Client × Auth)
  with_captured c auth none = pure (c, auth)
  with_captured c auth (some post) = do
    effect (b.close c)
    c' ← on_world b (λ w.
        let (c', w') = b.new_client post.uid post.access_token post.refresh_token w in (ok c', w'))
    pure (c', post)

  -- What follows `Auth2FA`, whose error is the first argument.
  unfoldable pub after_2fa :
      Option GoError → Client → Auth → Option Auth → Exec (State b) (Client × Auth)
  after_2fa (some e) c auth captured = do effect (b.close c); raise (submit_error e)
  after_2fa none c auth captured = with_captured c auth captured

  unfoldable pub two_factor : LoginInput → Client × Auth → Exec (State b) (Client × Auth)
  two_factor input (c, auth) =
      if auth.has_totp
      then (do
        picked ← closing c (pick_code input)
        code ← closing c (require_code picked)
        sent ← on_world b (λ w. let (sent, w') = b.auth_2fa c code w in (ok sent, w'))
        after_2fa sent.error c auth (merge (observe sent.responses new_capture) auth).0)
      else pure (c, auth)

  -- The fields that a successful login sets, after it has persisted.
  unfoldable pub adopt_login : Client → Session → State b → State b
  adopt_login c next st = clear_keyring_cache (record st {
    client = some c;
    current = next;
    raw = set_auth next.access_token next.uid;
    relogin_exhausted = false;
    scope_relogin_exhausted = false;
  })

  -- The steps after authentication, over the client and the auth that it ended with.
  unfoldable pub finish_login : LoginInput → Client × Auth → Exec (State b) (Unit {0})
  finish_login input (c, auth) = do
    mailbox ← closing c (lift (choose_mailbox_password auth.password_mode input.mailbox_password))
    effect (b.add_auth_handler c)
    closing c (
        persist_login_state
          (record {
            username = input.username;
            password = input.password;
            totp_secret = input.totp_secret;
            mailbox_password = mailbox;
          })
          (session_of_auth auth))
    change (adopt_login c (session_of_auth auth))

  unfoldable pub login_locked : LoginInput → Exec (State b) (Unit {0})
  login_locked input = do
    first ←
        context "password auth: "
          (on_world b (b.new_client_with_login input.username input.password))
    second ← two_factor input first
    finish_login input second
