-- ===== src/Session/Access.antt =====
-- The operations that hand out clients and keyrings, and the rotation of tokens. The double checks
-- of the cache, which guard against a race, are one check here: see Session/Rotation for the races.
use protonmail_mcp.Common.{
  String, true, false, Option, none, some, List, [], ◌∷◌, ◌&&◌, ◌==◌, not, is_some, lookup,
  if◌then◌else◌,
}
use protonmail_mcp.Proterr.Chain.{
  keychain_not_found, no_session, session_inconsistent, GoError, sentinel, mapped, wrap, errors_is,
  Result, ok, err,
}
use protonmail_mcp.Proterr.Text.{error_text}
use protonmail_mcp.Proterr.Mapping.{err_to_mcp, refresh_rejected, scope_denied}
use protonmail_mcp.Exec.{Exec, pure, raise, attempt, with_error, context, ◌>>=◌, ◌>>◌}
use protonmail_mcp.Keychain.{Session}
use protonmail_mcp.Keyring.{Keyrings, unlock}
use protonmail_mcp.Calendar.{resolve_keyring}
use protonmail_mcp.Session.State.{Auth, Backend, RawClient, set_auth, has_bearer, State, on_world}
use protonmail_mcp.Session.Login.{effect, change, session_of_auth}
use protonmail_mcp.Session.Relogin.{Relogin, healed, challenged, declined, relogin_locked}

module _ (b : Backend) where
  open b use {World, Client, KeyRing, store, codes, pgp}

  -- The outcome of `SaveSession` is what `Status` reports.
  abbrev pub saved_flag : Result (Unit {0}) → State b → State b
  saved_flag (ok _) st = record st { persist_degraded = false; persist_err_reason = "" }
  saved_flag (err e) st = record st { persist_degraded = true; persist_err_reason = error_text e }

  abbrev pub persist : Session → Exec (State b) (Unit {0})
  persist s = do saved ← attempt (on_world b (store.save_session s)); change b (saved_flag saved)

  -- The tokens to keep after a refresh: those loaded if it was a no-op, and the loaded scope if it
  -- named none.
  unfoldable pub rotated : Session → Auth → Session
  rotated sess a =
      if a.access_token == ""
      then sess
      else if a.scope == ""
      then record sess {
        uid = a.uid;
        access_token = a.access_token;
        refresh_token = a.refresh_token;
      }
      else session_of_auth a

  abbrev pub adopt : Client → Session → State b → State b
  adopt c s st = record st { client = some c; current = s; raw = set_auth s.access_token s.uid }

  abbrev pub refresh_error : GoError → GoError
  refresh_error e =
      if (err_to_mcp codes e).code == "proton/auth_required"
      then mapped (err_to_mcp codes e)
      else wrap "refresh session: " e ""

  abbrev pub exhausted : State b → State b
  exhausted st = record st { relogin_exhausted = true }

  abbrev pub after_relogin : GoError → Relogin Client × State b → Result Client × State b
  after_relogin e (healed c, st) = (ok c, st)
  after_relogin e (challenged x, st) = (err (mapped x), exhausted st)
  after_relogin e (declined, st) = (err (refresh_error e), exhausted st)

  unfoldable pub refresh_failed : GoError → Exec (State b) Client
  refresh_failed e st =
      if refresh_rejected codes e && not st.relogin_exhausted
      then after_relogin e (relogin_locked b st)
      else (err (refresh_error e), st)

  abbrev pub from_refresh : Session → Result (Client × Auth) → Exec (State b) Client
  from_refresh sess (err e) = refresh_failed e
  from_refresh sess (ok (c, a)) = do
    effect b (b.add_auth_handler c)
    change b (adopt c (rotated sess a))
    persist (rotated sess a)
    pure c

  abbrev pub load_error : GoError → GoError
  load_error e =
      if errors_is e keychain_not_found
      then wrap "" (sentinel no_session) " — run `protonmail-mcp login`"
      else wrap "load session from credential store: " e ""

  unfoldable pub cold_start : Exec (State b) Client
  cold_start = do
    sess ← with_error load_error (on_world b store.load_session)
    refreshed ← attempt (on_world b (b.new_client_with_refresh sess.uid sess.refresh_token))
    from_refresh sess refreshed

  abbrev pub from_cache : Option Client → Exec (State b) Client
  from_cache (some c) st = (ok c, st)
  from_cache none st =
      if st.poisoned then (err (sentinel session_inconsistent), st) else cold_start st

  -- `Client`
  unfoldable pub client : Exec (State b) Client
  client st = from_cache st.client st

  -- `Raw`: the raw client that the session then has
  unfoldable pub raw : State b → RawClient × State b
  raw st =
      let st' = if not (is_some st.client) && not (has_bearer st.raw) then (client st).1 else st in
      (st'.raw, st')

  -- The first critical section of `OnAuthRotated`, and the tokens that it goes on with.
  unfoldable pub rotate_memory : Session → State b → Session × State b
  rotate_memory next st =
      let kept : Session =
        if next.scope == "" then record next { scope = st.current.scope } else next in
      (kept, record st { current = kept; raw = set_auth kept.access_token kept.uid })

  -- `OnAuthRotated`, run with nothing in between
  unfoldable pub on_auth_rotated : Session → State b → State b
  unfolding rotate_memory
  on_auth_rotated next st = let (kept, st') = rotate_memory next st in (persist kept st').1

  unfoldable pub rotate_all : List Session → State b → State b
  unfolding on_auth_rotated
  rotate_all [] st = st
  rotate_all (next ∷ rest) st = rotate_all rest (on_auth_rotated next st)

  -- Calls of the session's client, with what its auth handler does in them: it runs as they end,
  -- since none of the calls reads the session or the store.
  abbrev pub calling : {A : Type 0} → Exec World A → Exec (State b) A
  calling m st =
      let (r, w) = m st.world in
      let (rotated_to, w') = b.rotations w in (r, rotate_all rotated_to (record st { world = w' }))

  unfoldable pub unlock_once : Exec (State b) (Keyrings KeyRing)
  unlock_once = do
    c ← client
    creds ← context "load creds for keyring unlock: " (on_world b store.load_creds)
    context "unlock keyrings: " (
        calling (
          unlock pgp (b.fetcher c)
            (if creds.mailbox_password == "" then creds.password else creds.mailbox_password)))

  abbrev pub store_keyrings : Keyrings KeyRing → Exec (State b) (Unit {0})
  store_keyrings k = change b (λ st. record st { keyrings = some k })

  abbrev pub hold_latch : GoError → Exec (State b) (Keyrings KeyRing)
  hold_latch e st = (err e, record st { scope_relogin_exhausted = true })

  abbrev pub after_retry : Result (Keyrings KeyRing) → Exec (State b) (Keyrings KeyRing)
  after_retry (ok k) = do store_keyrings k; pure k
  after_retry (err e) = if scope_denied e then hold_latch e else raise e

  abbrev pub after_heal : GoError → Relogin Client × State b → Result (Keyrings KeyRing) × State b
  after_heal e (healed _, st) = (do retried ← attempt unlock_once; after_retry retried) st
  after_heal e (challenged x, st) = hold_latch (mapped x) st
  after_heal e (declined, st) = hold_latch e st

  -- `healScopeDenial`, with the relogin of `reloginForScope`
  unfoldable pub heal_scope_denial : GoError → Exec (State b) (Keyrings KeyRing)
  heal_scope_denial e st = after_heal e (relogin_locked b st)

  abbrev pub after_unlock : Result (Keyrings KeyRing) → Exec (State b) (Keyrings KeyRing)
  after_unlock (ok k) st = (do store_keyrings k; pure k) st
  after_unlock (err e) st =
      if scope_denied e && not st.scope_relogin_exhausted
      then heal_scope_denial e st
      else (err e, st)

  abbrev pub from_keyrings : Option (Keyrings KeyRing) → Exec (State b) (Keyrings KeyRing)
  from_keyrings (some k) = pure k
  from_keyrings none = do unlocked ← attempt unlock_once; after_unlock unlocked

  -- `Keyrings`
  unfoldable pub unlocked_keyrings : Exec (State b) (Keyrings KeyRing)
  unlocked_keyrings st = from_keyrings st.keyrings st

  abbrev pub from_calendar : String → Option KeyRing → Exec (State b) KeyRing
  from_calendar id (some kr) = pure kr
  from_calendar id none = do
    krs ← unlocked_keyrings
    c ← client
    kr ←
        context "resolve calendar keyring: "
          (calling (resolve_keyring b.calendars (b.resolver c) krs id))
    change b (λ st. record st { cal_keyrings = (id, kr) ∷ st.cal_keyrings })
    pure kr

  -- `CalendarKeyring`
  unfoldable pub calendar_keyring : String → Exec (State b) KeyRing
  calendar_keyring id st = from_calendar id (lookup id st.cal_keyrings) st
