-- ===== src/Store.antt =====
-- The persistence surface of a session (the interface `Store` of internal/session/session.go), and
-- what a session may expect of it. Both backends fill the two records.
use protonmail_mcp.Common.{◌≡◌, ◌≢◌, Option, none, some}
use protonmail_mcp.Proterr.Chain.{GoError, keychain_not_found, errors_is, ok, err}
use protonmail_mcp.Exec.{Exec}
use protonmail_mcp.Keychain.{Creds, Session}
use mathlib.Core.Bool.{true}

pub record Store (W : Type 0) : Type 0 where
  pub save_creds : Creds → Exec W (Unit {0})
  pub load_creds : Exec W Creds
  pub save_session : Session → Exec W (Unit {0})
  pub load_session : Exec W Session
  pub clear : Exec W (Unit {0})

-- The abstract contents of a store are an optional bundle of each kind. A bundle counts as stored
-- when its primary field (the user name, the session's UID) is not empty.
pub record StoreLaws {W : Type 0} (store : Store W) : Type 0 where
  pub creds_of : W → Option Creds
  pub session_of : W → Option Session
  pub creds_saved :
      (c : Creds) (w : W)
      → c.username ≢ ""
      → (store.save_creds c w).0 ≡ ok tt
      → creds_of (store.save_creds c w).1 ≡ some c
  pub creds_saved_apart :
      (c : Creds) (w : W)
      → (store.save_creds c w).0 ≡ ok tt
      → session_of (store.save_creds c w).1 ≡ session_of w
  pub session_saved :
      (s : Session) (w : W)
      → s.uid ≢ ""
      → (store.save_session s w).0 ≡ ok tt
      → session_of (store.save_session s w).1 ≡ some s
  pub session_saved_apart :
      (s : Session) (w : W)
      → (store.save_session s w).0 ≡ ok tt
      → creds_of (store.save_session s w).1 ≡ creds_of w
  pub creds_loaded : (c : Creds) (w : W) → (store.load_creds w).0 ≡ ok c → creds_of w ≡ some c
  pub session_loaded :
      (s : Session) (w : W) → (store.load_session w).0 ≡ ok s → session_of w ≡ some s
  pub creds_missing :
      (e : GoError) (w : W)
      → (store.load_creds w).0 ≡ err e
      → errors_is e keychain_not_found ≡ true
      → creds_of w ≡ none
  pub session_missing :
      (e : GoError) (w : W)
      → (store.load_session w).0 ≡ err e
      → errors_is e keychain_not_found ≡ true
      → session_of w ≡ none
  pub cleared :
      (w : W)
      → (store.clear w).0 ≡ ok tt
      → (creds_of (store.clear w).1 ≡ none) × (session_of (store.clear w).1 ≡ none)
