-- ===== src/Session/Coherence.antt =====
-- The raw client always carries the tokens of the current session.
pub mod Access
use protonmail_mcp.Common.{◌≡◌, refl, Bool, true, false, String, Option, none, some, arith}
use protonmail_mcp.Proterr.Chain.{GoError, Result, ok, err}
use protonmail_mcp.Exec.{Exec, ◌>>=◌, ◌>>◌}
use protonmail_mcp.Exec.Rules.{Preserves, preserving}
use protonmail_mcp.Keychain.{Creds, Session}
use protonmail_mcp.Session.State.{Auth, Backend, set_auth, State, on_world, new}
use protonmail_mcp.Session.Login.{
  LoginInput, change, effect, closing, after_clear, rollback_login_persist, or_rollback,
  persist_login_state, clear_keyring_cache, adopt_login, finish_login, login_locked,
}
use protonmail_mcp.Session.Relogin.{
  Relogin, healed, challenged, declined, close_client, logged_out, reset_flags, logout_of, logout,
  after_login, input_of, with_creds, relogin_locked,
}
use protonmail_mcp.Session.Access.{
  saved_flag, persist, adopt, after_relogin, from_refresh, from_cache, rotate_memory,
  refresh_failed, cold_start, client, raw, on_auth_rotated, unlock_once, heal_scope_denial,
  unlocked_keyrings, calendar_keyring,
}
use protonmail_mcp.Session.Rules.{
  IsWorldFree, Preserves-on_world, Preserves-closing, steps, Preserves-two_factor,
}

-- A state whose raw client was given the tokens of its current session.
pub record IsCoherent {b : Backend} (st : State b) : Type 0 where
  pub carried : st.raw ≡ set_auth st.current.access_token st.current.uid

module _ (b : Backend) where
  abbrev pub P : State b → Type 0
  P = IsCoherent

  pub free : IsWorldFree b P
  free = record { at = λ st w h. record { carried = h.carried } }

  after_clear-keeps :
      (op : String) (cause : GoError) (r : Result (Unit {0}))
      → Preserves P (after_clear b op cause r)
  unfolding after_clear
  after_clear-keeps op cause (ok _) = search steps
  after_clear-keeps op cause (err e) = record { at = λ st h. record { carried = h.carried } }

  rollback-keeps : (op : String) (cause : GoError) → Preserves P (rollback_login_persist b op cause)
  unfolding rollback_login_persist
  rollback-keeps op cause = search (steps, after_clear-keeps, free) depth 7

  or_rollback-keeps : (op : String) (r : Result (Unit {0})) → Preserves P (or_rollback b op r)
  unfolding or_rollback
  or_rollback-keeps op (ok _) = search steps
  or_rollback-keeps op (err e) = rollback-keeps op e

  persisted-keeps :
      Preserves P (change b (λ st. record st { persist_degraded = false; persist_err_reason = "" }))
  persisted-keeps = record { at = λ st h. record { carried = h.carried } }

  adopt_login-keeps : (c : b.Client) (s : Session) → Preserves P (change b (adopt_login b c s))
  unfolding adopt_login clear_keyring_cache
  adopt_login-keeps c s = record { at = λ st h. record { carried = refl } }

  persist_login-keeps : (c : Creds) (s : Session) → Preserves P (persist_login_state b c s)
  unfolding persist_login_state
  persist_login-keeps c s = search (steps, free, or_rollback-keeps, persisted-keeps) depth 9

  finish_login-keeps :
      (input : LoginInput) (second : b.Client × Auth) → Preserves P (finish_login b input second)
  unfolding finish_login
  finish_login-keeps input (c, auth) =
      search (steps, free, Preserves-closing, persist_login-keeps, adopt_login-keeps) depth 9

  pub login_locked-keeps : (input : LoginInput) → Preserves P (login_locked b input)
  unfolding login_locked
  login_locked-keeps input = search (steps, free, Preserves-two_factor, finish_login-keeps) depth 9

  after_login-keeps :
      (p : Result (Unit {0}) × State b) → IsCoherent p.1 → IsCoherent (after_login b p).1
  after_login-keeps (ok _, st) h = h
  after_login-keeps (err e, st) h = h

  with_creds-keeps : (p : Result Creds × State b) → IsCoherent p.1 → IsCoherent (with_creds b p).1
  with_creds-keeps (err _, st) h = h
  with_creds-keeps (ok c, st) h = ground (
    arith,
    after_login-keeps (login_locked b (input_of b c) st)
        ((login_locked-keeps (input_of b c)).at st h),
  )

  pub relogin_locked-keeps : (st : State b) → IsCoherent st → IsCoherent (relogin_locked b st).1
  unfolding relogin_locked
  relogin_locked-keeps st h =
      with_creds-keeps (on_world b b.store.load_creds st)
        ((Preserves-on_world free b.store.load_creds).at st h)

  close_client-keeps : (o : Option b.Client) → Preserves P (close_client b o)
  close_client-keeps none = search steps
  close_client-keeps (some c) = search (steps, free)

  logged_out-keeps : Preserves P (change b (logged_out b))
  logged_out-keeps = record { at = λ st h. record { carried = refl } }

  cleared-keeps : Preserves P (change b (clear_keyring_cache b))
  unfolding clear_keyring_cache
  cleared-keeps = record { at = λ st h. record { carried = h.carried } }

  reset-keeps : Preserves P (change b (reset_flags b))
  reset-keeps = record { at = λ st h. record { carried = h.carried } }

  pub logout-keeps : (st : State b) → IsCoherent st → IsCoherent (logout b st).1
  unfolding logout
  logout-keeps st h = (logout_steps st.client).at st h
    where
      logout_steps : (o : Option b.Client) → Preserves P (logout_of b o)
      logout_steps o =
          search (steps, free, close_client-keeps, logged_out-keeps, cleared-keeps, reset-keeps)
            depth 9
