-- ===== src/Session/Atomicity.antt =====
-- A login that fails changes nothing in memory but the mark that the store is inconsistent.
use protonmail_mcp.Common.{◌≡◌, ◌≢◌, refl, true, String}
use protonmail_mcp.Proterr.Chain.{GoError, Result, ok, err}
use protonmail_mcp.Exec.Rules.{Preserves, FailsSafe, FailsSafe-bind, FailsSafe-last}
use protonmail_mcp.Keychain.{Creds, Session}
use protonmail_mcp.Session.State.{Auth, Backend, State}
use protonmail_mcp.Session.Login.{
  LoginInput, change, after_clear, rollback_login_persist, or_rollback, persist_login_state,
  finish_login, login_locked,
}
use protonmail_mcp.Session.Rules.{
  IsWorldFree, Preserves-closing, FailsSafe-closing, steps, Preserves-two_factor,
}

module _ (b : Backend) (start : State b) where
  -- Everything in memory is as in `start`, except that `poisoned` may have been raised.
  pub record IsUntouched (st : State b) : Type 0 where
    pub client : st.client ≡ start.client
    pub raw : st.raw ≡ start.raw
    pub current : st.current ≡ start.current
    pub keyrings : st.keyrings ≡ start.keyrings
    pub cal_keyrings : st.cal_keyrings ≡ start.cal_keyrings
    pub persist_degraded : st.persist_degraded ≡ start.persist_degraded
    pub persist_err_reason : st.persist_err_reason ≡ start.persist_err_reason
    pub relogin_exhausted : st.relogin_exhausted ≡ start.relogin_exhausted
    pub scope_relogin_exhausted : st.scope_relogin_exhausted ≡ start.scope_relogin_exhausted
    pub poisoned : start.poisoned ≡ true → st.poisoned ≡ true

  IsUntouched-free : IsWorldFree b IsUntouched
  IsUntouched-free = record {
    at = λ st w h. record {
      client = h.client;
      raw = h.raw;
      current = h.current;
      keyrings = h.keyrings;
      cal_keyrings = h.cal_keyrings;
      persist_degraded = h.persist_degraded;
      persist_err_reason = h.persist_err_reason;
      relogin_exhausted = h.relogin_exhausted;
      scope_relogin_exhausted = h.scope_relogin_exhausted;
      poisoned = h.poisoned;
    };
  }

  after_clear-IsUntouched :
      (op : String) (cause : GoError) (r : Result (Unit {0}))
      → Preserves IsUntouched (after_clear b op cause r)
  unfolding after_clear
  after_clear-IsUntouched op cause (ok _) = search steps
  after_clear-IsUntouched op cause (err e) = record {
    at = λ st h. record {
      client = h.client;
      raw = h.raw;
      current = h.current;
      keyrings = h.keyrings;
      cal_keyrings = h.cal_keyrings;
      persist_degraded = h.persist_degraded;
      persist_err_reason = h.persist_err_reason;
      relogin_exhausted = h.relogin_exhausted;
      scope_relogin_exhausted = h.scope_relogin_exhausted;
      poisoned = λ _. refl;
    };
  }

  rollback-IsUntouched :
      (op : String) (cause : GoError) → Preserves IsUntouched (rollback_login_persist b op cause)
  unfolding rollback_login_persist
  rollback-IsUntouched op cause = search (steps, after_clear-IsUntouched, IsUntouched-free) depth 7

  or_rollback-IsUntouched :
      (op : String) (r : Result (Unit {0})) → Preserves IsUntouched (or_rollback b op r)
  unfolding or_rollback
  or_rollback-IsUntouched op (ok _) = search steps
  or_rollback-IsUntouched op (err e) = rollback-IsUntouched op e

  change-FailsSafe : (f : State b → State b) → FailsSafe IsUntouched (change b f)
  change-FailsSafe f = record { at = λ st h e q. cc }

  change_total :
      {A : Type 0} (f : State b → State b) (a : A) (st : State b) (e : GoError)
      → (change b f st).0 ≢ err e
  change_total f a st e = cc

  ruleset safe = (
    steps, IsUntouched-free, Preserves-closing, or_rollback-IsUntouched, Preserves-two_factor,
    FailsSafe-bind, change-FailsSafe,
  )

  persist-FailsSafe :
      (creds : Creds) (s : Session) → FailsSafe IsUntouched (persist_login_state b creds s)
  unfolding persist_login_state
  persist-FailsSafe creds s = search safe depth 9

  finish_login-FailsSafe :
      (input : LoginInput) (second : b.Client × Auth)
      → FailsSafe IsUntouched (finish_login b input second)
  unfolding finish_login
  finish_login-FailsSafe input (c, auth) =
      search (safe, FailsSafe-closing, FailsSafe-last, change_total, persist-FailsSafe) depth 9

  login_locked-FailsSafe : (input : LoginInput) → FailsSafe IsUntouched (login_locked b input)
  unfolding login_locked
  login_locked-FailsSafe input = search (safe, finish_login-FailsSafe) depth 9

-- A login that returns an error, whatever the step that failed, leaves the client, the raw client,
-- the tokens, the cached keyrings, the persistence report and both relogin latches as they were,
-- and never clears the mark that the store is inconsistent.
pub login_locked-IsUntouched :
    (b : Backend) (input : LoginInput) (st : State b) (e : GoError)
    → (login_locked b input st).0 ≡ err e
    → IsUntouched b st (login_locked b input st).1
login_locked-IsUntouched b input st e h =
    (login_locked-FailsSafe b st input).at st
      (record {
        client = refl;
        raw = refl;
        current = refl;
        keyrings = refl;
        cal_keyrings = refl;
        persist_degraded = refl;
        persist_err_reason = refl;
        relogin_exhausted = refl;
        scope_relogin_exhausted = refl;
        poisoned = λ p. p;
      })
      e h
