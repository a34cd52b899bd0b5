-- ===== src/Session/Attempts/Bound.antt =====
-- However often a client is asked for, at most one password login is attempted.
use protonmail_mcp.Common.{
  ℕ, ◌+◌, ◌≤◌, String, true, Option, none, some, ◌≡◌, refl, ap, ◌∙◌, arith, ◌||◌, ◌&&◌, ◌==◌, not,
  if_elim, is_some,
}
use protonmail_mcp.Proterr.Chain.{GoError, Result, ok, err}
use protonmail_mcp.Proterr.Mapping.{refresh_rejected, err_to_mcp}
use protonmail_mcp.Keychain.{Creds, Session}
use protonmail_mcp.Session.State.{Auth, Backend, State, on_world}
use protonmail_mcp.Session.Login.{change, login_locked}
use protonmail_mcp.Session.Relogin.{
  Relogin, relogin_error, healed, challenged, declined, client_or_declined, after_login, input_of,
  with_creds, relogin_locked,
}
use protonmail_mcp.Session.Access.{
  saved_flag, adopt, after_relogin, from_refresh, refresh_failed, cold_start,
}
use protonmail_mcp.Session.Attempts.{
  Meter, StandsAt, login_locked-count, handler-keeps, save_session-keeps,
}
use protonmail_mcp.Exec.Rules.{Preserves, Leads, Leads-bind, preserving}

module _ (b : Backend) (m : Meter b) where
  -- From a reading of `k`: no attempt yet, or one after which there is a client or the latch holds.
  pub data IsBounded (k : ℕ) (st : State b) : Type 0 where
    fresh : m.count st.world ≡ k → IsBounded k st
    served : m.count st.world ≤ k + 1 → is_some st.client ≡ true → IsBounded k st
    latched : m.count st.world ≤ k + 1 → st.relogin_exhausted ≡ true → IsBounded k st

  after_login-count : (p : Result (Unit {0}) × State b) → (after_login b p).1 ≡ p.1
  after_login-count (ok _, st) = refl
  after_login-count (err e, st) = refl

  with_creds-count :
      (p : Result Creds × State b) → m.count (with_creds b p).1.world ≤ m.count p.1.world + 1
  with_creds-count (err _, st) = omega arith
  with_creds-count (ok c, st) = ground (
    arith,
    after_login-count (login_locked b (input_of b c) st),
    login_locked-count b m (input_of b c) st,
  )

  relogin_locked-count :
      (st : State b) → m.count (relogin_locked b st).1.world ≤ m.count st.world + 1
  unfolding relogin_locked
  relogin_locked-count st =
      omega (arith, with_creds-count (on_world b b.store.load_creds st), m.on_load_creds st.world)

  -- A relogin that hands out a client has made it the session's.
  abbrev IsServed : Relogin b.Client × State b → Type 0
  IsServed (healed c, st) = is_some st.client ≡ true
  IsServed (_, st) = Unit

  relogin_error-IsServed : (e : GoError) (st : State b) → IsServed (relogin_error b e, st)
  relogin_error-IsServed e st =
      if_elim (λ (r : Relogin b.Client). IsServed (r, st))
        ((err_to_mcp b.codes e).code == "proton/captcha") {x = challenged (err_to_mcp b.codes e)}
        {y = declined} tt tt

  cached-IsServed :
      (o : Option b.Client) (st : State b) → st.client ≡ o → IsServed (client_or_declined b o, st)
  cached-IsServed none st same = tt
  cached-IsServed (some c) st same = ap is_some same

  after_login-IsServed : (p : Result (Unit {0}) × State b) → IsServed (after_login b p)
  after_login-IsServed (ok _, st) = cached-IsServed st.client st refl
  after_login-IsServed (err e, st) = relogin_error-IsServed e st

  with_creds-IsServed : (p : Result Creds × State b) → IsServed (with_creds b p)
  with_creds-IsServed (err _, st) = tt
  with_creds-IsServed (ok c, st) =
      if_elim IsServed (c.username == "" || c.password == "") {x = (declined, st)} tt
        (after_login-IsServed (login_locked b (input_of b c) st))

  module _ (k : ℕ) where
    after_relogin-IsBounded :
        (e : GoError) (p : Relogin b.Client × State b)
        → m.count p.1.world ≤ k + 1
        → IsServed p
        → IsBounded k (after_relogin b e p).1
    after_relogin-IsBounded e (healed c, st) h s = served h s
    after_relogin-IsBounded e (challenged x, st) h s = latched h refl
    after_relogin-IsBounded e (declined, st) h s = latched h refl

    refresh_failed-IsBounded :
        (e : GoError) → Leads (StandsAt b m k) (refresh_failed b e) (IsBounded k)
    unfolding refresh_failed relogin_locked
    refresh_failed-IsBounded e = record {
      at = λ st h.
          if_elim (λ (p : Result b.Client × State b). IsBounded k p.1)
            (refresh_rejected b.codes e && not st.relogin_exhausted)
            (after_relogin-IsBounded e (relogin_locked b st)
              (omega (arith, relogin_locked-count st, h.reading))
              (with_creds-IsServed (on_world b b.store.load_creds st)))
            (fresh h.reading);
    }

    pub refresh-keeps :
        (u r : String) → Preserves (StandsAt b m k) (on_world b (b.new_client_with_refresh u r))
    refresh-keeps u r = record {
      at = λ st h. record { reading = m.on_refresh u r st.world ∙ h.reading };
    }

    pub load_session-keeps : Preserves (StandsAt b m k) (on_world b b.store.load_session)
    load_session-keeps = record {
      at = λ st h. record { reading = m.on_load_session st.world ∙ h.reading };
    }

    pub saved-keeps :
        (r : Result (Unit {0})) → Preserves (StandsAt b m k) (change b (saved_flag b r))
    saved-keeps (ok _) = record { at = λ st h. record { reading = h.reading } }
    saved-keeps (err e) = record { at = λ st h. record { reading = h.reading } }

    adopt-keeps : (c : b.Client) (s : Session) → Preserves (StandsAt b m k) (change b (adopt b c s))
    adopt-keeps c s = record { at = λ st h. record { reading = h.reading } }

    pub refreshed-keeps :
        (sess : Session) (c : b.Client) (a : Auth)
        → Preserves (StandsAt b m k) (from_refresh b sess (ok (c, a)))
    refreshed-keeps sess c a =
        search (preserving, adopt-keeps, handler-keeps b m k, save_session-keeps b m k, saved-keeps)
          depth 9

    from_refresh-IsBounded :
        (sess : Session) (r : Result (b.Client × Auth))
        → Leads (StandsAt b m k) (from_refresh b sess r) (IsBounded k)
    from_refresh-IsBounded sess (err e) = refresh_failed-IsBounded e
    from_refresh-IsBounded sess (ok (c, a)) = record {
      at = λ st h. fresh ((refreshed-keeps sess c a).at st h).reading;
    }

    weaken : (st : State b) → StandsAt b m k st → IsBounded k st
    weaken st h = fresh h.reading

    pub cold_start-IsBounded : Leads (StandsAt b m k) (cold_start b) (IsBounded k)
    unfolding cold_start
    cold_start-IsBounded =
        search
          (
            Leads-bind, weaken, preserving, load_session-keeps, refresh-keeps,
            from_refresh-IsBounded,
          )
          depth 9
