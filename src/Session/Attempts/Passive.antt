-- ===== src/Session/Attempts/Passive.antt =====
-- Any sequence of requests and token rotations, without a login, a logout or a keyring request,
-- attempts at most one password login: the one of the relogin latch.
use protonmail_mcp.Common.{
  ℕ, ◌+◌, ◌≤◌, Bool, true, false, Option, none, some, List, [], ◌∷◌, ◌≡◌, refl, ap, ◌∙◌, arith,
  subst, sym, ◌&&◌, not, is_some, if_elim, all,
}
use protonmail_mcp.Proterr.Chain.{Result, ok, err, sentinel, session_inconsistent}
use protonmail_mcp.Keychain.{Session}
use protonmail_mcp.Exec.Rules.{Preserves, preserving}
use protonmail_mcp.Session.State.{Backend, State, has_bearer, on_world}
use protonmail_mcp.Session.Login.{change}
use protonmail_mcp.Session.Access.{
  saved_flag, persist, from_cache, client, raw, rotate_memory, on_auth_rotated,
}
use protonmail_mcp.Session.Calls.{
  Call, login, log_out, get_keyrings, get_calendar, rotate, get_client, get_raw, run_call,
  run_calls,
}
use protonmail_mcp.Session.Attempts.{Meter}
use protonmail_mcp.Session.Attempts.Bound.{IsBounded, fresh, served, latched, cold_start-IsBounded}
use protonmail_mcp.Session.Attempts.Latch.{client-IsHeld}

-- Neither a login nor a logout, and nothing that unlocks keyrings.
unfoldable pub is_passive : Call → Bool
is_passive (login _) = false
is_passive log_out = false
is_passive get_client = true
is_passive get_raw = true
is_passive get_keyrings = false
is_passive (rotate _) = true
is_passive (get_calendar _) = false

module _ (b : Backend) (m : Meter b) (k : ℕ) where
  from_cache-IsBounded :
      (o : Option b.Client) (st : State b)
      → m.count st.world ≡ k
      → IsBounded b m k (from_cache b o st).1
  from_cache-IsBounded (some c) st h = fresh h
  from_cache-IsBounded none st h =
      if_elim (λ (p : Result b.Client × State b). IsBounded b m k p.1) st.poisoned
        {x = (err (sentinel session_inconsistent), st)} (fresh h)
        ((cold_start-IsBounded b m k).at st (record { reading = h }))

  served-client :
      (o : Option b.Client) (st : State b)
      → is_some o ≡ true
      → IsBounded b m k st
      → IsBounded b m k (from_cache b o st).1
  served-client none st s h = cc
  served-client (some c) st s h = h

  client-IsBounded : (st : State b) → IsBounded b m k st → IsBounded b m k (client b st).1
  unfolding client
  client-IsBounded st (fresh h) = from_cache-IsBounded st.client st h
  client-IsBounded st (served h s) = served-client st.client st s (served h s)
  client-IsBounded st (latched h l) =
      let held = client-IsHeld b m (m.count st.world) st (record { reading = refl; latch = l }) in
      latched (subst (λ n. n ≤ k + 1) (sym held.reading) h) held.latch

  raw-IsBounded : (st : State b) → IsBounded b m k st → IsBounded b m k (raw b st).1
  unfolding raw
  raw-IsBounded st h =
      if_elim (IsBounded b m k) (not (is_some st.client) && not (has_bearer st.raw))
        (client-IsBounded st h) h

  -- What persisting new tokens leaves alone.
  record IsSame (start st : State b) : Type 0 where
    pub reading : m.count st.world ≡ m.count start.world
    pub client : st.client ≡ start.client
    pub latch : st.relogin_exhausted ≡ start.relogin_exhausted

  IsBounded-same :
      (start st : State b) → IsSame start st → IsBounded b m k start → IsBounded b m k st
  IsBounded-same start st same (fresh h) = fresh (same.reading ∙ h)
  IsBounded-same start st same (served h s) =
      served (subst (λ n. n ≤ k + 1) (sym same.reading) h) (ap is_some same.client ∙ s)
  IsBounded-same start st same (latched h l) =
      latched (subst (λ n. n ≤ k + 1) (sym same.reading) h) (same.latch ∙ l)

  save-IsSame :
      (start : State b) (s : Session)
      → Preserves (IsSame start) (on_world b (b.store.save_session s))
  save-IsSame start s = record {
    at = λ st h. record {
      reading = m.on_save_session s st.world ∙ h.reading;
      client = h.client;
      latch = h.latch;
    };
  }

  saved-IsSame :
      (start : State b) (r : Result (Unit {0}))
      → Preserves (IsSame start) (change b (saved_flag b r))
  saved-IsSame start (ok _) = record {
    at = λ st h. record { reading = h.reading; client = h.client; latch = h.latch };
  }
  saved-IsSame start (err e) = record {
    at = λ st h. record { reading = h.reading; client = h.client; latch = h.latch };
  }

  persist-IsSame : (start : State b) (s : Session) → Preserves (IsSame start) (persist b s)
  persist-IsSame start s = search (preserving, save-IsSame, saved-IsSame) depth 7

  rotate-IsSame : (next : Session) (st : State b) → IsSame st (on_auth_rotated b next st)
  unfolding on_auth_rotated rotate_memory
  rotate-IsSame next st =
      (persist-IsSame st (rotate_memory b next st).0).at (rotate_memory b next st).1
        (record { reading = refl; client = refl; latch = refl })

  run_call-IsBounded :
      (c : Call) (st : State b)
      → is_passive c ≡ true
      → IsBounded b m k st
      → IsBounded b m k (run_call b c st)
  unfolding run_call is_passive
  run_call-IsBounded (login _) st p h = cc
  run_call-IsBounded log_out st p h = cc
  run_call-IsBounded get_keyrings st p h = cc
  run_call-IsBounded (get_calendar _) st p h = cc
  run_call-IsBounded get_client st p h = client-IsBounded st h
  run_call-IsBounded get_raw st p h = raw-IsBounded st h
  run_call-IsBounded (rotate next) st p h =
      IsBounded-same st (on_auth_rotated b next st) (rotate-IsSame next st) h

  run_calls-IsBounded :
      (calls : List Call) (st : State b)
      → all is_passive calls ≡ true
      → IsBounded b m k st
      → IsBounded b m k (run_calls b calls st)
  unfolding run_calls
  run_calls-IsBounded [] st p h = h
  run_calls-IsBounded (c ∷ calls) st p h =
      run_calls-IsBounded calls (run_call b c st) (ground (arith, p))
        (run_call-IsBounded c st (ground (arith, p)) h)

  within : (st : State b) → IsBounded b m k st → m.count st.world ≤ k + 1
  within st (fresh h) = omega (arith, h)
  within st (served h s) = h
  within st (latched h l) = h

-- Over any sequence of requests for the client or the raw client and of token rotations, however
-- the store and the server answer, at most one password login is attempted, as counted by a
-- meter that only `NewClientWithLogin` moves.
pub run_calls-attempts :
    (b : Backend) (m : Meter b) (calls : List Call) (st : State b)
    → all is_passive calls ≡ true
    → m.count (run_calls b calls st).world ≤ m.count st.world + 1
run_calls-attempts b m calls st p =
    within b m (m.count st.world) (run_calls b calls st)
      (run_calls-IsBounded b m (m.count st.world) calls st p (fresh refl))
