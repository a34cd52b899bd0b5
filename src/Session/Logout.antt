-- ===== src/Session/Logout.antt =====
-- What `Logout` leaves, whether or not the store could be cleared.
use protonmail_mcp.Common.{false, Option, none, some, [], ◌≡◌, refl}
use protonmail_mcp.Proterr.Chain.{Result, ok, err}
use protonmail_mcp.Exec.{continue}
use protonmail_mcp.Store.{StoreLaws}
use protonmail_mcp.Session.State.{Backend, State, on_world, set_auth, empty_session, new_raw_client}
use protonmail_mcp.Session.Login.{change, clear_keyring_cache}
use protonmail_mcp.Session.Relogin.{close_client, logged_out, reset_flags, logout_of, logout}

module _ (b : Backend) where
  -- Nothing in memory can reach the account.
  pub record IsSignedOut (st : State b) : Type 0 where
    pub client : st.client ≡ none
    pub raw : st.raw ≡ new_raw_client
    pub current : st.current ≡ empty_session
    pub keyrings : st.keyrings ≡ none
    pub cal_keyrings : st.cal_keyrings ≡ []

  pub record IsReset (laws : StoreLaws b.store) (st : State b) : Type 0 where
    pub poisoned : st.poisoned ≡ false
    pub degraded : st.persist_degraded ≡ false
    pub latch : st.relogin_exhausted ≡ false
    pub scope_latch : st.scope_relogin_exhausted ≡ false
    pub creds : laws.creds_of st.world ≡ none
    pub session : laws.session_of st.world ≡ none

  -- Where the store is cleared.
  before_clear : State b → State b
  before_clear st = clear_keyring_cache b (logged_out b (close_client b st.client st).1)

  cleared : Result (Unit {0}) × State b → Result (Unit {0}) × State b
  cleared = continue (λ _. change b (reset_flags b))

  logout_of-eq :
      (o : Option b.Client) (st : State b)
      → logout_of b o st
        ≡ cleared (
            on_world b b.store.clear (clear_keyring_cache b (logged_out b (close_client b o st).1)))
  unfolding cleared
  logout_of-eq none st = refl
  logout_of-eq (some c) st = refl

  cleared-IsSignedOut :
      (p : Result (Unit {0}) × State b) → IsSignedOut p.1 → IsSignedOut (cleared p).1
  unfolding cleared
  cleared-IsSignedOut (ok _, st) h = record {
    client = h.client;
    raw = h.raw;
    current = h.current;
    keyrings = h.keyrings;
    cal_keyrings = h.cal_keyrings;
  }
  cleared-IsSignedOut (err e, st) h = h

  cleared-IsReset :
      (laws : StoreLaws b.store) (r : Result (Unit {0})) (st : State b)
      → (r ≡ ok tt → (laws.creds_of st.world ≡ none) × (laws.session_of st.world ≡ none))
      → (cleared (r, st)).0 ≡ ok tt
      → IsReset laws (cleared (r, st)).1
  unfolding cleared
  cleared-IsReset laws (ok _) st k h = record {
    poisoned = refl;
    degraded = refl;
    latch = refl;
    scope_latch = refl;
    creds = (k refl).0;
    session = (k refl).1;
  }
  cleared-IsReset laws (err e) st k h = cc

-- After `Logout`, whatever it returns, no client, token or keyring is left in memory. When it
-- succeeds over a store that keeps its laws, the latches and marks are reset and the store holds
-- neither credentials nor a session.
pub logout-IsSignedOut :
    (b : Backend) (laws : StoreLaws b.store) (st : State b)
    → IsSignedOut b (logout b st).1 × ((logout b st).0 ≡ ok tt → IsReset b laws (logout b st).1)
unfolding logout clear_keyring_cache cleared set_auth
logout-IsSignedOut b laws st = rw (logout_of-eq b st.client st) (
  cleared-IsSignedOut b _
      (record { client = refl; raw = refl; current = refl; keyrings = refl; cal_keyrings = refl }),
  cleared-IsReset b laws _ _ (laws.cleared _),
)
