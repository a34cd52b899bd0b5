-- ===== src/Session/Attempts.antt =====
-- How often the session runs a password login of its own accord.
pub mod Bound
pub mod Latch
pub mod Passive
use protonmail_mcp.Common.{
  ℕ, suc, ◌+◌, ◌≤◌, String, Bool, true, false, Option, none, some, List, [], ◌∷◌, ◌≡◌, refl, ap,
  ◌∙◌, ◌⊎◌, inl, inr, arith, All, is_some, if◌then◌else◌,
}
use protonmail_mcp.Proterr.Chain.{GoError, wrap, Result, ok, err}
use protonmail_mcp.Exec.{Exec, ◌>>=◌, ◌>>◌, context}
use protonmail_mcp.Exec.Rules.{Preserves, preserving, continue-state, adjust-state}
use protonmail_mcp.Keychain.{Creds, Session}
use protonmail_mcp.Keyring.{Keyrings, clear_all, clear_keyrings}
use protonmail_mcp.Session.State.{Auth, Backend, State, on_world}
use protonmail_mcp.Session.Login.{
  LoginInput, change, effect, closing, after_clear, rollback_login_persist, or_rollback,
  persist_login_state, clear_keyring_cache, clear_cal, clear_user, adopt_login, finish_login,
  login_locked, two_factor,
}
use protonmail_mcp.Session.Relogin.{
  Relogin, healed, challenged, declined, after_login, input_of, with_creds, relogin_locked,
}
use protonmail_mcp.Session.Access.{
  saved_flag, persist, adopt, after_relogin, from_refresh, from_cache, refresh_failed, cold_start,
  client, raw, rotate_memory, on_auth_rotated,
}
use protonmail_mcp.Session.Calls.{Call, rotate, get_client, get_raw, run_call, run_calls}
use protonmail_mcp.Session.Rules.{IsCalm, Preserves-lift, Preserves-closing, Preserves-two_factor}

-- A meter of the world that counts the calls of `NewClientWithLogin`, and that nothing else moves.
pub record Meter (b : Backend) : Type 0 where
  pub count : b.World → ℕ
  pub on_login :
      (u p : String) (w : b.World) → count (b.new_client_with_login u p w).1 ≡ count w + 1
  pub on_refresh :
      (u r : String) (w : b.World) → count (b.new_client_with_refresh u r w).1 ≡ count w
  pub on_open : (u a r : String) (w : b.World) → count (b.new_client u a r w).1 ≡ count w
  pub on_2fa :
      (c : b.Client) (code : String) (w : b.World) → count (b.auth_2fa c code w).1 ≡ count w
  pub on_handler : (c : b.Client) (w : b.World) → count (b.add_auth_handler c w) ≡ count w
  pub on_close : (c : b.Client) (w : b.World) → count (b.close c w) ≡ count w
  pub on_save_creds : (c : Creds) (w : b.World) → count (b.store.save_creds c w).1 ≡ count w
  pub on_load_creds : (w : b.World) → count (b.store.load_creds w).1 ≡ count w
  pub on_save_session : (s : Session) (w : b.World) → count (b.store.save_session s w).1 ≡ count w
  pub on_load_session : (w : b.World) → count (b.store.load_session w).1 ≡ count w
  pub on_clear : (w : b.World) → count (b.store.clear w).1 ≡ count w
  pub on_wipe : (k : b.KeyRing) (w : b.World) → count (b.pgp.clear_private_params k w) ≡ count w

module _ (b : Backend) (m : Meter b) where
  -- The meter stands at `n`.
  pub record StandsAt (n : ℕ) (st : State b) : Type 0 where
    pub reading : m.count st.world ≡ n

  module _ (n : ℕ) where
    calm : IsCalm b (StandsAt n)
    calm = record {
      on_close = λ c st h. record { reading = m.on_close c st.world ∙ h.reading };
      on_open = λ u a r st h. record { reading = m.on_open u a r st.world ∙ h.reading };
      on_submit = λ c code st h. record { reading = m.on_2fa c code st.world ∙ h.reading };
    }

    pub handler-keeps : (c : b.Client) → Preserves (StandsAt n) (effect b (b.add_auth_handler c))
    handler-keeps c = record {
      at = λ st h. record { reading = m.on_handler c st.world ∙ h.reading };
    }

    save_creds-keeps : (c : Creds) → Preserves (StandsAt n) (on_world b (b.store.save_creds c))
    save_creds-keeps c = record {
      at = λ st h. record { reading = m.on_save_creds c st.world ∙ h.reading };
    }

    pub load_creds-keeps : Preserves (StandsAt n) (on_world b b.store.load_creds)
    load_creds-keeps = record {
      at = λ st h. record { reading = m.on_load_creds st.world ∙ h.reading };
    }

    pub save_session-keeps :
        (s : Session) → Preserves (StandsAt n) (on_world b (b.store.save_session s))
    save_session-keeps s = record {
      at = λ st h. record { reading = m.on_save_session s st.world ∙ h.reading };
    }

    clear-keeps : Preserves (StandsAt n) (on_world b b.store.clear)
    clear-keeps = record { at = λ st h. record { reading = m.on_clear st.world ∙ h.reading } }

    -- A change of the fields beside the world.
    change-keeps :
        (f : State b → State b)
        → ((st : State b) → (f st).world ≡ st.world)
        → Preserves (StandsAt n) (change b f)
    change-keeps f same = record {
      at = λ st h. record { reading = ap m.count (same st) ∙ h.reading };
    }

    count-clear_cal :
        (krs : List (String × b.KeyRing)) (w : b.World) → m.count (clear_cal b krs w) ≡ m.count w
    count-clear_cal [] w = refl
    count-clear_cal ((id, kr) ∷ rest) w =
        count-clear_cal rest (b.pgp.clear_private_params kr w) ∙ m.on_wipe kr w

    count-clear_all :
        (krs : List (String × b.KeyRing)) (w : b.World)
        → m.count (clear_all b.pgp krs w) ≡ m.count w
    count-clear_all [] w = refl
    count-clear_all ((id, kr) ∷ rest) w =
        count-clear_all rest (b.pgp.clear_private_params kr w) ∙ m.on_wipe kr w

    count-clear_user :
        (o : Option (Keyrings b.KeyRing)) (w : b.World) → m.count (clear_user b o w) ≡ m.count w
    unfolding clear_keyrings
    count-clear_user none w = refl
    count-clear_user (some k) w =
        count-clear_all k.addr (b.pgp.clear_private_params k.user w) ∙ m.on_wipe k.user w

    adopt_login-keeps :
        (c : b.Client) (s : Session) → Preserves (StandsAt n) (change b (adopt_login b c s))
    unfolding adopt_login clear_keyring_cache
    adopt_login-keeps c s = record {
      at = λ st h. record {
        reading =
            count-clear_cal st.cal_keyrings (clear_user b st.keyrings st.world)
            ∙ count-clear_user st.keyrings st.world
            ∙ h.reading;
      };
    }

    ruleset counting = (
      preserving, Preserves-lift, calm, handler-keeps, save_creds-keeps, save_session-keeps,
      clear-keeps, Preserves-closing, Preserves-two_factor,
    )

    after_clear-keeps :
        (op : String) (cause : GoError) (r : Result (Unit {0}))
        → Preserves (StandsAt n) (after_clear b op cause r)
    unfolding after_clear
    after_clear-keeps op cause (ok _) = search counting
    after_clear-keeps op cause (err e) = record { at = λ st h. record { reading = h.reading } }

    rollback-keeps :
        (op : String) (cause : GoError) → Preserves (StandsAt n) (rollback_login_persist b op cause)
    unfolding rollback_login_persist
    rollback-keeps op cause = search (counting, after_clear-keeps) depth 7

    or_rollback-keeps :
        (op : String) (r : Result (Unit {0})) → Preserves (StandsAt n) (or_rollback b op r)
    unfolding or_rollback
    or_rollback-keeps op (ok _) = search counting
    or_rollback-keeps op (err e) = rollback-keeps op e

    persisted-keeps :
        Preserves
          (StandsAt n)
          (change b (λ st. record st { persist_degraded = false; persist_err_reason = "" }))
    persisted-keeps = record { at = λ st h. record { reading = h.reading } }

    persist_login-keeps :
        (c : Creds) (s : Session) → Preserves (StandsAt n) (persist_login_state b c s)
    unfolding persist_login_state
    persist_login-keeps c s = search (counting, or_rollback-keeps, persisted-keeps) depth 9

    finish_login-keeps :
        (input : LoginInput) (second : b.Client × Auth)
        → Preserves (StandsAt n) (finish_login b input second)
    unfolding finish_login
    finish_login-keeps input (c, auth) =
        search (counting, persist_login-keeps, adopt_login-keeps) depth 9

  after_auth-keeps :
      (n : ℕ) (input : LoginInput) (first : b.Client × Auth)
      → Preserves (StandsAt n) (two_factor b input first >>= finish_login b input)
  after_auth-keeps n input first =
      search (preserving, calm n, Preserves-two_factor, finish_login-keeps n) depth 7

  -- A login makes exactly one password attempt, however it ends, as counted by a meter that only
  -- `NewClientWithLogin` moves.
  pub login_locked-count :
      (input : LoginInput) (st : State b)
      → m.count (login_locked b input st).1.world ≡ m.count st.world + 1
  unfolding login_locked
  login_locked-count input st =
      let n = m.count st.world + 1 in
      let authenticate = on_world b (b.new_client_with_login input.username input.password) in
      let counted : StandsAt n (authenticate st).1 = record {
        reading = m.on_login input.username input.password st.world;
      } in
      let kept =
        continue-state {P = StandsAt n} (λ first. two_factor b input first >>= finish_login b input)
          (after_auth-keeps n input) (context "password auth: " authenticate st)
          (adjust-state (StandsAt n) (λ e. wrap "password auth: " e "") (authenticate st)
            counted) in
      kept.reading
