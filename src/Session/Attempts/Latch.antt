-- ===== src/Session/Attempts/Latch.antt =====
-- While the relogin latch holds, asking for a client attempts no password login.
use protonmail_mcp.Common.{
  ℕ, String, true, Option, none, some, ◌≡◌, refl, inl, inr, subst, sym, Bool-cases, if_elim,
}
use protonmail_mcp.Proterr.Chain.{GoError, Result, ok, err, sentinel, session_inconsistent}
use protonmail_mcp.Proterr.Mapping.{refresh_rejected}
use protonmail_mcp.Keychain.{Session}
use protonmail_mcp.Session.State.{Auth, Backend, State, on_world}
use protonmail_mcp.Session.Login.{change}
use protonmail_mcp.Session.Access.{
  saved_flag, adopt, from_refresh, from_cache, refresh_failed, cold_start, client,
}
use protonmail_mcp.Session.Attempts.{Meter, StandsAt}
use protonmail_mcp.Session.Attempts.Bound.{refreshed-keeps, load_session-keeps, refresh-keeps}
use protonmail_mcp.Session.Rules.{IsWorldFree, Preserves-on_world, steps}
use protonmail_mcp.Exec.{Exec}
use protonmail_mcp.Exec.Rules.{Preserves, preserving}

module _ (b : Backend) where
  record IsLatched (st : State b) : Type 0 where
    pub latch : st.relogin_exhausted ≡ true

  IsLatched-free : IsWorldFree b IsLatched
  IsLatched-free = record { at = λ st w h. record { latch = h.latch } }

  saved-latch : (r : Result (Unit {0})) → Preserves IsLatched (change b (saved_flag b r))
  saved-latch (ok _) = record { at = λ st h. record { latch = h.latch } }
  saved-latch (err e) = record { at = λ st h. record { latch = h.latch } }

  adopt-latch : (c : b.Client) (s : Session) → Preserves IsLatched (change b (adopt b c s))
  adopt-latch c s = record { at = λ st h. record { latch = h.latch } }

  refreshed-latch :
      (sess : Session) (c : b.Client) (a : Auth)
      → Preserves IsLatched (from_refresh b sess (ok (c, a)))
  refreshed-latch sess c a = search (steps, IsLatched-free, saved-latch, adopt-latch) depth 9

  -- A refused refresh changes nothing.
  pub refresh_failed_latched :
      (e : GoError) (st : State b) → st.relogin_exhausted ≡ true → (refresh_failed b e st).1 ≡ st
  unfolding refresh_failed
  refresh_failed_latched e st h = elim (Bool-cases (refresh_rejected b.codes e)) [
    | inl rejected ↦ rw (rejected, h) refl
    | inr other ↦ rw other refl
  ]

  module _ (m : Meter b) where
    -- The latch holds and the meter stands at `n`.
    pub record IsHeld (n : ℕ) (st : State b) : Type 0 where
      pub reading : m.count st.world ≡ n
      pub latch : st.relogin_exhausted ≡ true

    module _ (n : ℕ) where
      IsHeld-of :
          {A : Type 0} (act : Exec (State b) A)
          → Preserves (StandsAt b m n) act
          → Preserves IsLatched act
          → Preserves (IsHeld n) act
      IsHeld-of act ka kl = record {
        at = λ st h. record {
          reading = (ka.at st (record { reading = h.reading })).reading;
          latch = (kl.at st (record { latch = h.latch })).latch;
        };
      }

      from_refresh-IsHeld :
          (sess : Session) (r : Result (b.Client × Auth))
          → Preserves (IsHeld n) (from_refresh b sess r)
      from_refresh-IsHeld sess (ok (c, a)) =
          IsHeld-of (from_refresh b sess (ok (c, a))) (refreshed-keeps b m n sess c a)
            (refreshed-latch sess c a)
      from_refresh-IsHeld sess (err e) = record {
        at = λ st h. subst (IsHeld n) (sym (refresh_failed_latched e st h.latch)) h;
      }

      load-IsHeld : Preserves (IsHeld n) (on_world b b.store.load_session)
      load-IsHeld =
          IsHeld-of (on_world b b.store.load_session) (load_session-keeps b m n)
            (Preserves-on_world IsLatched-free b.store.load_session)

      refresh-IsHeld :
          (u r : String) → Preserves (IsHeld n) (on_world b (b.new_client_with_refresh u r))
      refresh-IsHeld u r =
          IsHeld-of (on_world b (b.new_client_with_refresh u r)) (refresh-keeps b m n u r)
            (Preserves-on_world IsLatched-free (b.new_client_with_refresh u r))

      cold_start-IsHeld : Preserves (IsHeld n) (cold_start b)
      unfolding cold_start
      cold_start-IsHeld =
          search (preserving, load-IsHeld, refresh-IsHeld, from_refresh-IsHeld) depth 9

      from_cache-IsHeld :
          (o : Option b.Client) (st : State b) → IsHeld n st → IsHeld n (from_cache b o st).1
      from_cache-IsHeld (some c) st h = h
      from_cache-IsHeld none st h =
          if_elim (λ (p : Result b.Client × State b). IsHeld n p.1) st.poisoned
            {x = (err (sentinel session_inconsistent), st)} h (cold_start-IsHeld.at st h)

      pub client-IsHeld : (st : State b) → IsHeld n st → IsHeld n (client b st).1
      unfolding client
      client-IsHeld st h = from_cache-IsHeld st.client st h
