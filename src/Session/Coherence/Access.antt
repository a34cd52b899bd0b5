-- ===== src/Session/Coherence/Access.antt =====
-- The operations that hand out clients and keyrings keep the raw client in step.
use protonmail_mcp.Common.{
  ◌≡◌, ◌≢◌, ◌⊎◌, inl, inr, ◌↔◌, sym, subst, eq_iff, ◌==◌, ◌||◌, ◌<>◌, Bool, true, false,
  if◌then◌else◌, refl, String, Option, none, some, List, [], ◌∷◌, lookup, arith,
}
use protonmail_mcp.Proterr.Chain.{GoError, Result, ok, err}
use protonmail_mcp.Exec.{Exec, attempt, ◌>>=◌}
use protonmail_mcp.Exec.Rules.{Preserves}
use protonmail_mcp.Keyring.{Keyrings}
use protonmail_mcp.Keychain.{Session}
use protonmail_mcp.Session.State.{Auth, Backend, RawClient, set_auth, State, new}
use protonmail_mcp.Session.Login.{change}
use protonmail_mcp.Session.Relogin.{Relogin, healed, challenged, declined, relogin_locked}
use protonmail_mcp.Session.Access.{
  saved_flag, persist, adopt, after_relogin, from_refresh, from_cache, rotate_memory, rotate_all,
  calling, store_keyrings, hold_latch, after_retry, after_heal, after_unlock, from_keyrings,
  from_calendar, refresh_failed, cold_start, client, raw, on_auth_rotated, unlock_once,
  heal_scope_denial, unlocked_keyrings, calendar_keyring,
}
use protonmail_mcp.Session.Rules.{steps}
use protonmail_mcp.Session.Calls.{
  Call, login, log_out, rotate, get_client, get_raw, get_keyrings, get_calendar, run_call,
  run_calls,
}
use protonmail_mcp.Session.Coherence.{
  IsCoherent, P, free, login_locked-keeps, relogin_locked-keeps, logout-keeps,
}

module _ (b : Backend) where
  -- Refreshing, and handing out clients.
  saved-keeps : (r : Result (Unit {0})) → Preserves (P b) (change b (saved_flag b r))
  saved-keeps (ok _) = record { at = λ st h. record { carried = h.carried } }
  saved-keeps (err e) = record { at = λ st h. record { carried = h.carried } }

  persist-keeps : (s : Session) → Preserves (P b) (persist b s)
  persist-keeps s = search (steps, free b, saved-keeps) depth 7

  after_relogin-keeps :
      (e : GoError) (p : Relogin b.Client × State b)
      → IsCoherent p.1
      → IsCoherent (after_relogin b e p).1
  after_relogin-keeps e (healed c, st) h = h
  after_relogin-keeps e (challenged x, st) h = record { carried = h.carried }
  after_relogin-keeps e (declined, st) h = record { carried = h.carried }

  refresh_failed-keeps : (e : GoError) → Preserves (P b) (refresh_failed b e)
  unfolding refresh_failed
  refresh_failed-keeps e = record {
    at = λ st h.
        ground (arith, after_relogin-keeps e (relogin_locked b st) (relogin_locked-keeps b st h));
  }

  adopt-keeps : (c : b.Client) (s : Session) → Preserves (P b) (change b (adopt b c s))
  adopt-keeps c s = record { at = λ st h. record { carried = refl } }

  from_refresh-keeps :
      (sess : Session) (r : Result (b.Client × Auth)) → Preserves (P b) (from_refresh b sess r)
  from_refresh-keeps sess (err e) = refresh_failed-keeps e
  from_refresh-keeps sess (ok (c, a)) = search (steps, free b, adopt-keeps, persist-keeps) depth 9

  cold_start-keeps : Preserves (P b) (cold_start b)
  unfolding cold_start
  cold_start-keeps = search (steps, free b, from_refresh-keeps) depth 9

  pub client-keeps : Preserves (P b) (client b)
  unfolding client
  client-keeps = record { at = λ st h. from_cache-keeps st.client st h }
    where
      from_cache-keeps :
          (o : Option b.Client) (st : State b) → IsCoherent st → IsCoherent (from_cache b o st).1
      from_cache-keeps (some c) st h = h
      from_cache-keeps none st h = ground (arith, cold_start-keeps.at st h)

  on_auth_rotated-keeps :
      (next : Session) (st : State b) → IsCoherent st → IsCoherent (on_auth_rotated b next st)
  unfolding on_auth_rotated
  on_auth_rotated-keeps next st h =
      (persist-keeps (rotate_memory b next st).0).at _ (record { carried = refl })

  pub raw-keeps : (st : State b) → IsCoherent st → IsCoherent (raw b st).1
  unfolding raw
  raw-keeps st h = ground (arith, client-keeps.at st h)

  rotate_all-keeps :
      (news : List Session) (st : State b) → IsCoherent st → IsCoherent (rotate_all b news st)
  unfolding rotate_all
  rotate_all-keeps [] st h = h
  rotate_all-keeps (next ∷ rest) st h =
      rotate_all-keeps rest (on_auth_rotated b next st) (on_auth_rotated-keeps next st h)

  calling-keeps : {A : Type 0} (m : Exec b.World A) → Preserves (P b) (calling b m)
  calling-keeps m = record { at = λ st h. rotate_all-keeps _ _ (record { carried = h.carried }) }

  unlock_once-keeps : Preserves (P b) (unlock_once b)
  unfolding unlock_once
  unlock_once-keeps = search (steps, free b, client-keeps, calling-keeps) depth 9

  store_keyrings-keeps : (k : Keyrings b.KeyRing) → Preserves (P b) (store_keyrings b k)
  store_keyrings-keeps k = record { at = λ st h. record { carried = h.carried } }

  hold_latch-keeps : (e : GoError) → Preserves (P b) (hold_latch b e)
  hold_latch-keeps e = record { at = λ st h. record { carried = h.carried } }

  after_retry-keeps : (r : Result (Keyrings b.KeyRing)) → Preserves (P b) (after_retry b r)
  after_retry-keeps (ok k) = search (steps, store_keyrings-keeps)
  after_retry-keeps (err e) = search (steps, hold_latch-keeps)

  retry-keeps : Preserves (P b) (do retried ← attempt (unlock_once b); after_retry b retried)
  retry-keeps = search (steps, unlock_once-keeps, after_retry-keeps)

  after_heal-keeps :
      (e : GoError) (p : Relogin b.Client × State b)
      → IsCoherent p.1
      → IsCoherent (after_heal b e p).1
  after_heal-keeps e (healed c, st) h = retry-keeps.at st h
  after_heal-keeps e (challenged x, st) h = record { carried = h.carried }
  after_heal-keeps e (declined, st) h = record { carried = h.carried }

  after_unlock-keeps : (r : Result (Keyrings b.KeyRing)) → Preserves (P b) (after_unlock b r)
  unfolding heal_scope_denial
  after_unlock-keeps (ok k) = record { at = λ st h. record { carried = h.carried } }
  after_unlock-keeps (err e) = record {
    at = λ st h.
        ground (arith, after_heal-keeps e (relogin_locked b st) (relogin_locked-keeps b st h));
  }

  from_keyrings-keeps : (o : Option (Keyrings b.KeyRing)) → Preserves (P b) (from_keyrings b o)
  from_keyrings-keeps (some k) = search steps
  from_keyrings-keeps none = search (steps, unlock_once-keeps, after_unlock-keeps)

  pub keyrings-keeps : Preserves (P b) (unlocked_keyrings b)
  unfolding unlocked_keyrings
  keyrings-keeps = record { at = λ st h. (from_keyrings-keeps st.keyrings).at st h }

  cached-keeps :
      (id : String) (kr : b.KeyRing)
      → Preserves (P b) (change b (λ st. record st { cal_keyrings = (id, kr) ∷ st.cal_keyrings }))
  cached-keeps id kr = record { at = λ st h. record { carried = h.carried } }

  from_calendar-keeps :
      (id : String) (o : Option b.KeyRing) → Preserves (P b) (from_calendar b id o)
  from_calendar-keeps id (some kr) = search steps
  from_calendar-keeps id none =
      search (steps, keyrings-keeps, client-keeps, cached-keeps, calling-keeps) depth 9

  pub calendar-keeps : (id : String) → Preserves (P b) (calendar_keyring b id)
  unfolding calendar_keyring
  calendar-keeps id = record {
    at = λ st h. (from_calendar-keeps id (lookup id st.cal_keyrings)).at st h;
  }

  run_call-keeps : (c : Call) (st : State b) → IsCoherent st → IsCoherent (run_call b c st)
  unfolding run_call
  run_call-keeps (login input) st h = (login_locked-keeps b input).at st h
  run_call-keeps log_out st h = logout-keeps b st h
  run_call-keeps (rotate next) st h = on_auth_rotated-keeps next st h
  run_call-keeps get_client st h = client-keeps.at st h
  run_call-keeps get_raw st h = raw-keeps st h
  run_call-keeps get_keyrings st h = keyrings-keeps.at st h
  run_call-keeps (get_calendar id) st h = (calendar-keeps id).at st h

  run_calls-keeps :
      (calls : List Call) (st : State b) → IsCoherent st → IsCoherent (run_calls b calls st)
  unfolding run_calls
  run_calls-keeps [] st h = h
  run_calls-keeps (c ∷ calls) st h = run_calls-keeps calls (run_call b c st) (run_call-keeps c st h)

-- What a raw client carries of a session: its access token and its UID, and both headers exactly if
-- neither of the two is empty.
pub record Carries (r : RawClient) (s : Session) : Type 0 where
  pub bear : r.bear ≡ s.access_token
  pub uid : r.uid ≡ s.uid
  pub sent :
      s.access_token ≢ ""
      → s.uid ≢ ""
      → (r.authorization ≡ some ("Bearer " <> s.access_token)) × (r.x_pm_uid ≡ some s.uid)
  pub unsent : (s.access_token ≡ "") ⊎ (s.uid ≡ "") → (r.authorization ≡ none) × (r.x_pm_uid ≡ none)

pub set_auth-Carries : (s : Session) → Carries (set_auth s.access_token s.uid) s
unfolding set_auth
set_auth-Carries s =
    by_tests (s.access_token == "") (s.uid == "") (eq_iff s.access_token "") (eq_iff s.uid "")
  where
    by_tests :
        (t u : Bool)
        → (t ≡ true) ↔ (s.access_token ≡ "")
        → (u ≡ true) ↔ (s.uid ≡ "")
        → Carries
            (if t || u
              then record {
                bear = s.access_token;
                uid = s.uid;
                authorization = none;
                x_pm_uid = none;
              }
              else record {
                bear = s.access_token;
                uid = s.uid;
                authorization = some ("Bearer " <> s.access_token);
                x_pm_uid = some s.uid;
              })
            s
    by_tests true u p q = record {
      bear = refl;
      uid = refl;
      sent = λ m n. absurd (m (p.0 refl));
      unsent = λ _. (refl, refl);
    }
    by_tests false true p q = record {
      bear = refl;
      uid = refl;
      sent = λ m n. absurd (n (q.0 refl));
      unsent = λ _. (refl, refl);
    }
    by_tests false false p q = record {
      bear = refl;
      uid = refl;
      sent = λ m n. (refl, refl);
      unsent = λ h. elim h [ inl a ↦ absurd (cc (p.1 a)) | inr a ↦ absurd (cc (q.1 a)) ];
    }

-- Whatever operations a new session goes through, in whatever order and with whatever outcome,
-- the raw client holds exactly the access token and the UID of the current session; when neither is
-- empty it sends "Bearer " and the token as Authorization, and the UID as x-pm-uid, and otherwise
-- it sends neither header.
pub run_calls-IsCoherent :
    (b : Backend) (w : b.World) (calls : List Call)
    → Carries (run_calls b calls (new b w)).raw (run_calls b calls (new b w)).current
unfolding set_auth
run_calls-IsCoherent b w calls =
    let kept = (run_calls-keeps b calls (new b w) (record { carried = refl })).carried in
    subst (λ r. Carries r (run_calls b calls (new b w)).current) (sym kept)
      (set_auth-Carries (run_calls b calls (new b w)).current)
