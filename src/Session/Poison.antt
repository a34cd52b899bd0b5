-- ===== src/Session/Poison.antt =====
-- A session whose stored bundles may disagree hands out nothing until it is logged out or in.
use protonmail_mcp.Common.{
  String, Bool, true, false, Option, none, some, List, [], ◌∷◌, ◌≡◌, refl, ◌∙◌, ap, arith, inl, inr,
  all, not, ◌&&◌, is_some, if◌then◌else◌, lookup, Bool-cases,
}
use protonmail_mcp.Proterr.Chain.{GoError, Result, ok, err, sentinel, session_inconsistent}
use protonmail_mcp.Proterr.Mapping.{scope_denied, extract_api_error}
use protonmail_mcp.Exec.{Exec, ◌>>=◌, continue, attempt_of}
use protonmail_mcp.Keyring.{Keyrings}
use protonmail_mcp.Session.State.{Backend, State, has_bearer}
use protonmail_mcp.Session.Access.{
  from_cache, client, raw, unlock_once, after_unlock, from_keyrings, unlocked_keyrings,
  from_calendar, calendar_keyring,
}
use protonmail_mcp.Session.Calls.{
  Call, login, log_out, get_keyrings, get_calendar, rotate, get_client, get_raw, run_call,
  run_calls,
}

-- The operations that hand something out.
unfoldable pub is_request : Call → Bool
is_request (login _) = false
is_request log_out = false
is_request get_client = true
is_request get_raw = true
is_request get_keyrings = true
is_request (rotate _) = false
is_request (get_calendar _) = true

module _ (b : Backend) where
  from_cache_poisoned :
      (o : Option b.Client) (st : State b)
      → o ≡ none
      → st.poisoned ≡ true
      → from_cache b o st ≡ (err (sentinel session_inconsistent), st)
  from_cache_poisoned none st h p = rw p refl
  from_cache_poisoned (some c) st h p = cc

  client_poisoned :
      (st : State b)
      → st.client ≡ none
      → st.poisoned ≡ true
      → client b st ≡ (err (sentinel session_inconsistent), st)
  unfolding client
  client_poisoned st h p = from_cache_poisoned st.client st h p

  raw_poisoned : (st : State b) → st.client ≡ none → st.poisoned ≡ true → (raw b st).1 ≡ st
  unfolding raw
  raw_poisoned st h p = elim (Bool-cases (not (is_some st.client) && not (has_bearer st.raw))) [
    | inl asks ↦
        ap (λ t. (if t then (client b st).1 else st)) asks ∙ ap (λ q. q.1) (client_poisoned st h p)
    | inr holds ↦ ap (λ t. (if t then (client b st).1 else st)) holds
  ]

  -- A chain stops at its first error.
  bind-err :
      {A B : Type 0} (m : Exec (State b) A) (f : A → Exec (State b) B) (st : State b) (e : GoError)
      → m st ≡ (err e, st)
      → (m >>= f) st ≡ (err e, st)
  bind-err m f st e h = ap (continue f) h

  unlock_once_poisoned :
      (st : State b)
      → st.client ≡ none
      → st.poisoned ≡ true
      → unlock_once b st ≡ (err (sentinel session_inconsistent), st)
  unfolding unlock_once
  unlock_once_poisoned st h p = bind-err (client b) _ st _ (client_poisoned st h p)

  attempt_unlock :
      (st : State b) (p : Result (Keyrings b.KeyRing) × State b)
      → p ≡ (err (sentinel session_inconsistent), st)
      → continue (after_unlock b) (attempt_of p) ≡ (err (sentinel session_inconsistent), st)
  unfolding scope_denied extract_api_error
  attempt_unlock st p h = ap (λ q. continue (after_unlock b) (attempt_of q)) h

  from_keyrings_poisoned :
      (o : Option (Keyrings b.KeyRing)) (st : State b)
      → st.client ≡ none
      → st.poisoned ≡ true
      → (from_keyrings b o st).1 ≡ st
  from_keyrings_poisoned (some k) st h p = refl
  from_keyrings_poisoned none st h p =
      ap (λ q. q.1) (attempt_unlock st (unlock_once b st) (unlock_once_poisoned st h p))

  keyrings_poisoned :
      (st : State b) → st.client ≡ none → st.poisoned ≡ true → (unlocked_keyrings b st).1 ≡ st
  unfolding unlocked_keyrings
  keyrings_poisoned st h p = from_keyrings_poisoned st.keyrings st h p

  continue_poisoned :
      {A B : Type 0} (f : A → Exec (State b) B) (st : State b) (p : Result A × State b)
      → p.1 ≡ st
      → ((a : A) → (f a st).1 ≡ st)
      → (continue f p).1 ≡ st
  continue_poisoned f st (ok a, st') h k = ap (λ s. (f a s).1) h ∙ k a
  continue_poisoned f st (err e, st') h k = h

  from_calendar_poisoned :
      (id : String) (o : Option b.KeyRing) (st : State b)
      → st.client ≡ none
      → st.poisoned ≡ true
      → (from_calendar b id o st).1 ≡ st
  from_calendar_poisoned id (some kr) st h p = refl
  from_calendar_poisoned id none st h p =
      continue_poisoned _ st (unlocked_keyrings b st) (keyrings_poisoned st h p)
        λ krs. ap (λ q. q.1) (bind-err (client b) _ st _ (client_poisoned st h p))

  run_call_poisoned :
      (c : Call) (st : State b)
      → is_request c ≡ true
      → st.client ≡ none
      → st.poisoned ≡ true
      → run_call b c st ≡ st
  unfolding run_call is_request calendar_keyring
  run_call_poisoned (login _) st r h p = cc
  run_call_poisoned log_out st r h p = cc
  run_call_poisoned (rotate _) st r h p = cc
  run_call_poisoned get_client st r h p = ap (λ q. q.1) (client_poisoned st h p)
  run_call_poisoned get_raw st r h p = raw_poisoned st h p
  run_call_poisoned get_keyrings st r h p = keyrings_poisoned st h p
  run_call_poisoned (get_calendar id) st r h p =
      from_calendar_poisoned id (lookup id st.cal_keyrings) st h p

-- While the mark of an inconsistent store stands and there is no client, no sequence of requests
-- changes anything, the store and the server included, and a request for a client after it is
-- refused as inconsistent.
pub run_calls_poisoned :
    (b : Backend) (calls : List Call) (st : State b)
    → all is_request calls ≡ true
    → st.client ≡ none
    → st.poisoned ≡ true
    → (run_calls b calls st ≡ st)
      × ((client b (run_calls b calls st)).0 ≡ err (sentinel session_inconsistent))
unfolding run_calls
run_calls_poisoned b [] st r h p = (refl, ap (λ q. q.0) (client_poisoned b st h p))
run_calls_poisoned b (c ∷ calls) st r h p =
    let same = run_call_poisoned b c st (ground (arith, r)) h p in
    let rest = run_calls_poisoned b calls st (ground (arith, r)) h p in
    (
      ap (run_calls b calls) same ∙ rest.0,
      ap (λ s. (client b (run_calls b calls s)).0) same ∙ rest.1,
    )
