-- ===== src/Command/Stored.antt =====
-- What the commands that succeed leave in the credential store.
use protonmail_mcp.Common.{
  String, Bool, true, false, Option, none, some, ◌≡◌, refl, sym, subst, ◌&&◌, ◌==◌, if_elim,
  if◌then◌else◌, is_some, strip_prefix, codes, nat_eq, length,
}
use protonmail_mcp.Proterr.Chain.{GoError, text, Result, ok, err, errors_is, totp_required}
use protonmail_mcp.Exec.{
  Exec, pure, raise, ◌>>=◌, ◌>>◌, attempt, attempt_of, with_error, adjust, continue, ok-injective,
  >>=-eq-ok,
}
use protonmail_mcp.Store.{StoreLaws}
use protonmail_mcp.Selection.{Selected, select_store}
use protonmail_mcp.Session.Wiping.{WipeLaws}
use protonmail_mcp.Session.State.{State, new}
use protonmail_mcp.Session.Login.{LoginInput}
use protonmail_mcp.Session.Persistence.{
  Reaches, Reaches-bind, IsEstablished, login_locked-IsEstablished,
}
use protonmail_mcp.Session.Logout.{IsReset, logout-IsSignedOut}
use protonmail_mcp.Session.Relogin.{logout}
use protonmail_mcp.Command.{
  Console, Machine, Action, at, host, with_selected, print, print_error, new_session, log_out,
  run_logout,
}
use protonmail_mcp.Command.Login.{
  second_factor_help, log_in, ask_second_factor, second_try, retried, log_in_twice, login_error,
  log_in_as, prompted, run_login, prompt_reader, read_password, with_second_factor, is_all_digits,
  trim_text, trim_return, read_string,
}

Reaches-with_error :
    {S A : Type 0} (f : GoError → GoError) (m : Exec S A) (Q : S → Type 0)
    → Reaches m Q
    → Reaches (with_error f m) Q
Reaches-with_error {S} {A} f m Q k = record { at = λ s. split (m s) (k.at s) }
  where
    split :
        (p : Result A × S)
        → ((a : A) → p.0 ≡ ok a → Q p.1)
        → (a : A) → (adjust f p).0 ≡ ok a
        → Q (adjust f p).1
    split (ok a, s) h c q = h a refl
    split (err e, s) h c q = cc

Reaches-raise : {S A : Type 0} (e : GoError) (Q : S → Type 0) → Reaches (raise {W = S} {A = A} e) Q
Reaches-raise e Q = record { at = λ s a h. cc }

-- When the first action fails, its error is handled.
Reaches-recover :
    {S : Type 0} (m : Exec S (Unit {0})) (f : Result (Unit {0}) → Exec S (Unit {0}))
    (Q : S → Type 0)
    → ((s : S) → f (ok tt) s ≡ (ok tt, s))
    → Reaches m Q
    → ((e : GoError) → Reaches (f (err e)) Q)
    → Reaches (attempt m >>= f) Q
Reaches-recover {S} m f Q keeps k handled = record { at = λ s. split (m s) (k.at s) }
  where
    split :
        (p : Result (Unit {0}) × S)
        → ((a : Unit {0}) → p.0 ≡ ok a → Q p.1)
        → (a : Unit {0}) → (continue f (attempt_of p)).0 ≡ ok a
        → Q (continue f (attempt_of p)).1
    split (ok tt, s) h c q = subst (λ x. Q x.1) (sym (keeps s)) (h tt refl)
    split (err e, s) h c q = (handled e).at s c q

module _ (m : Machine) (s : Selected) (laws : StoreLaws (m.stores s)) where
  -- A login of the user was established.
  pub record HasLogin (username : String) (p : Console × State (at m s)) : Type 0 where
    pub input : LoginInput
    pub named : input.username ≡ username
    pub established : IsEstablished (at m s) laws input p.1

  -- A message at the end changes nothing else.
  Reaches-print :
      (username : String) (f : Exec (Console × State (at m s)) (Unit {0})) (message : String)
      → Reaches f (HasLogin username)
      → Reaches (f >> print message) (HasLogin username)
  Reaches-print username f message k = record { at = λ p. split (f p) (k.at p) }
    where
      split :
          (p : Result (Unit {0}) × (Console × State (at m s)))
          → ((a : Unit {0}) → p.0 ≡ ok a → HasLogin username p.1)
          → (a : Unit {0}) → (continue (λ _. print message) p).0 ≡ ok a
          → HasLogin username (continue (λ _. print message) p).1
      split (ok tt, (c, st)) h a q = record {
        input = (h tt refl).input;
        named = (h tt refl).named;
        established = (h tt refl).established;
      }
      split (err e, st) h a q = cc

  module _ (wipes : WipeLaws (at m s) laws) (username : String) where
    abbrev Logs : Exec (Console × State (at m s)) (Unit {0}) → Type 0
    Logs f = Reaches f (HasLogin username)

    log_in-Reaches : (input : LoginInput) → input.username ≡ username → Logs (log_in m s input)
    log_in-Reaches input same = record { at = λ p u done. by_parts p done }
      where
        by_parts :
            (p : Console × State (at m s))
            → (log_in m s input p).0 ≡ ok tt
            → HasLogin username (log_in m s input p).1
        by_parts (c, st) done = record {
          input = input;
          named = same;
          established = login_locked-IsEstablished (at m s) laws wipes input st done;
        }

    -- The input of a second try is for the same user.
    abbrev Named : Option (LoginInput × String) → Type 0
    Named none = Unit {0}
    Named (some (input, warning)) = input.username ≡ username

    with_second_factor-Named :
        (input : LoginInput) (v : String)
        → input.username ≡ username
        → Named (with_second_factor input v)
    unfolding with_second_factor
    with_second_factor-Named input v same =
        if_elim Named (is_some (strip_prefix (codes "otpauth://") (codes v))) same
          (if_elim Named (is_all_digits v && nat_eq (length (codes v)) 6) same tt)

    second_try-Reaches :
        (e : GoError) (o : Option (LoginInput × String)) → Named o → Logs (second_try m s e o)
    second_try-Reaches e none same = Reaches-raise _ (HasLogin username)
    second_try-Reaches e (some (input, warning)) same =
        Reaches-bind (print warning) (λ _. with_error (login_error m s) (log_in m s input))
          (HasLogin username)
          (λ _.
            Reaches-with_error (login_error m s) (log_in m s input) (HasLogin username)
              (log_in-Reaches input same))

    ask_second_factor-Reaches :
        (e : GoError) (input : LoginInput)
        → input.username ≡ username
        → Logs (ask_second_factor m s e input)
    ask_second_factor-Reaches e input same =
        Reaches-bind (print "\n2FA is enabled on this account.\n") _ (HasLogin username) λ _.
          Reaches-bind (print second_factor_help) _ (HasLogin username) λ _.
            Reaches-bind (prompt_reader "> ") _ (HasLogin username) λ v.
              second_try-Reaches e (with_second_factor input v)
                (with_second_factor-Named input v same)

    retried-Reaches :
        (e : GoError) (input : LoginInput)
        → input.username ≡ username
        → Logs (retried m s input (err e))
    unfolding retried
    retried-Reaches e input same =
        if_elim Logs (errors_is e totp_required) (ask_second_factor-Reaches e input same)
          (Reaches-raise _ (HasLogin username))

    log_in_twice-Reaches :
        (input : LoginInput) → input.username ≡ username → Logs (log_in_twice m s input)
    unfolding log_in_twice retried
    log_in_twice-Reaches input same =
        Reaches-recover (log_in m s input) (retried m s input) (HasLogin username) (λ _. refl)
          (log_in-Reaches input same) (λ e. retried-Reaches e input same)

    log_in_as-Reaches : (password : String) → Logs (log_in_as m s username password)
    unfolding log_in_as
    log_in_as-Reaches password = Reaches-print username _ _ (log_in_twice-Reaches _ refl)

-- The line that is typed at a prompt.
unfoldable pub first_line : Console → String
first_line c = trim_text (trim_return (read_string c.stdin).read)

prompt_reader-typed :
    {W : Type 0} (label : String) (c : Console) (w : W) {typed : String}
    → (prompt_reader label (c, w)).0 ≡ ok typed
    → typed ≡ first_line c
unfolding prompt_reader first_line
prompt_reader-typed {W} label c w h =
    by_test ((read_string c.stdin).at_end && trim_return (read_string c.stdin).read == "") _ h
  where
    by_test :
        (t : Bool) (x : Console × W) {typed : String}
        → (continue
            (λ line. pure (trim_text line))
            (
              if t
                  then err (text "unexpected EOF reading input")
                  else ok (trim_return (read_string c.stdin).read),
              x,
            )).0
          ≡ ok typed
        → typed ≡ trim_text (trim_return (read_string c.stdin).read)
    by_test true x k = cc
    by_test false x k = sym (ok-injective k)

-- A command whose session's action succeeds ends in the world of the action.
with_selected-done :
    (m : Machine) (api_url : String) (action : (s : Selected) → Action m s)
    (Q : (s : Selected) → Console × State (at m s) → Type 0) (c : Console) (w : m.proton.World)
    → ((s : Selected) (st : State (at m s))
        → (action s (c, st)).0 ≡ ok tt
        → Q s (action s (c, st)).1)
    → (r : Result Selected) → (with_selected m api_url action r (c, w)).0 ≡ ok tt
    → (s : Selected) × (r ≡ ok s)
      × (q : Console × State (at m s)) × Q s q
      × ((with_selected m api_url action r (c, w)).1.1 ≡ q.1.world)
with_selected-done m api_url action Q c w k (err e) done = cc
with_selected-done m api_url action Q c w k (ok s) done =
    (s, refl, (action s (c, new (at m s) (m.set_host_url api_url w))).1, k s _ done, refl)

prompted-HasLogin :
    (m : Machine) (s : Selected) (laws : StoreLaws (m.stores s)) (wipes : WipeLaws (at m s) laws)
    (c : Console) (st : State (at m s))
    → (prompted m s (c, st)).0 ≡ ok tt
    → HasLogin m s laws (first_line c) (prompted m s (c, st)).1
prompted-HasLogin m s laws wipes c st done =
    let rest = λ (username : String). read_password m.terminal >>= log_in_as m s username in
    let (username, typed, after, ends) =
      >>=-eq-ok (prompt_reader "Proton email: ") rest (c, st) done in
    let reached =
      (Reaches-bind (read_password m.terminal) (log_in_as m s username) (HasLogin m s laws username)
          (log_in_as-Reaches m s laws wipes username)).at
        _ tt after in
    subst (λ u. HasLogin m s laws u (prompted m s (c, st)).1)
      (prompt_reader-typed "Proton email: " c st typed)
      (subst (HasLogin m s laws username) (sym ends) reached)

-- When `login` succeeds, the environment selects a store, and the world that it leaves is the world
-- of an established session, for the user name that was typed first. So, over stores that keep
-- their laws and that the wiping of key material does not change, the credentials and the session
-- of that login are the stored ones (when the user name or the server's UID is not empty), after
-- one try or after two.
pub run_login-HasLogin :
    (m : Machine) (laws : (s : Selected) → StoreLaws (m.stores s))
    (wipes : (s : Selected) → WipeLaws (at m s) (laws s)) (getenv : String → String)
    (api_url : String) (c : Console) (w : m.proton.World)
    → (run_login m getenv api_url (c, w)).0 ≡ ok tt
    → (s : Selected) × (select_store (host m getenv) ≡ ok s)
      × (q : Console × State (at m s)) × HasLogin m s (laws s) (first_line c) q
      × ((run_login m getenv api_url (c, w)).1.1 ≡ q.1.world)
unfolding run_login new_session
run_login-HasLogin m laws wipes getenv api_url c w done =
    with_selected-done m _ (prompted m) (λ s. HasLogin m s (laws s) (first_line c)) c w
      (λ s st. prompted-HasLogin m s (laws s) (wipes s) c st) (select_store (host m getenv)) done

log_out-IsReset :
    (m : Machine) (s : Selected) (laws : StoreLaws (m.stores s)) (c : Console) (st : State (at m s))
    → (log_out m s (c, st)).0 ≡ ok tt
    → IsReset (at m s) laws (log_out m s (c, st)).1.1
unfolding log_out
log_out-IsReset m s laws c st done =
    split (logout (at m s) st) (logout-IsSignedOut (at m s) laws st).1 done
  where
    told : (p : Result (Unit {0}) × State (at m s)) → Result (Unit {0}) × (Console × State (at m s))
    told p =
        continue (λ _ x. (ok tt, print_error "Logged out. Credentials cleared.\n" x))
          (p.0, (c, p.1))

    split :
        (p : Result (Unit {0}) × State (at m s))
        → (p.0 ≡ ok tt → IsReset (at m s) laws p.1)
        → (told p).0 ≡ ok tt
        → IsReset (at m s) laws (told p).1.1
    split (ok tt, st') k h = k refl
    split (err e, st') k h = cc

-- When `logout` succeeds, the store that the environment selects holds neither credentials nor a
-- session, if the stores keep their laws.
pub run_logout-clears :
    (m : Machine) (laws : (s : Selected) → StoreLaws (m.stores s)) (getenv : String → String)
    (api_url : String) (c : Console) (w : m.proton.World)
    → (run_logout m getenv api_url (c, w)).0 ≡ ok tt
    → (s : Selected) × (select_store (host m getenv) ≡ ok s)
      × ((laws s).creds_of (run_logout m getenv api_url (c, w)).1.1 ≡ none)
      × ((laws s).session_of (run_logout m getenv api_url (c, w)).1.1 ≡ none)
unfolding run_logout new_session
run_logout-clears m laws getenv api_url c w done =
    let (s, chosen, q, reset, same) =
      with_selected-done m _ (log_out m) (λ s q. IsReset (at m s) (laws s) q.1) c w
        (λ s st. log_out-IsReset m s (laws s) c st) (select_store (host m getenv)) done in
    let world = sym same in
    (
      s,
      chosen,
      subst (λ x. (laws s).creds_of x ≡ none) world reset.creds,
      subst (λ x. (laws s).session_of x ≡ none) world reset.session,
    )
