-- ===== src/Session/Persistence.antt =====
-- What a login that succeeds leaves in memory and in the credential store.
use protonmail_mcp.Common.{
  String, true, false, none, some, [], ◌≡◌, ◌≢◌, refl, ◌∙◌, sym, subst, arith, is_some,
}
use protonmail_mcp.Proterr.Chain.{GoError, Result, ok, err}
use protonmail_mcp.Exec.{Exec, ◌>>=◌, ◌>>◌, context, continue, >>=-eq-ok}
use protonmail_mcp.Keychain.{Creds, Session}
use protonmail_mcp.Store.{StoreLaws}
use protonmail_mcp.Session.Wiping.{
  WipeLaws, session-clear_cal, session-clear_user, creds-clear_cal, creds-clear_user,
}
use protonmail_mcp.Keyring.{lift}
use protonmail_mcp.Session.State.{Auth, Backend, State, on_world}
use protonmail_mcp.Session.Login.{
  LoginInput, change, closing, closed, clear_user, or_rollback, rollback_login_persist,
  persist_login_state, after_clear, clear_keyring_cache, adopt_login, finish_login, login_locked,
  two_factor, effect, session_of_auth, choose_mailbox_password,
}

-- When the action succeeds, it ends in `Q`.
pub record Reaches {S A : Type 0} (m : Exec S A) (Q : S → Type 0) : Type 0 where
  pub at : (s : S) (a : A) → (m s).0 ≡ ok a → Q (m s).1

continue-Reaches :
    {S A B : Type 0} (f : A → Exec S B) (Q : S → Type 0)
    → ((a : A) → Reaches (f a) Q)
    → (p : Result A × S) (c : B) → (continue f p).0 ≡ ok c
    → Q (continue f p).1
continue-Reaches f Q k (ok a, s) c h = (k a).at s c h
continue-Reaches f Q k (err e, s) c h = cc

pub Reaches-bind :
    {S A B : Type 0} (m : Exec S A) (f : A → Exec S B) (Q : S → Type 0)
    → ((a : A) → Reaches (f a) Q)
    → Reaches (m >>= f) Q
Reaches-bind m f Q k = record { at = λ s. continue-Reaches f Q k (m s) }

module _ (b : Backend) (laws : StoreLaws b.store) where
  -- A logged-in session, with its bundles in the store.
  pub record IsEstablished (input : LoginInput) (st : State b) : Type 0 where
    pub client : is_some st.client ≡ true
    pub keyrings : st.keyrings ≡ none
    pub cal_keyrings : st.cal_keyrings ≡ []
    pub healthy : st.persist_degraded ≡ false
    pub latch : st.relogin_exhausted ≡ false
    pub scope_latch : st.scope_relogin_exhausted ≡ false
    pub stored : st.current.uid ≢ "" → laws.session_of st.world ≡ some st.current
    pub creds :
        input.username ≢ ""
        → (mailbox : String) × (laws.creds_of st.world
            ≡ some (record {
              username = input.username;
              password = input.password;
              totp_secret = input.totp_secret;
              mailbox_password = mailbox;
            }))

  -- What `persistLoginState` leaves when it succeeds.
  record IsPersisted (c : Creds) (s : Session) (st : State b) : Type 0 where
    pub healthy : st.persist_degraded ≡ false
    pub stored : s.uid ≢ "" → laws.session_of st.world ≡ some s
    pub creds : c.username ≢ "" → laws.creds_of st.world ≡ some c

  rollback-fails :
      (op : String) (cause : GoError) (st : State b) (u : Unit {0})
      → (rollback_login_persist b op cause st).0 ≢ ok u
  unfolding rollback_login_persist after_clear
  rollback-fails op cause st u h = ground (arith, h)

  or_rollback-of :
      (op : String) (r : Result (Unit {0})) (n : Exec (State b) (Unit {0})) (st : State b)
      (Q : State b → Type 0) (u : Unit {0})
      → (r ≡ ok tt → (n st).0 ≡ ok u → Q (n st).1)
      → ((or_rollback b op r >> n) st).0 ≡ ok u
      → Q ((or_rollback b op r >> n) st).1
  unfolding or_rollback
  or_rollback-of op (ok _) n st Q u k h = k refl h
  or_rollback-of op (err e) n st Q u k h =
      let (_, done, _, _) = >>=-eq-ok (rollback_login_persist b op e) (λ _. n) st h in
      absurd (rollback-fails op e st tt done)

  persist-IsPersisted :
      (c : Creds) (s : Session) → Reaches (persist_login_state b c s) (IsPersisted c s)
  unfolding persist_login_state
  persist-IsPersisted c s = record {
    at = λ st u h.
        let (r, w) = b.store.save_creds c st.world in
        or_rollback-of "save creds" r _ (record st { world = w }) (IsPersisted c s) u
          (λ saved.
            or_rollback-of "save session" (b.store.save_session s w).0 _
              (record st { world = (b.store.save_session s w).1 }) (IsPersisted c s) u
              (λ stored _. record {
                healthy = refl;
                stored = λ named. laws.session_saved s w named stored;
                creds = λ named.
                    laws.session_saved_apart s w stored ∙ laws.creds_saved c st.world named saved;
              }))
          h;
  }

  module _ (wipes : WipeLaws b laws) where
    adopt_login-IsEstablished :
        (input : LoginInput) (c : b.Client) (mailbox : String) (s : Session) (st : State b)
        → IsPersisted
            (record {
              username = input.username;
              password = input.password;
              totp_secret = input.totp_secret;
              mailbox_password = mailbox;
            })
            s
            st
        → IsEstablished input (adopt_login b c s st)
    unfolding adopt_login clear_keyring_cache
    adopt_login-IsEstablished input c mailbox s st h = record {
      client = refl;
      keyrings = refl;
      cal_keyrings = refl;
      healthy = h.healthy;
      latch = refl;
      scope_latch = refl;
      stored = λ named.
          session-clear_cal b laws wipes st.cal_keyrings (clear_user b st.keyrings st.world)
          ∙ session-clear_user b laws wipes st.keyrings st.world
          ∙ h.stored named;
      creds = λ named. (
        mailbox,
        creds-clear_cal b laws wipes st.cal_keyrings (clear_user b st.keyrings st.world)
            ∙ creds-clear_user b laws wipes st.keyrings st.world
            ∙ h.creds named,
      );
    }

    closing-Reaches :
        {A : Type 0} (c : b.Client) (m : Exec (State b) A) (Q : State b → Type 0)
        → Reaches m Q
        → Reaches (closing b c m) Q
    closing-Reaches c m Q k = record { at = λ st a h. closed-Reaches c Q (m st) a (k.at st) h }
      where
        closed-Reaches :
            {A : Type 0} (c : b.Client) (Q : State b → Type 0) (p : Result A × State b) (a : A)
            → ((a : A) → p.0 ≡ ok a → Q p.1)
            → (closed b c p).0 ≡ ok a
            → Q (closed b c p).1
        closed-Reaches c Q (ok x, st) a k h = k x refl
        closed-Reaches c Q (err e, st) a k h = cc

    adopted-Reaches :
        (m : Exec (State b) (Unit {0})) (f : State b → State b) (P Q : State b → Type 0)
        → Reaches m P
        → ((st : State b) → P st → Q (f st))
        → Reaches (m >> change b f) Q
    adopted-Reaches m f P Q k g = record {
      at = λ st u h.
          let (a, done, _, same) = >>=-eq-ok m (λ _. change b f) st h in
          subst Q (sym same) (g (m st).1 (k.at st a done));
    }

    finish_login-Reaches :
        (input : LoginInput) (second : b.Client × Auth)
        → Reaches (finish_login b input second) (IsEstablished input)
    unfolding finish_login
    finish_login-Reaches input (c, auth) =
        Reaches-bind
          (closing b c (lift (choose_mailbox_password auth.password_mode input.mailbox_password))) _
          _
          λ mailbox. Reaches-bind (effect b (b.add_auth_handler c)) _ _ λ _.
            adopted-Reaches _ _
              (IsPersisted
                (record {
                  username = input.username;
                  password = input.password;
                  totp_secret = input.totp_secret;
                  mailbox_password = mailbox;
                })
                (session_of_auth auth))
              _ (closing-Reaches c _ _ (persist-IsPersisted _ _))
              (adopt_login-IsEstablished input c mailbox (session_of_auth auth))

    login_locked-Reaches :
        (input : LoginInput) → Reaches (login_locked b input) (IsEstablished input)
    unfolding login_locked
    login_locked-Reaches input =
        Reaches-bind
          (context "password auth: "
            (on_world b (b.new_client_with_login input.username input.password)))
          _ _ λ first. Reaches-bind (two_factor b input first) _ _ (finish_login-Reaches input)

-- A login that succeeds leaves a client, no cached keyring, a healthy persistence report and both
-- relogin latches down. When the server's UID is not empty the store's session is the one in
-- memory, and when the user name is not empty the store's credentials are those of the input, with
-- some mailbox password. The store keeps its laws, and wiping key material does not change it.
pub login_locked-IsEstablished :
    (b : Backend) (laws : StoreLaws b.store) (wipes : WipeLaws b laws) (input : LoginInput)
    (st : State b)
    → (login_locked b input st).0 ≡ ok tt
    → IsEstablished b laws input (login_locked b input st).1
login_locked-IsEstablished b laws wipes input st h =
    (login_locked-Reaches b laws wipes input).at st tt h
