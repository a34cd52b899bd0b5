-- ===== src/Session/Recovery.antt =====
-- That a process that starts again goes on with the session that the one before it left.
use protonmail_mcp.Common.{
  Bool, true, false, some, ◌≡◌, ◌≢◌, refl, sym, ap, ◌∙◌, ◌↔◌, ◌==◌, eq_iff, if◌then◌else◌,
}
use mathlib.Core.Option.{some-injective}
use protonmail_mcp.Proterr.Chain.{Result, ok, err}
use protonmail_mcp.Keychain.{Session}
use protonmail_mcp.Store.{StoreLaws}
use protonmail_mcp.Session.State.{Auth, Backend, State, new}
use protonmail_mcp.Session.Login.{LoginInput, login_locked, session_of_auth}
use protonmail_mcp.Session.Access.{client, cold_start, saved_flag, rotated}
use protonmail_mcp.Session.Coherence.Access.{Carries, set_auth-Carries}
use protonmail_mcp.Session.Wiping.{WipeLaws}
use protonmail_mcp.Session.Persistence.{login_locked-IsEstablished}

-- The session `s` after a refresh of `sess` that the server answered with `a`: the tokens are the
-- new ones and so is the scope, but for a scope that the answer leaves empty; an answer without an
-- access token changes nothing.
pub record IsRefreshed (sess : Session) (a : Auth) (s : Session) : Type 0 where
  pub uid : a.access_token ≢ "" → s.uid ≡ a.uid
  pub access_token : a.access_token ≢ "" → s.access_token ≡ a.access_token
  pub refresh_token : a.access_token ≢ "" → s.refresh_token ≡ a.refresh_token
  pub scope_given : a.access_token ≢ "" → a.scope ≢ "" → s.scope ≡ a.scope
  pub scope_kept : a.access_token ≢ "" → a.scope ≡ "" → s.scope ≡ sess.scope
  pub unchanged : a.access_token ≡ "" → s ≡ sess

module _ (b : Backend) where
  rotated-IsRefreshed : (sess : Session) (a : Auth) → IsRefreshed sess a (rotated b sess a)
  unfolding rotated
  rotated-IsRefreshed sess a =
      by_tests (a.access_token == "") (a.scope == "") (eq_iff a.access_token "") (eq_iff a.scope "")
    where
      by_tests :
          (t u : Bool)
          → (t ≡ true) ↔ (a.access_token ≡ "")
          → (u ≡ true) ↔ (a.scope ≡ "")
          → IsRefreshed sess a (
              if t
              then sess
              else if u
              then record sess {
                uid = a.uid;
                access_token = a.access_token;
                refresh_token = a.refresh_token;
              }
              else session_of_auth a)
      by_tests true u p q = record {
        uid = λ n. absurd (n (p.0 refl));
        access_token = λ n. absurd (n (p.0 refl));
        refresh_token = λ n. absurd (n (p.0 refl));
        scope_given = λ n. absurd (n (p.0 refl));
        scope_kept = λ n. absurd (n (p.0 refl));
        unchanged = λ _. refl;
      }
      by_tests false true p q = record {
        uid = λ n. refl;
        access_token = λ n. refl;
        refresh_token = λ n. refl;
        scope_given = λ n m. absurd (m (q.0 refl));
        scope_kept = λ n m. refl;
        unchanged = λ m. absurd (cc (p.1 m));
      }
      by_tests false false p q = record {
        uid = λ n. refl;
        access_token = λ n. refl;
        refresh_token = λ n. refl;
        scope_given = λ n m. refl;
        scope_kept = λ n m. absurd (cc (q.1 m));
        unchanged = λ m. absurd (cc (p.1 m));
      }

  module _ (laws : StoreLaws b.store) where
    -- A session that goes on from `sess` with the client, after the server's answer.
    pub record IsRecovered (sess : Session) (a : Auth) (c : b.Client) (st : State b) : Type 0 where
      pub client : st.client ≡ some c
      pub refreshed : IsRefreshed sess a st.current
      pub carried : Carries st.raw st.current
      pub stored :
          st.persist_degraded ≡ false
          → st.current.uid ≢ ""
          → laws.session_of st.world ≡ some st.current

    saved-IsRecovered :
        (sess : Session) (a : Auth) (c : b.Client) (st : State b) (r : Result (Unit {0}))
        → st.client ≡ some c
        → IsRefreshed sess a st.current
        → Carries st.raw st.current
        → (r ≡ ok tt → st.current.uid ≢ "" → laws.session_of st.world ≡ some st.current)
        → IsRecovered sess a c (saved_flag b r st)
    saved-IsRecovered sess a c st (ok tt) h k l m = record {
      client = h;
      refreshed = k;
      carried = l;
      stored = λ _ named. m refl named;
    }
    saved-IsRecovered sess a c st (err e) h k l m = record {
      client = h;
      refreshed = k;
      carried = l;
      stored = λ healthy. cc;
    }

    started :
        (w loaded refreshed : b.World) (sess : Session) (c : b.Client) (a : Auth)
        → b.store.load_session w ≡ (ok sess, loaded)
        → b.new_client_with_refresh sess.uid sess.refresh_token loaded ≡ (ok (c, a), refreshed)
        → ((client b (new b w)).0 ≡ ok c) × IsRecovered sess a c (client b (new b w)).1
    unfolding client cold_start
    started w loaded refreshed sess c a p q =
        rw (p, q)
          (
            refl,
            saved-IsRecovered sess a c _ _ refl (rotated-IsRefreshed sess a)
                (set_auth-Carries (rotated b sess a))
                (λ done named. laws.session_saved (rotated b sess a) _ named done),
          )

  served_again : (c : b.Client) (st : State b) → st.client ≡ some c → client b st ≡ (ok c, st)
  unfolding client
  served_again c st h = rw h refl

-- A new process whose store has a session, and to which the server grants a refresh of it, gets the
-- new client at the first request, whether or not the new tokens can be saved. The session then has
-- the tokens of the answer, with the stored scope if the answer names none (or the stored tokens if
-- the answer has none), its raw client carries them, and when they could be saved and the UID is not
-- empty the store holds them. Every later request gets the same client and changes nothing.
pub client-recovers :
    (b : Backend) (laws : StoreLaws b.store) (w loaded refreshed : b.World) (sess : Session)
    (c : b.Client) (a : Auth)
    → b.store.load_session w ≡ (ok sess, loaded)
    → b.new_client_with_refresh sess.uid sess.refresh_token loaded ≡ (ok (c, a), refreshed)
    → ((client b (new b w)).0 ≡ ok c)
      × IsRecovered b laws sess a c (client b (new b w)).1
      × (client b (client b (new b w)).1 ≡ (ok c, (client b (new b w)).1))
client-recovers b laws w loaded refreshed sess c a p q =
    let serving = started b laws w loaded refreshed sess c a p q in
    (serving.0, serving.1, served_again b c _ serving.1.client)

-- A login is enough for the next process: after a login that succeeds with a UID, a new process over
-- the same world whose store can be read and to which the server grants a refresh of the tokens that
-- the login left in memory gets the new client at the first request, and goes on from those tokens.
pub login_locked-recovers :
    (b : Backend) (laws : StoreLaws b.store) (wipes : WipeLaws b laws) (input : LoginInput)
    (st : State b) (found : Session) (loaded refreshed : b.World) (c : b.Client) (a : Auth)
    → (login_locked b input st).0 ≡ ok tt
    → (login_locked b input st).1.current.uid ≢ ""
    → b.store.load_session (login_locked b input st).1.world ≡ (ok found, loaded)
    → b.new_client_with_refresh
        (login_locked b input st).1.current.uid
        (login_locked b input st).1.current.refresh_token
        loaded
      ≡ (ok (c, a), refreshed)
    → ((client b (new b (login_locked b input st).1.world)).0 ≡ ok c)
      × IsRecovered b laws
          (login_locked b input st).1.current
          a
          c
          (client b (new b (login_locked b input st).1.world)).1
login_locked-recovers b laws wipes input st found loaded refreshed c a done named p q =
    let left = (login_locked b input st).1 in
    let stored = (login_locked-IsEstablished b laws wipes input st done).stored named in
    let same : found ≡ left.current =
      some-injective found _
        (sym (laws.session_loaded found left.world (ap (λ x. x.0) p)) ∙ stored) in
    started b laws left.world loaded refreshed left.current c a (p ∙ ap (λ s. (ok s, loaded)) same)
      q
