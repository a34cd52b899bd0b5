-- ===== src/Session/Rules.antt =====
-- The rules of `Preserves` for the session's own steps, over a predicate that does not read the
-- world.
use protonmail_mcp.Common.{String, ◌≡◌, refl, Option, none, some, arith}
use protonmail_mcp.Proterr.Chain.{GoError, Result, ok, err}
use protonmail_mcp.Exec.{Exec}
use protonmail_mcp.Exec.Rules.{Preserves, FailsSafe, preserving}
use protonmail_mcp.Keyring.{lift}
use protonmail_mcp.Session.State.{Backend, Auth, State, on_world}
use protonmail_mcp.Session.Login.{
  LoginInput, effect, closing, closed, with_captured, pick_code, after_2fa, two_factor,
}

module _ (b : Backend) (P : State b → Type 0) where
  -- The predicate does not depend on the world.
  pub record IsWorldFree : Type 0 where
    pub at : (st : State b) (w : b.World) → P st → P (record st { world = w })

  -- The predicate survives what login and logout do to the world, password authentication apart.
  pub record IsCalm : Type 0 where
    pub on_close :
        (c : b.Client) (st : State b) → P st → P (record st { world = b.close c st.world })
    pub on_open :
        (u a r : String) (st : State b)
        → P st
        → P (record st { world = (b.new_client u a r st.world).1 })
    pub on_submit :
        (c : b.Client) (code : String) (st : State b)
        → P st
        → P (record st { world = (b.auth_2fa c code st.world).1 })

  pub IsCalm-of : IsWorldFree → IsCalm
  IsCalm-of free = record {
    on_close = λ c st h. free.at st (b.close c st.world) h;
    on_open = λ u a r st h. free.at st (b.new_client u a r st.world).1 h;
    on_submit = λ c code st h. free.at st (b.auth_2fa c code st.world).1 h;
  }

module _ {b : Backend} {P : State b → Type 0} (free : IsWorldFree b P) where
  pub Preserves-on_world : {A : Type 0} (m : Exec b.World A) → Preserves P (on_world b m)
  Preserves-on_world m = record { at = λ st h. free.at st (m st.world).1 h }

  pub Preserves-effect : (f : b.World → b.World) → Preserves P (effect b f)
  Preserves-effect f = record { at = λ st h. free.at st (f st.world) h }

module _ {b : Backend} {P : State b → Type 0} where
  pub Preserves-lift : {A : Type 0} (r : Result A) → Preserves P (lift r)
  Preserves-lift r = record { at = λ st h. h }

module _ {b : Backend} {P : State b → Type 0} (calm : IsCalm b P) where
  Preserves-close : (c : b.Client) → Preserves P (effect b (b.close c))
  Preserves-close c = record { at = λ st h. calm.on_close c st h }

  Preserves-new_client :
      (u a r : String)
      → Preserves P (on_world b (λ w. let (c', w') = b.new_client u a r w in (ok c', w')))
  Preserves-new_client u a r = record { at = λ st h. calm.on_open u a r st h }

  Preserves-auth_2fa :
      (c : b.Client) (code : String)
      → Preserves P (on_world b (λ w. let (sent, w') = b.auth_2fa c code w in (ok sent, w')))
  Preserves-auth_2fa c code = record { at = λ st h. calm.on_submit c code st h }

  closed-state : {A : Type 0} (c : b.Client) (p : Result A × State b) → P p.1 → P (closed b c p).1
  closed-state c (ok a, st) h = h
  closed-state c (err e, st) h = calm.on_close c st h

  pub Preserves-closing :
      {A : Type 0} (c : b.Client) (m : Exec (State b) A)
      → Preserves P m
      → Preserves P (closing b c m)
  Preserves-closing c m k = record { at = λ st h. closed-state c (m st) (k.at st h) }

  Preserves-pick_code : (input : LoginInput) → Preserves P (pick_code b input)
  unfolding pick_code
  Preserves-pick_code input = record { at = λ st h. ground (arith, h) }

  ruleset calm_steps =
      (preserving, Preserves-lift, Preserves-close, Preserves-new_client, Preserves-auth_2fa)

  Preserves-with_captured :
      (c : b.Client) (auth : Auth) (o : Option Auth) → Preserves P (with_captured b c auth o)
  unfolding with_captured
  Preserves-with_captured c auth none = search calm_steps
  Preserves-with_captured c auth (some post) = search calm_steps

  Preserves-after_2fa :
      (e : Option GoError) (c : b.Client) (auth : Auth) (o : Option Auth)
      → Preserves P (after_2fa b e c auth o)
  unfolding after_2fa
  Preserves-after_2fa none c auth o = Preserves-with_captured c auth o
  Preserves-after_2fa (some e) c auth o = search calm_steps

  pub Preserves-two_factor :
      (input : LoginInput) (first : b.Client × Auth) → Preserves P (two_factor b input first)
  unfolding two_factor
  Preserves-two_factor input (c, auth) =
      search (calm_steps, Preserves-closing, Preserves-pick_code, Preserves-after_2fa) depth 9

  closed-error :
      {A : Type 0} (c : b.Client) (p : Result A × State b)
      → ((e : GoError) → p.0 ≡ err e → P p.1)
      → (e : GoError) → (closed b c p).0 ≡ err e
      → P (closed b c p).1
  closed-error c (ok a, st) h e q = cc
  closed-error c (err x, st) h e q = calm.on_close c st (h x refl)

  pub FailsSafe-closing :
      {A : Type 0} (c : b.Client) (m : Exec (State b) A)
      → FailsSafe P m
      → FailsSafe P (closing b c m)
  FailsSafe-closing c m k = record { at = λ st h. closed-error c (m st) (k.at st h) }

pub ruleset steps = (preserving, Preserves-on_world, Preserves-effect, Preserves-lift, IsCalm-of)
