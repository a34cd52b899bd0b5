-- ===== src/Command/Exit.antt =====
-- The exit code of the status command.
use protonmail_mcp.Common.{
  ℕ, String, Bool, true, false, List, ◌∷◌, ◌≡◌, refl, ap, ◌∙◌, ◌<>◌, ◌==◌, if_elim, if◌then◌else◌,
}
use protonmail_mcp.Proterr.Chain.{
  GoError, sentinel, status_degraded, Result, ok, err, errors_is, find_first,
}
use protonmail_mcp.Exec.{pure, raise}
use protonmail_mcp.Selection.{Selected, select_store, backend_name}
use protonmail_mcp.Session.State.{State, new}
use protonmail_mcp.Session.Access.{client}
use protonmail_mcp.Session.Status.{status}
use protonmail_mcp.Tools.Api.{User}
use protonmail_mcp.Server.Serving.{default_api_url}
use protonmail_mcp.Command.{
  Console, Machine, at, host, env_lookup, run_status, status_result, show_status,
  write_not_logged_in, status_ended, status_exit_code, new_session,
}
use protonmail_mcp.Command.Run.{run}

module _ (m : Machine) (s : Selected) where
  -- The session was asked for a client: it has none, or the client then gets the user.
  pub data Asked (st : State (at m s)) : State (at m s) → Type 0 where
    signed_out :
        {st' : State (at m s)} (e : GoError) → client (at m s) st ≡ (err e, st') → Asked st st'
    answered :
        {st' st'' : State (at m s)} (c : m.proton.Client) (u : User)
        → client (at m s) st ≡ (ok c, st')
        → (m.deps s).api.get_user c st' ≡ (ok u, st'')
        → Asked st st''

  -- A session's report: the exit code, and the session after it.
  record IsReported (st : State (at m s)) (p : Result (Unit {0}) × (Console × State (at m s)))
      : Type 0 where
    pub exits :
        (x : Console × m.proton.World)
        → (status_ended p.0 x).0 ≡ (if st.persist_degraded then 3 else 0)
    pub kept : p.1.1 ≡ st

  IsReported-at :
      (t : Bool) (st : State (at m s)) (c : Console)
      → t ≡ st.persist_degraded
      → IsReported st ((if t then raise (sentinel status_degraded) else pure tt) (c, st))
  unfolding errors_is find_first
  IsReported-at true st c same = record {
    exits = λ x. ap (λ b. if b then 3 else 0) same;
    kept = refl;
  }
  IsReported-at false st c same = record {
    exits = λ x. ap (λ b. if b then 3 else 0) same;
    kept = refl;
  }

  module _ (getenv : String → String) where
    status_result-IsReported :
        (c : Console) (st : State (at m s)) → IsReported st (status_result m getenv s (c, st))
    unfolding status_result status
    status_result-IsReported c st = IsReported-at st.persist_degraded st _ refl

    show_status-IsReported :
        (c : Console) (st st' : State (at m s))
        → Asked st st'
        → IsReported st' (show_status m getenv s (c, st))
    unfolding write_not_logged_in
    show_status-IsReported c st st' (signed_out e h) = rw h (status_result-IsReported _ st')
    show_status-IsReported c st st' (answered a u h k) = rw (h, k) (status_result-IsReported _ st')

status_ended-world :
    {W : Type 0} (r : Result (Unit {0})) (x : Console × W) → (status_ended r x).1.1 ≡ x.1
status_ended-world (ok _) x = refl
status_ended-world {W} (err e) x =
    if_elim (λ (p : ℕ × (Console × W)). p.1.1 ≡ x.1) (errors_is e status_degraded) refl refl

-- The session that a command starts with.
abbrev pub started :
    (m : Machine) (s : Selected) → (api_url : String) → m.proton.World → State (at m s)
started m s api_url w =
    new (at m s) (m.set_host_url (if api_url == "" then default_api_url else api_url) w)

-- `status` exits with 3 when persistence is degraded and with 0 when it is not, whether the session
-- gives no client or the client gets the user, and it leaves the world as these calls do.
pub run-status :
    (m : Machine) (env rest : List String) (s : Selected) (c : Console) (w : m.proton.World)
    (st : State (at m s))
    → select_store (host m (env_lookup env)) ≡ ok s
    → Asked m s (started m s (env_lookup env "PROTONMAIL_MCP_API_URL") w) st
    → ((run m env ("status" ∷ rest) (c, w)).0 ≡ (if st.persist_degraded then 3 else 0))
      × ((run m env ("status" ∷ rest) (c, w)).1.1 ≡ st.world)
unfolding run run_status new_session status_exit_code
run-status m env rest s c w st chosen asked =
    rw chosen (shown.exits x, status_ended-world r.0 x ∙ ap (λ q. q.world) shown.kept)
  where
    told : Console
    told = record c {
      stdout = c.stdout <> ("backend: " <> backend_name (host m (env_lookup env)) <> "\n");
    }

    r : Result (Unit {0}) × (Console × State (at m s))
    r =
        show_status m (env_lookup env) s
          (told, started m s (env_lookup env "PROTONMAIL_MCP_API_URL") w)

    x : Console × m.proton.World
    x = (r.1.0, r.1.1.world)

    shown : IsReported m s st r
    shown = show_status-IsReported m s (env_lookup env) told _ st asked
