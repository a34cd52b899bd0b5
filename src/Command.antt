-- ===== src/Command.antt =====
-- cmd/protonmail-mcp/main.go, logout.go and status.go: the commands, over a console and a world.
pub mod Login
pub mod Run
pub mod Stored
pub mod Exit
use Prim.Native.String
use Prim.Native.Char.{code}
use protonmail_mcp.Common.{
  ℕ, String, Bool, Option, none, some, List, [], ◌∷◌, ◌<>◌, ◌==◌, ◌||◌, nat_eq, or_else, nonempty,
  if◌then◌else◌,
}
use protonmail_mcp.Common.Ints.{itoa}
use protonmail_mcp.Proterr.Chain.{
  status_degraded, GoError, sentinel, wrap, errors_is, Result, ok, err,
}
use protonmail_mcp.Proterr.Text.{error_text}
use protonmail_mcp.Exec.{Exec, pure, raise, attempt, ◌>>=◌, ◌>>◌}
use protonmail_mcp.Store.{Store}
use protonmail_mcp.Selection.{
  Host, Selected, OtherBackendHint, backend_name, select_store, probe_other_backend,
}
use protonmail_mcp.Session.State.{Backend, State, new}
use protonmail_mcp.Session.Relogin.{logout}
use protonmail_mcp.Session.Access.{client}
use protonmail_mcp.Session.Status.{Status, status}
use protonmail_mcp.Tools.Api.{User}
use protonmail_mcp.Tools.Handler.{Deps}
use protonmail_mcp.Tools.Register.{register}
use protonmail_mcp.Server.Serving.{default_api_url, Transports, server_api_url, serve_tools}

-- What is left of standard input, and what was written.
pub record Console : Type 0 where
  pub stdin : String
  pub stdout : String
  pub stderr : String

abbrev pub with_store : (b : Backend) → Store b.World → Backend
with_store b s = record b { store = s }

-- Everything a command acts on or calls. `set_host_url` is the part of `session.New` that gives the
-- API URL to the manager of go-proton-api; a process makes one session. `terminal` is the outcome of
-- `term.ReadPassword` where standard input is a terminal.
pub record Machine : Type 1 where
  pub host : Host
  pub proton : Backend
  pub stores : Selected → Store proton.World
  pub set_host_url : String → proton.World → proton.World
  pub deps : (s : Selected) → Deps (with_store proton (stores s))
  pub terminal : Option (Result String)
  pub transports : (s : Selected) → Transports (with_store proton (stores s))

-- The session's backend for a store.
abbrev pub at : (m : Machine) → Selected → Backend
at m s = with_store m.proton (m.stores s)

-- Entries have the form of `os.Environ()`; an entry with an empty value is passed over.
abbrev pub env_value : (prefix entry : String) → Option String
env_value String.[] String.[] = none
env_value String.[] (String.◌∷◌ c s) = some (String.◌∷◌ c s)
env_value (String.◌∷◌ p ps) String.[] = none
env_value (String.◌∷◌ p ps) (String.◌∷◌ c s) =
    if nat_eq (code p) (code c) then env_value ps s else none

unfoldable pub env_lookup : List String → String → String
env_lookup [] key = ""
env_lookup (kv ∷ env) key = elim (env_value (key <> "=") kv) [
  | some v ↦ v
  | none ↦ env_lookup env key
]

abbrev pub print : {W : Type 0} → String → Exec (Console × W) (Unit {0})
print s (c, w) = (ok tt, (record c { stdout = c.stdout <> s }, w))

abbrev pub print_error : {W : Type 0} → String → Console × W → Console × W
print_error s (c, w) = (record c { stderr = c.stderr <> s }, w)

abbrev pub in_session : {W A : Type 0} → Exec W A → Exec (Console × W) A
in_session action (c, w) = let (r, w') = action w in (r, (c, w'))

module _ (m : Machine) where
  abbrev pub Action : Selected → Type 0
  Action s = Exec (Console × State (at m s)) (Unit {0})

  -- The rest of a command with the session that `session.New` makes.
  abbrev pub made :
      (api_url : String) (s : Selected) → Action s → Exec (Console × m.proton.World) (Unit {0})
  made api_url s action (c, w) =
      let (r, (c', st)) = action (c, new (at m s) (m.set_host_url api_url w)) in (r, (c', st.world))

  abbrev pub with_selected :
      (api_url : String)
      → ((s : Selected) → Action s)
      → Result Selected
      → Exec (Console × m.proton.World) (Unit {0})
  with_selected api_url action (err e) = raise (wrap "credential backend: " e "")
  with_selected api_url action (ok s) = made api_url s (action s)

  -- What `runLogout` does with its session.
  unfoldable pub log_out : (s : Selected) → Action s
  log_out s =
      in_session (logout (at m s))
      >> (λ st. (ok tt, print_error "Logged out. Credentials cleared.\n" st))

  -- `RunWithOptions` of internal/server/server.go, which reads the environment of the process.
  unfoldable pub run_with_options : (api_url : String) → Exec (Console × m.proton.World) (Unit {0})
  run_with_options api_url =
      with_selected (server_api_url (m.host.getenv "PROTONMAIL_MCP_API_URL") api_url)
        (λ s.
          in_session
            (serve_tools (m.transports s) m.host.getenv m.host.quote (register (m.deps s))))
        (select_store m.host)

module _ (m : Machine) (getenv : String → String) where
  abbrev pub host : Host
  host = record m.host { getenv = getenv }

  -- `newSession`, and what a command then does with the session.
  unfoldable pub new_session :
      (api_url : String)
      → ((s : Selected) → Action m s)
      → Exec (Console × m.proton.World) (Unit {0})
  new_session api_url action =
      with_selected m (if api_url == "" then default_api_url else api_url) action
        (select_store host)

  unfoldable pub run_logout : (api_url : String) → Exec (Console × m.proton.World) (Unit {0})
  run_logout api_url = new_session api_url (log_out m)

  unfoldable pub persist_warning : Status → String
  persist_warning st =
      if st.persist_degraded
      then "warning: token persistence degraded — rotated tokens not saved to credential store ("
        <> m.host.quote st.persist_error
        <> "). Re-run `protonmail-mcp login` to restore.\n"
      else ""

  abbrev degraded : Bool → {W : Type 0} → Exec W (Unit {0})
  degraded b = if b then raise (sentinel status_degraded) else pure tt

  -- `statusResult`
  unfoldable pub status_result : (s : Selected) → Action m s
  status_result s (c, st) =
      (print (persist_warning (status (at m s) st))
          >> degraded (status (at m s) st).persist_degraded)
        (c, st)

  unfoldable pub not_logged_in : Option OtherBackendHint → String
  not_logged_in none = "not logged in\n"
  not_logged_in (some hint) =
      let here = "no session on backend=" <> backend_name host <> "; a" in
      elim hint.unreadable [
        | some e ↦
            here
            <> " session may exist on backend="
            <> hint.backend
            <> " but its store could not be read: "
            <> error_text e
            <> "\n"
        | none ↦
            if hint.backend == "file"
            then here <> " file-backend session exists at " <> hint.dir
              <> " — set PROTONMAIL_MCP_CREDENTIAL_BACKEND=file\n"
            else here
              <> " keychain-backend session exists — set PROTONMAIL_MCP_CREDENTIAL_BACKEND=keychain\n"
      ]

  -- The probe reads the other store, and leaves the world as it is.
  unfoldable pub write_not_logged_in : (s : Selected) → Action m s
  write_not_logged_in s (c, st) =
      print (not_logged_in (probe_other_backend host (λ t. ((m.stores t).load_session st.world).0)))
        (c, st)

  abbrev user_line : User → String
  user_line u = u.email <> " — " <> itoa u.used_space <> " / " <> itoa u.max_space <> " bytes\n"

  abbrev pub reported : (s : Selected) → Result (m.proton.Client) → Action m s
  reported s (err e) = write_not_logged_in s >> status_result s
  reported s (ok c) = do
    u ← in_session ((m.deps s).api.get_user c)
    print (user_line u)
    status_result s

  abbrev pub show_status : (s : Selected) → Action m s
  show_status s = do c ← attempt (in_session (client (at m s))); reported s c

  unfoldable pub run_status : (api_url : String) → Exec (Console × m.proton.World) (Unit {0})
  run_status api_url = do
    print ("backend: " <> backend_name host <> "\n")
    new_session api_url show_status

abbrev pub status_ended : {W : Type 0} → Result (Unit {0}) → Console × W → ℕ × (Console × W)
status_ended (ok _) st = (0, st)
status_ended (err e) st =
    if errors_is e status_degraded
    then (3, st)
    else (1, print_error ("status: " <> error_text e <> "\n") st)

unfoldable pub status_exit_code :
    {W : Type 0} → Result (Unit {0}) × (Console × W) → ℕ × (Console × W)
status_exit_code p = status_ended p.0 p.1

abbrev pub ended : {W : Type 0} → String → Result (Unit {0}) → Console × W → ℕ × (Console × W)
ended name (ok _) st = (0, st)
ended name (err e) st = (1, print_error (name <> ": " <> error_text e <> "\n") st)

-- The exit code of a command other than `status`.
unfoldable pub exit_code :
    {W : Type 0} → String → Result (Unit {0}) × (Console × W) → ℕ × (Console × W)
exit_code name p = ended name p.0 p.1
