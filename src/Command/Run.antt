-- ===== src/Command/Run.antt =====
-- `run` of cmd/protonmail-mcp/main.go.
use protonmail_mcp.Common.{ℕ, String, List, [], ◌∷◌, ◌<>◌, ◌==◌, if◌then◌else◌}
use protonmail_mcp.Command.{
  Console, Machine, env_lookup, print_error, run_logout, run_status, run_with_options,
  status_exit_code, exit_code,
}
use protonmail_mcp.Command.Login.{run_login}

module _ (m : Machine) (env : List String) where
  abbrev api_url : String
  api_url = env_lookup env "PROTONMAIL_MCP_API_URL"

  -- The exit code, and the console and the world at the end.
  unfoldable pub run :
      (args : List String) → Console × m.proton.World → ℕ × (Console × m.proton.World)
  run [] st = exit_code "server" (run_with_options m api_url st)
  run (command ∷ _) st =
      if command == "login"
      then exit_code "login" (run_login m (env_lookup env) api_url st)
      else if command == "logout"
      then exit_code "logout" (run_logout m (env_lookup env) api_url st)
      else if command == "status"
      then status_exit_code (run_status m (env_lookup env) api_url st)
      else (2, print_error ("unknown subcommand " <> command <> "\n") st)
