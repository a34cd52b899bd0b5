-- ===== src/Tests/Commands.antt =====
-- The theorems on the commands and on the server, at concrete inputs.
use protonmail_mcp.Common.{true, none, some, [], ◌∷◌, ◌≡◌, refl, if◌then◌else◌}
use protonmail_mcp.Common.Strconv.{is_space}
use protonmail_mcp.Proterr.Chain.{
  server_closed, no_session, GoError, wrap, sentinel, text, ok, err, errors_is, find_first,
}
use protonmail_mcp.Exec.{pure}
use protonmail_mcp.Selection.{Host, Selected, keychain_backend, select_store, backend_name}
use protonmail_mcp.Session.State.{State, new}
use protonmail_mcp.Session.Login.{
  login_locked, two_factor, finish_login, choose_mailbox_password, persist_login_state, or_rollback,
  adopt_login,
}
use protonmail_mcp.Session.Relogin.{logout}
use protonmail_mcp.Session.Access.{client, cold_start}
use protonmail_mcp.Server.Serving.{Transports, stopped}
use protonmail_mcp.Command.{
  Console, Machine, at, host, env_lookup, new_session, run_logout, log_out,
}
use protonmail_mcp.Command.Login.{
  read_string, trim_return, trim_text, prompt_reader, read_password, retried, log_in_twice,
  log_in_as, run_login,
}
use protonmail_mcp.Command.Run.{run}
use protonmail_mcp.Command.Stored.{HasLogin, first_line, run_login-HasLogin, run_logout-clears}
use protonmail_mcp.Command.Exit.{signed_out, started, run-status}
use protonmail_mcp.Tests.Model.{
  Disk, empty_disk, disk_store, disk_laws, model, model_wipes, stored_creds, stored_session,
}
use protonmail_mcp.Tests.Mailbox.{mailbox}

-- A process without variables.
abbrev bare_host : Host
bare_host = record {
  getenv = λ name. "";
  home = err (text "no home");
  quote = λ s. s;
  join = λ parts. "";
  flock_supported = true;
}

abbrev idle : Transports model
idle = record {
  Listener = Unit {0};
  run_stdio = λ tools. pure tt;
  listen = λ address. pure tt;
  serve = λ listener token tools st. (stopped (sentinel server_closed), st);
}

abbrev machine : Machine
machine = record {
  host = bare_host;
  proton = model;
  stores = λ s. disk_store;
  set_host_url = λ url d. d;
  deps = λ s. mailbox (λ name. "");
  terminal = none;
  transports = λ s. idle;
}

abbrev keyboard : Console
keyboard = record { stdin = " u\r\npw\n"; stdout = ""; stderr = "" }

logged_in : (run_login machine (λ name. "") "" (keyboard, empty_disk)).0 ≡ ok tt
unfolding run_login new_session select_store backend_name prompt_reader read_password read_string
    trim_return trim_text log_in_as log_in_twice retried login_locked two_factor finish_login
    choose_mailbox_password persist_login_state or_rollback adopt_login is_space
logged_in = refl

run_login-HasLogin_example :
    (s : Selected) × (select_store (host machine (λ name. "")) ≡ ok s)
    × (q : Console × State (at machine s)) × HasLogin machine s disk_laws (first_line keyboard) q
    × ((run_login machine (λ name. "") "" (keyboard, empty_disk)).1.1 ≡ q.1.world)
run_login-HasLogin_example =
    run_login-HasLogin machine (λ s. disk_laws) (λ s. model_wipes) (λ name. "") "" keyboard
      empty_disk logged_in

typed_user : first_line keyboard ≡ "u"
unfolding first_line read_string trim_return trim_text is_space
typed_user = refl

abbrev full_disk : Disk
full_disk = record { creds = some stored_creds; session = some stored_session; logins = 0 }

cleared : (run_logout machine (λ name. "") "" (keyboard, full_disk)).0 ≡ ok tt
unfolding run_logout new_session select_store backend_name log_out logout
cleared = refl

run_logout-clears_example :
    (s : Selected) × (select_store (host machine (λ name. "")) ≡ ok s)
    × (disk_laws.creds_of (run_logout machine (λ name. "") "" (keyboard, full_disk)).1.1 ≡ none)
    × (disk_laws.session_of (run_logout machine (λ name. "") "" (keyboard, full_disk)).1.1 ≡ none)
run_logout-clears_example =
    run_logout-clears machine (λ s. disk_laws) (λ name. "") "" keyboard full_disk cleared

selected : select_store (host machine (env_lookup [])) ≡ ok keychain_backend
unfolding select_store backend_name env_lookup
selected = refl

abbrev refusal : GoError
refusal = wrap "" (sentinel no_session) " — run `protonmail-mcp login`"

-- Without a stored session there is no client, and the world stays as it is.
no_client :
    client model
      (started machine keychain_backend (env_lookup [] "PROTONMAIL_MCP_API_URL") empty_disk)
    ≡ (err refusal, new model empty_disk)
unfolding client cold_start errors_is find_first env_lookup
no_client = refl

run-status_example :
    ((run machine [] ("status" ∷ []) (keyboard, empty_disk)).0
      ≡ (if (new model empty_disk).persist_degraded then 3 else 0))
    × ((run machine [] ("status" ∷ []) (keyboard, empty_disk)).1.1 ≡ empty_disk)
run-status_example =
    run-status machine [] [] keychain_backend keyboard empty_disk (new model empty_disk) selected
      (signed_out refusal no_client)
