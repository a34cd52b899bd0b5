-- ===== src/Tests/Sessions.antt =====
-- The session's theorems, applied to the backend of Tests/Model.
use protonmail_mcp.Common.{ℕ, ◌≤◌, true, some, List, [], ◌∷◌, ◌≡◌, ◌≢◌, refl}
use protonmail_mcp.Proterr.Chain.{sentinel, session_inconsistent, text, wrap, ok, err}
use protonmail_mcp.Keychain.{Session}
use protonmail_mcp.Session.State.{State, set_auth, new}
use protonmail_mcp.Session.Login.{
  rollback_login_persist, login_locked, two_factor, finish_login, choose_mailbox_password,
  persist_login_state, or_rollback, adopt_login,
}
use protonmail_mcp.Session.Relogin.{logout}
use protonmail_mcp.Session.Access.{client, on_auth_rotated, rotate_memory}
use protonmail_mcp.Session.Calls.{
  Call, log_out, get_client, get_raw, get_keyrings, rotate, run_calls,
}
use protonmail_mcp.Session.Atomicity.{IsUntouched, login_locked-IsUntouched}
use protonmail_mcp.Session.Persistence.{IsEstablished, login_locked-IsEstablished}
use protonmail_mcp.Session.Coherence.Access.{Carries, run_calls-IsCoherent}
use protonmail_mcp.Session.Attempts.{login_locked-count}
use protonmail_mcp.Session.Attempts.Passive.{is_passive, run_calls-attempts}
use protonmail_mcp.Session.Logout.{IsSignedOut, IsReset, logout-IsSignedOut}
use protonmail_mcp.Session.Rollback.{IsRolledBack, rollback_login_persist-IsRolledBack}
use protonmail_mcp.Session.Poison.{is_request, run_calls_poisoned}
use protonmail_mcp.Session.Rotation.{
  IsRotated, on_auth_rotated-IsRotated, rotate_across_logout, rotate_across_logout-stored,
  rotate_twice_crossed, rotate_twice_crossed-stored,
}
use protonmail_mcp.Session.TotpCodes.{IsTruncated, code_of_digest_total}
use protonmail_mcp.Tests.Model.{
  model, disk_laws, model_wipes, login_meter, right_input, wrong_input, restarted, stored_session,
  empty_disk,
}

refused :
    (login_locked model wrong_input restarted).0
    ≡ err (wrap "password auth: " (text "incorrect") "")
unfolding login_locked
refused = refl

login_locked-IsUntouched_example :
    IsUntouched model restarted (login_locked model wrong_input restarted).1
login_locked-IsUntouched_example =
    login_locked-IsUntouched model wrong_input restarted
      (wrap "password auth: " (text "incorrect") "") refused

accepted : (login_locked model right_input restarted).0 ≡ ok tt
unfolding login_locked two_factor finish_login choose_mailbox_password persist_login_state
    or_rollback adopt_login
accepted = refl

login_locked-IsEstablished_example :
    IsEstablished model disk_laws right_input (login_locked model right_input restarted).1
login_locked-IsEstablished_example =
    login_locked-IsEstablished model disk_laws model_wipes right_input restarted accepted

abbrev some_calls : List Call
some_calls = get_client ∷ rotate stored_session ∷ get_raw ∷ log_out ∷ []

run_calls-IsCoherent_example :
    Carries
      (run_calls model some_calls (new model empty_disk)).raw
      (run_calls model some_calls (new model empty_disk)).current
run_calls-IsCoherent_example = run_calls-IsCoherent model empty_disk some_calls

abbrev requests : List Call
requests = get_client ∷ get_raw ∷ rotate stored_session ∷ get_client ∷ []

run_calls-attempts_example : (run_calls model requests restarted).world.logins ≤ 1
unfolding is_passive
run_calls-attempts_example = run_calls-attempts model login_meter requests restarted refl

login_locked-count_example : (login_locked model wrong_input restarted).1.world.logins ≡ 1
login_locked-count_example = login_locked-count model login_meter wrong_input restarted

logout-IsSignedOut_example :
    IsSignedOut model (logout model restarted).1
    × ((logout model restarted).0 ≡ ok tt → IsReset model disk_laws (logout model restarted).1)
logout-IsSignedOut_example = logout-IsSignedOut model disk_laws restarted

abbrev inconsistent : State model
inconsistent = record restarted { poisoned = true }

run_calls_poisoned_example :
    (run_calls model (get_raw ∷ get_client ∷ get_keyrings ∷ []) inconsistent ≡ inconsistent)
    × ((client model (run_calls model (get_raw ∷ get_client ∷ get_keyrings ∷ []) inconsistent)).0
        ≡ err (sentinel session_inconsistent))
unfolding is_request
run_calls_poisoned_example =
    run_calls_poisoned model (get_raw ∷ get_client ∷ get_keyrings ∷ []) inconsistent refl refl refl

on_auth_rotated-IsRotated_example :
    IsRotated model disk_laws stored_session restarted
      (on_auth_rotated model stored_session restarted)
on_auth_rotated-IsRotated_example =
    on_auth_rotated-IsRotated model disk_laws stored_session restarted

uid_given : stored_session.uid ≢ ""
uid_given h = cc

abbrev second_session : Session
second_session = record stored_session { access_token = "a2"; refresh_token = "r2" }

rotate_across_logout-stored_example :
    IsSignedOut model (rotate_across_logout model stored_session restarted)
    × (disk_laws.session_of (rotate_across_logout model stored_session restarted).world
        ≡ some (rotate_memory model stored_session restarted).0)
rotate_across_logout-stored_example =
    rotate_across_logout-stored model disk_laws stored_session restarted uid_given refl

rotate_twice_crossed-stored_example :
    ((rotate_twice_crossed model stored_session second_session restarted).current.access_token
      ≡ second_session.access_token)
    × ((rotate_twice_crossed model stored_session second_session restarted).current.refresh_token
        ≡ second_session.refresh_token)
    × ((rotate_twice_crossed model stored_session second_session restarted).raw
        ≡ set_auth second_session.access_token second_session.uid)
    × (disk_laws.session_of
          (rotate_twice_crossed model stored_session second_session restarted).world
        ≡ some (rotate_memory model stored_session restarted).0)
rotate_twice_crossed-stored_example =
    rotate_twice_crossed-stored model disk_laws stored_session second_session restarted uid_given
      refl

abbrev some_digest : List ℕ
some_digest =
    31 ∷ 134 ∷ 152 ∷ 105 ∷ 14 ∷ 2 ∷ 202 ∷ 22 ∷ 97 ∷ 133 ∷ 80 ∷ 239 ∷ 127 ∷ 25 ∷ 218 ∷ 142 ∷ 148 ∷ 91
    ∷ 85 ∷ 90 ∷ []

code_of_digest_total_example : IsTruncated some_digest
code_of_digest_total_example = code_of_digest_total some_digest refl

rollback_login_persist-IsRolledBack_example :
    IsRolledBack model "save creds"
      (text "disk full")
      restarted
      (rollback_login_persist model "save creds" (text "disk full") restarted)
rollback_login_persist-IsRolledBack_example =
    rollback_login_persist-IsRolledBack model "save creds" (text "disk full") restarted
