-- ===== src/Tests/Wire.antt =====
-- The theorems on raw calls and on the recovery of a session, at concrete inputs.
use protonmail_mcp.Common.{ℕ, String, none, some, List, [], ◌∷◌, ◌≡◌, ◌≢◌, refl, All, map, arith}
use protonmail_mcp.Log.{no_attrs, attr, group, Record, Derivation, with_attrs, with_group, handle}
use protonmail_mcp.Log.Redaction.{logged, hidden, logged-handle}
use protonmail_mcp.Proterr.Chain.{GoError, ok, err}
use protonmail_mcp.Proterr.Mapping.{err_to_mcp, map_status}
use protonmail_mcp.Exec.Rules.{Preserves}
use protonmail_mcp.Protonraw.{
  Web, http_get, no_body, ignored, request, do_request, get_custom_domain, remove_custom_domain,
  verify_custom_domain, list_domain_addresses, update_catch_all,
}
use protonmail_mcp.Protonraw.Errors.{do_request-http}
use protonmail_mcp.Protonraw.Paths.{HasSlashes, PathLaw, raw_calls-slashes}
use protonmail_mcp.Session.Wiping.{WipeLaws}
use protonmail_mcp.Keychain.{Session}
use protonmail_mcp.Session.State.{Backend, State, new_raw_client, new}
use protonmail_mcp.Session.Login.{
  login_locked, two_factor, finish_login, choose_mailbox_password, persist_login_state, or_rollback,
  adopt_login, clear_keyring_cache,
}
use protonmail_mcp.Session.Access.{client}
use protonmail_mcp.Session.Recovery.{IsRecovered, client-recovers, login_locked-recovers}
use protonmail_mcp.Tests.Model.{
  Disk, model, model_codes, model_auth, disk_laws, right_input, stored_session, stored_creds,
}
use protonmail_mcp.Tests.Mailbox.{not_found, no_web}

do_request-http_example :
    (e : GoError) × ((do_request {W = String} no_web new_raw_client "list" ignored
        (request {W = String} no_web http_get "/core/v4/domains" no_body)
        "w").0
      ≡ err e)
    × (err_to_mcp model_codes e ≡ map_status 404 (some []))
do_request-http_example =
    do_request-http model_codes no_web new_raw_client "list" ignored
      (request {W = String} no_web http_get "/core/v4/domains" no_body) "w" not_found refl
      (omega arith)

-- A server that keeps a log of the paths.
abbrev logging : Web (List String)
logging = record no_web { send = λ r req log. (ok not_found, req.path ∷ log) }

abbrev Logged : ℕ → List String → Type 0
Logged n log = All (HasSlashes n) log

logging_law : PathLaw logging Logged
logging_law = record { at = λ n r m path body slashed. record { at = λ log h. (slashed, h) } }

raw_calls-slashes_example :
    Preserves (Logged 4) (get_custom_domain logging new_raw_client "a/../b?c")
    × Preserves (Logged 4) (remove_custom_domain logging new_raw_client "a/../b?c")
    × Preserves (Logged 5) (verify_custom_domain logging new_raw_client "a/../b?c")
    × Preserves (Logged 5) (list_domain_addresses logging new_raw_client "a/../b?c")
    × Preserves (Logged 5) (update_catch_all logging new_raw_client "a/../b?c" none)
raw_calls-slashes_example =
    raw_calls-slashes logging Logged logging_law new_raw_client "a/../b?c" none

-- The backend of Tests/Model with a server that grants every refresh.
abbrev granting : Backend
granting = record model { new_client_with_refresh = λ u r d. (ok (7, model_auth), d) }

abbrev disk : Disk
disk = record { creds = some stored_creds; session = some stored_session; logins = 0 }

client-recovers_example :
    ((client granting (new granting disk)).0 ≡ ok 7)
    × IsRecovered granting disk_laws stored_session model_auth 7
        (client granting (new granting disk)).1
    × (client granting (client granting (new granting disk)).1
        ≡ (ok 7, (client granting (new granting disk)).1))
client-recovers_example =
    client-recovers granting disk_laws disk disk disk stored_session 7 model_auth refl refl

abbrev before_login : State granting
before_login = new granting disk

signed_up : (login_locked granting right_input before_login).0 ≡ ok tt
unfolding login_locked two_factor finish_login choose_mailbox_password persist_login_state
    or_rollback adopt_login
signed_up = refl

not_empty : ◌≢◌ {A = String} "uid" ""
not_empty h = cc

named : (login_locked granting right_input before_login).1.current.uid ≢ ""
unfolding login_locked two_factor finish_login choose_mailbox_password persist_login_state
    or_rollback adopt_login clear_keyring_cache
named = not_empty

abbrev found : Session
found = record { uid = "uid"; access_token = "access"; refresh_token = "refresh"; scope = "full" }

abbrev granting_wipes : WipeLaws granting disk_laws
granting_wipes = record { creds_kept = λ k d. refl; session_kept = λ k d. refl }

loaded :
    granting.store.load_session (login_locked granting right_input before_login).1.world
    ≡ (ok found, (login_locked granting right_input before_login).1.world)
unfolding login_locked two_factor finish_login choose_mailbox_password persist_login_state
    or_rollback adopt_login clear_keyring_cache
loaded = refl

login_locked-recovers_example :
    ((client granting (new granting (login_locked granting right_input before_login).1.world)).0
      ≡ ok 7)
    × IsRecovered granting disk_laws
        (login_locked granting right_input before_login).1.current
        model_auth
        7
        (client granting (new granting (login_locked granting right_input before_login).1.world)).1
login_locked-recovers_example =
    login_locked-recovers granting disk_laws granting_wipes right_input before_login found _ _ 7
      model_auth signed_up named loaded refl

-- A logger with an attribute and a group, and a record with a secret beside an innocent attribute.
abbrev derivations : List Derivation
derivations = with_attrs (attr "session_key" "k" no_attrs) ∷ with_group "token" ∷ []

abbrev login_record : Record
login_record = record {
  message = "login";
  attrs = group "request" (attr "password" "p" no_attrs) (attr "user" "u" no_attrs);
}

logged-handle_example :
    logged [] (handle (λ s. s) derivations login_record)
    ≡ map (hidden (λ s. s)) (logged [] (derivations, login_record))
logged-handle_example = logged-handle (λ s. s) [] derivations login_record
