-- ===== src/Tests/Model.antt =====
-- A backend to compute with: a store of two optional bundles, and a server that counts the logins.
use protonmail_mcp.Common.{
  ℕ, ◌+◌, String, true, false, Option, none, some, [], ◌∷◌, ◌≡◌, refl, ◌==◌, eq_refl, subst, nat_eq,
  if◌then◌else◌,
}
use protonmail_mcp.Proterr.Chain.{
  keychain_not_found, GoError, sentinel, absent, api, errors_is, text, Result, ok, err,
}
use protonmail_mcp.Proterr.Mapping.{ApiCodes}
use protonmail_mcp.Keychain.{Creds, Session, Ring}
use protonmail_mcp.Keychain.Steps.{RingLaws}
use protonmail_mcp.Store.{Store, StoreLaws}
use protonmail_mcp.Keyring.{Key, Address, Pgp, KeyFetcher}
use protonmail_mcp.Calendar.{Calendars, KeyResolver}
use protonmail_mcp.Session.State.{Auth, Backend, State, new, one_password}
use protonmail_mcp.Session.Login.{LoginInput}
use protonmail_mcp.Session.Attempts.{Meter}
use protonmail_mcp.Session.Wiping.{WipeLaws}

pub record Disk : Type 0 where
  pub creds : Option Creds
  pub session : Option Session
  pub logins : ℕ

abbrev pub empty_disk : Disk
empty_disk = record { creds = none; session = none; logins = 0 }

abbrev pub found : {A : Type 0} → Option A → Disk → Result A × Disk
found (some a) d = (ok a, d)
found none d = (err (sentinel keychain_not_found), d)

abbrev pub disk_store : Store Disk
disk_store = record {
  save_creds = λ c d. (ok tt, record d { creds = some c });
  load_creds = λ d. found d.creds d;
  save_session = λ s d. (ok tt, record d { session = some s });
  load_session = λ d. found d.session d;
  clear = λ d. (ok tt, record d { creds = none; session = none });
}

pub found_ok : {A : Type 0} (o : Option A) (d : Disk) (a : A) → (found o d).0 ≡ ok a → o ≡ some a
found_ok (some x) d a h = cc
found_ok none d a h = cc

pub found_err :
    {A : Type 0} (o : Option A) (d : Disk) (e : GoError) → (found o d).0 ≡ err e → o ≡ none
found_err (some x) d e h = cc
found_err none d e h = refl

abbrev pub disk_laws : StoreLaws disk_store
disk_laws = record {
  creds_of = λ d. d.creds;
  session_of = λ d. d.session;
  creds_saved = λ c d _ _. refl;
  creds_saved_apart = λ c d _. refl;
  session_saved = λ s d _ _. refl;
  session_saved_apart = λ s d _. refl;
  creds_loaded = λ c d h. found_ok d.creds d c h;
  session_loaded = λ s d h. found_ok d.session d s h;
  creds_missing = λ e d h _. found_err d.creds d e h;
  session_missing = λ e d h _. found_err d.session d e h;
  cleared = λ d _. (refl, refl);
}

abbrev pub model_codes : ApiCodes
model_codes = record {
  is_hv_error = λ e. nat_eq e.code 9001;
  auth_refresh_token_invalid = 10013;
  password_wrong = 8002;
  hv_details = λ _. none;
}

abbrev pub model_pgp : Pgp Disk String
model_pgp = record {
  Material = String;
  Salts = String;
  Message = String;
  salt_for_key = λ salts pass id. ok pass;
  unlock_keys = λ keys pass user. ok pass;
  parse_armored = λ s. ok s;
  decrypt = λ kr m. ok m;
  clear_private_params = λ kr d. d;
}

abbrev pub one_key : Key String
one_key = record { id = "k"; primary = true; material = "m" }

abbrev pub one_address : Address String
one_address = record { id = "a"; keys = one_key ∷ [] }

abbrev pub model_fetcher : KeyFetcher model_pgp
model_fetcher = record {
  get_salts = λ d. (ok "salts", d);
  get_user_keys = λ d. (ok (one_key ∷ []), d);
  get_addresses = λ d. (ok (one_address ∷ []), d);
}

abbrev pub scope_denial : GoError
scope_denial = api (record { status = 403; code = 9100; text = "insufficient scope" })

abbrev pub denied_fetcher : KeyFetcher model_pgp
denied_fetcher = record model_fetcher { get_salts = λ d. (err scope_denial, d) }

abbrev pub model_calendars : Calendars Disk String
model_calendars = record {
  Passphrase = String;
  CalendarKeys = String;
  to_lower = λ s. s;
  decrypt_passphrase = λ p m kr. ok p;
  unlock_calendar = λ k p. ok p;
  count_decryption_entities = λ _. 1;
}

abbrev pub model_resolver : KeyResolver model_calendars
model_resolver = record {
  get_calendar_members = λ id d. (ok [], d);
  get_calendar_passphrase = λ id d. (ok "p", d);
  get_calendar_keys = λ id d. (ok "k", d);
  get_addresses = λ d. (ok [], d);
}

abbrev pub model_auth : Auth
model_auth = record {
  uid = "uid";
  access_token = "access";
  refresh_token = "refresh";
  scope = "full";
  has_totp = false;
  password_mode = one_password;
}

abbrev pub revoked : GoError
revoked = api (record { status = 422; code = 10013; text = "refresh token revoked" })

-- The password "pw" is right, and every refresh token is revoked.
abbrev pub model : Backend
model = record {
  World = Disk;
  Client = ℕ;
  KeyRing = String;
  store = disk_store;
  codes = model_codes;
  pgp = model_pgp;
  new_client_with_refresh = λ u r d. (err revoked, d);
  new_client_with_login = λ u p d. (
    if p == "pw" then ok (7, model_auth) else err (text "incorrect"),
    record d { logins = d.logins + 1 },
  );
  new_client = λ u a r d. (8, d);
  auth_2fa = λ c code d. (record { error = none; responses = [] }, d);
  add_auth_handler = λ c d. d;
  rotations = λ d. ([], d);
  close = λ c d. d;
  fetcher = λ c. model_fetcher;
  calendars = model_calendars;
  resolver = λ c. model_resolver;
  decode_base32 = λ s. ok s;
  hmac_sha1 = λ k m. m;
  unix_time = λ d. 0;
}

abbrev pub model_wipes : WipeLaws model disk_laws
model_wipes = record { creds_kept = λ k d. refl; session_kept = λ k d. refl }

pub count-found : {A : Type 0} (o : Option A) (d : Disk) → (found o d).1.logins ≡ d.logins
count-found none d = refl
count-found (some a) d = refl

abbrev pub login_meter : Meter model
login_meter = record {
  count = λ d. d.logins;
  on_login = λ u p d. refl;
  on_refresh = λ u r d. refl;
  on_open = λ u a r d. refl;
  on_2fa = λ c code d. refl;
  on_handler = λ c d. refl;
  on_close = λ c d. refl;
  on_save_creds = λ c d. refl;
  on_load_creds = λ d. count-found d.creds d;
  on_save_session = λ s d. refl;
  on_load_session = λ d. count-found d.session d;
  on_clear = λ d. refl;
  on_wipe = λ k d. refl;
}

abbrev pub right_input : LoginInput
right_input = record {
  username = "u";
  password = "pw";
  totp_secret = "";
  totp_code = "";
  mailbox_password = "";
}

abbrev pub wrong_input : LoginInput
wrong_input = record right_input { password = "no" }

abbrev pub stored_creds : Creds
stored_creds = record { username = "u"; password = "pw"; totp_secret = ""; mailbox_password = "" }

abbrev pub stored_session : Session
stored_session = record { uid = "uid"; access_token = "a"; refresh_token = "r"; scope = "full" }

-- A new session over a store that holds both bundles.
abbrev pub restarted : State model
restarted =
    new model (record { creds = some stored_creds; session = some stored_session; logins = 0 })

-- A keyring that never fails, over a map from keys to values.
abbrev pub map_ring : Ring (String → Option String)
map_ring = record {
  write = λ k v m. (ok tt, λ j. if k == j then some v else m j);
  get = λ k m.
      ((elim (m k) [ none ↦ err (absent "secret not found in keyring") | some v ↦ ok v ]), m);
  delete = λ k m. (ok tt, λ j. if k == j then none else m j);
}

missing-map :
    (o : Option String) (e : GoError)
    → (elim o as (λ _. Result String) [
      | none ↦ err (absent "secret not found in keyring")
      | some v ↦ ok v
    ])
      ≡ err e
    → (o ≡ none) × (errors_is e keychain_not_found ≡ false)
unfolding errors_is
missing-map none e h =
    let same : absent "secret not found in keyring" ≡ e = cc in
    (refl, subst (λ x. errors_is x keychain_not_found ≡ false) same refl)
missing-map (some x) e h = cc

get-map :
    (o : Option String) (v : String)
    → (elim o as (λ _. Result String) [
      | none ↦ err (absent "secret not found in keyring")
      | some v ↦ ok v
    ])
      ≡ ok v
    → o ≡ some v
get-map none v h = cc
get-map (some x) v h = cc

pub map_laws : RingLaws map_ring
map_laws = record {
  entries = λ m. m;
  written = λ k v w _. rw (eq_refl k) refl;
  write_apart = λ k v j w h. rw h refl;
  got = λ k v w h. get-map (w k) v h;
  got_nothing = λ k e w h a. (missing-map (w k) e h).0;
  got_foreign = λ k e w h. (missing-map (w k) e h).1;
  get_keeps = λ k j w. refl;
  deleted = λ k w _. rw (eq_refl k) refl;
  deleted_nothing = λ k e w h a. cc;
  delete_apart = λ k j w h. rw h refl;
}
