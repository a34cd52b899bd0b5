-- ===== src/Session/State.antt =====
-- The state of a session, and the parts of the world that it acts on.
use protonmail_mcp.Common.{
  ℕ, String, Bool, false, Option, none, some, List, [], ◌||◌, ◌<>◌, ◌==◌, nonempty, if◌then◌else◌,
}
use protonmail_mcp.Proterr.Chain.{GoError, Result}
use protonmail_mcp.Proterr.Mapping.{ApiCodes}
use protonmail_mcp.Exec.{Exec}
use protonmail_mcp.Keychain.{Session}
use protonmail_mcp.Store.{Store}
use protonmail_mcp.Calendar.{Calendars, KeyResolver}
use protonmail_mcp.Keyring.{Pgp, KeyFetcher, Keyrings}

-- The password modes that the program tells apart; any other has the number that is printed.
pub data PasswordMode : Type 0 where
  one_password two_password : PasswordMode
  other_mode : String → PasswordMode

-- `proton.Auth` as far as it is read; `has_totp` is `TwoFA.Enabled & proton.HasTOTP != 0`.
pub record Auth : Type 0 where
  pub uid : String
  pub access_token : String
  pub refresh_token : String
  pub scope : String
  pub has_totp : Bool
  pub password_mode : PasswordMode

-- A response that the post-request hook is shown (never with a nil part): `wrapped` and `flat` are
-- what `json.Unmarshal` makes of the body as `{"Auth": …}` and as a bare `proton.Auth`.
pub record Response : Type 0 where
  pub is_2fa_url : Bool
  pub status : ℕ
  pub wrapped : Option Auth
  pub flat : Option Auth

-- What `Auth2FA` returns, and the responses that its requests had.
pub record Submitted : Type 0 where
  pub error : Option GoError
  pub responses : List Response

-- The world with the credential store, Proton's servers and the clock in it, and the operations of
-- go-proton-api and gopenpgp on it. A `proton.Client` is known by a handle. `rotations` are the
-- tokens that the auth handler of the session's client was called with since it was last asked.
pub record Backend : Type 1 where
  pub World : Type 0
  pub Client : Type 0
  pub KeyRing : Type 0
  pub store : Store World
  pub codes : ApiCodes
  pub pgp : Pgp World KeyRing
  pub new_client_with_refresh : (uid refresh_token : String) → Exec World (Client × Auth)
  pub new_client_with_login : (username password : String) → Exec World (Client × Auth)
  pub new_client : (uid access_token refresh_token : String) → World → Client × World
  pub auth_2fa : Client → (code : String) → World → Submitted × World
  pub add_auth_handler : Client → World → World
  pub rotations : World → List Session × World
  pub close : Client → World → World
  pub fetcher : Client → KeyFetcher pgp
  pub calendars : Calendars World KeyRing
  pub resolver : Client → KeyResolver calendars
  pub decode_base32 : List ℕ → Result (List ℕ)
  pub hmac_sha1 : (key message : List ℕ) → List ℕ
  pub unix_time : World → ℕ

-- `rawClient`: the tokens it was given, and the two headers that it sends when both are set.
pub record RawClient : Type 0 where
  pub bear : String
  pub uid : String
  pub authorization : Option String
  pub x_pm_uid : Option String

abbrev pub new_raw_client : RawClient
new_raw_client = record { bear = ""; uid = ""; authorization = none; x_pm_uid = none }

unfoldable pub set_auth : String → String → RawClient
set_auth token uid =
    if token == "" || uid == ""
    then record { bear = token; uid = uid; authorization = none; x_pm_uid = none }
    else record {
      bear = token;
      uid = uid;
      authorization = some ("Bearer " <> token);
      x_pm_uid = some uid;
    }

abbrev pub has_bearer : RawClient → Bool
has_bearer r = nonempty r.bear

abbrev pub empty_session : Session
empty_session = record { uid = ""; access_token = ""; refresh_token = ""; scope = "" }

-- The fields of `Session` that change (the test seams are nil), with the world beside them.
pub record State (b : Backend) : Type 0 where
  pub client : Option b.Client
  pub raw : RawClient
  pub current : Session
  pub keyrings : Option (Keyrings b.KeyRing)
  pub cal_keyrings : List (String × b.KeyRing)
  pub poisoned : Bool
  pub persist_degraded : Bool
  pub persist_err_reason : String
  pub relogin_exhausted : Bool
  pub scope_relogin_exhausted : Bool
  pub world : b.World

-- `New`
abbrev pub new : (b : Backend) → b.World → State b
new b w = record {
  client = none;
  raw = new_raw_client;
  current = empty_session;
  keyrings = none;
  cal_keyrings = [];
  poisoned = false;
  persist_degraded = false;
  persist_err_reason = "";
  relogin_exhausted = false;
  scope_relogin_exhausted = false;
  world = w;
}

module _ (b : Backend) where
  -- An action on the world, as one of the session.
  abbrev pub on_world : {A : Type 0} → Exec b.World A → Exec (State b) A
  on_world m st = let (r, w) = m st.world in (r, record st { world = w })
