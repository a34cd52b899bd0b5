-- ===== src/Keychain.antt =====
-- internal/keychain/keychain.go: the credential bundles, and their storage in the OS keyring.
pub mod Diagnosis
pub mod Steps
pub mod Chains
pub mod Writes
pub mod Missing
pub mod Contents
use protonmail_mcp.Common.{String, List, [], ◌∷◌, ◌<>◌, ◌==◌, if◌then◌else◌}
use protonmail_mcp.Proterr.Chain.{
  keychain_not_found, GoError, sentinel, wrap, is_absent, Result, ok, err,
}
use protonmail_mcp.Exec.{Exec, pure, with_error, ◌>>=◌, ◌>>◌}
use Diagnosis.{diagnose_keychain_err_for}

pub record Creds : Type 0 where
  pub username : String
  pub password : String
  pub totp_secret : String
  pub mailbox_password : String

pub record Session : Type 0 where
  pub uid : String
  pub access_token : String
  pub refresh_token : String
  pub scope : String

abbrev pub key_username : String
key_username = "username"

abbrev pub key_password : String
key_password = "password"

abbrev pub key_totp_secret : String
key_totp_secret = "totp_secret"

abbrev pub key_mailbox_pass : String
key_mailbox_pass = "mailbox_password"

abbrev pub key_uid : String
key_uid = "session_uid"

abbrev pub key_access_token : String
key_access_token = "access_token"

abbrev pub key_refresh_token : String
key_refresh_token = "refresh_token"

abbrev pub key_scope : String
key_scope = "session_scope"

-- go-keyring at the service "protonmail-mcp": `Set`, `Get` and `Delete` of one key.
pub record Ring (W : Type 0) : Type 0 where
  pub write : String → String → Exec W (Unit {0})
  pub get : String → Exec W String
  pub delete : String → Exec W (Unit {0})

-- `fmt.Errorf("before%w", diagnoseKeychainErr(err))`, on the platform `goos`
abbrev pub diagnosed : String → String → GoError → GoError
diagnosed goos before e = wrap before (diagnose_keychain_err_for e goos) ""

-- `err == nil`, or `keyring.ErrNotFound`, which leaves "" as the value
abbrev pub optional_value : String → String → Result String → Result String
optional_value goos before (ok v) = ok v
optional_value goos before (err e) = if is_absent e then ok "" else err (diagnosed goos before e)

abbrev pub cleared : String → String → Result (Unit {0}) → Result (Unit {0})
cleared goos before (ok _) = ok tt
cleared goos before (err e) = if is_absent e then ok tt else err (diagnosed goos before e)

-- the error of `firstGet`: a missing primary key is `keychain.ErrNotFound`
abbrev pub first_error : String → String → GoError → GoError
first_error goos op e =
    if is_absent e
    then wrap (op <> ": ") (sentinel keychain_not_found) ""
    else diagnosed goos (op <> ": ") e

abbrev lift_value {ℓ} : {W A B : Type ℓ} → (Result A → Result B) → Exec W A → Exec W B
lift_value f m w = let (r, w') = m w in (f r, w')

module _ {W : Type 0} (ring : Ring W) (goos : String) where
  unfoldable pub first_get : String → String → Exec W String
  first_get op key = with_error (first_error goos op) (ring.get key)

  -- `keyringSet`, its error diagnosed
  abbrev pub put_key : String → String → String → Exec W (Unit {0})
  put_key before key value = with_error (diagnosed goos before) (ring.write key value)

  abbrev pub get_key : String → String → Exec W String
  get_key before key = with_error (diagnosed goos before) (ring.get key)

  abbrev pub get_optional : String → String → Exec W String
  get_optional before key = lift_value (optional_value goos before) (ring.get key)

  abbrev pub delete_key : String → String → Exec W (Unit {0})
  delete_key before key = lift_value (cleared goos before) (ring.delete key)

  unfoldable pub save_optional : String → String → Exec W (Unit {0})
  save_optional key value =
      if value == ""
      then delete_key ("clear stale " <> key <> ": ") key
      else put_key ("save " <> key <> ": ") key value

  unfoldable pub save_creds : Creds → Exec W (Unit {0})
  save_creds c = do
    put_key "save username: " key_username c.username
    put_key "save password: " key_password c.password
    save_optional key_totp_secret c.totp_secret
    save_optional key_mailbox_pass c.mailbox_password

  unfoldable pub load_creds : Exec W Creds
  load_creds = do
    u ← first_get "load username" key_username
    p ← get_key "load password: " key_password
    t ← get_optional "load totp: " key_totp_secret
    m ← get_optional "load mailbox password: " key_mailbox_pass
    pure (record { username = u; password = p; totp_secret = t; mailbox_password = m })

  unfoldable pub save_session : Session → Exec W (Unit {0})
  save_session s = do
    put_key "save uid: " key_uid s.uid
    put_key "save access token: " key_access_token s.access_token
    put_key "save refresh token: " key_refresh_token s.refresh_token
    save_optional key_scope s.scope

  unfoldable pub load_session : Exec W Session
  load_session = do
    uid ← first_get "load uid" key_uid
    at ← get_key "load access token: " key_access_token
    rt ← get_key "load refresh token: " key_refresh_token
    scope ← get_optional "load scope: " key_scope
    pure (record { uid = uid; access_token = at; refresh_token = rt; scope = scope })

  -- the loop of `Clear`
  unfoldable pub delete_all : List String → Exec W (Unit {0})
  delete_all [] = pure tt
  delete_all (key ∷ keys) = do delete_key ("delete " <> key <> ": ") key; delete_all keys

  unfoldable pub clear : Exec W (Unit {0})
  unfolding delete_all
  clear = delete_all (
      key_username ∷ key_password ∷ key_totp_secret ∷ key_mailbox_pass ∷ key_uid ∷ key_access_token
      ∷ key_refresh_token ∷ key_scope ∷ [])
