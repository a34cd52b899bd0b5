-- ===== src/Proterr/Chain.antt =====
-- Go errors as values: sentinels, typed errors, and the chains that `fmt.Errorf` with `%w` and
-- `errors.Join` build. `errors.Is` and `errors.As` walk a chain depth first, left to right.
use protonmail_mcp.Common.Strconv.{ℤ}
use protonmail_mcp.Common.{
  ℕ, String, Bool, Option, none, some, List, nat_eq, or_else, is_some, if◌then◌else◌,
}

-- The `errors.New` values that the program compares with `errors.Is`.
pub data Sentinel : Type 0 where
  keychain_not_found not_exist : Sentinel
  no_session keyring_locked keyring_unlock_scope totp_rejected : Sentinel
  body_undecryptable address_keyring_missing : Sentinel
  session_inconsistent totp_required mailbox_password_required : Sentinel
  status_degraded server_closed : Sentinel

abbrev pub rank : Sentinel → ℕ
rank keychain_not_found = 0
rank not_exist = 2
rank no_session = 3
rank keyring_locked = 4
rank keyring_unlock_scope = 5
rank totp_rejected = 6
rank body_undecryptable = 7
rank address_keyring_missing = 8
rank session_inconsistent = 9
rank totp_required = 10
rank mailbox_password_required = 11
rank status_degraded = 12
rank server_closed = 13

abbrev pub same : Sentinel → Sentinel → Bool
same a b = nat_eq (rank a) (rank b)

-- `proton.APIError`, a type of go-proton-api: the fields that the program reads, and what its
-- `Error()` returns.
pub record ApiError : Type 0 where
  pub status : ℕ
  pub code : ℕ
  pub text : String

-- The headers by canonical name, each with its first value.
abbrev pub Headers : Type 0
Headers = List (String × String)

pub record HttpError : Type 0 where
  pub status : ℕ
  pub headers : Headers
  pub body : String

-- `*proterr.Error`, what tool handlers return; it has no `Unwrap`.
pub record Error : Type 0 where
  pub code : String
  pub message : String
  pub hint : String
  pub retry_after_seconds : ℤ

-- Values of foreign packages carry the text that their `Error()` returns; `absent` is go-keyring's
-- `ErrNotFound`, and `net` is a `*proton.NetError`, which unwraps to its cause. `text` is a plain
-- `errors.New`, `wrap before e after` is `fmt.Errorf("before%wafter", e)`, and `both` has two `%w`.
pub data GoError : Type 0 where
  text absent : String → GoError
  sentinel : Sentinel → GoError
  api api_pointer : ApiError → GoError
  http : HttpError → GoError
  mapped : Error → GoError
  net : (message : String) → (cause : GoError) → GoError
  dbus : (name message : String) → GoError
  exit : (exit_code : ℕ) → (message : String) → GoError
  wrap : (before : String) → GoError → (after : String) → GoError
  both : (before : String) → GoError → (between : String) → GoError → (after : String) → GoError
  join : GoError → GoError → GoError

-- `errors.As`: the first value of the chain that `pick` takes.
unfoldable pub find_first {ℓ} : {A : Type ℓ} → (GoError → Option A) → GoError → Option A
find_first pick (wrap _ e _) = find_first pick e
find_first pick (both _ e _ f _) = or_else (find_first pick e) (find_first pick f)
find_first pick (join e f) = or_else (find_first pick e) (find_first pick f)
find_first pick (net s e) = or_else (pick (net s e)) (find_first pick e)
find_first pick e = pick e

abbrev pub pick_sentinel : Sentinel → GoError → Option (Unit {0})
pick_sentinel s (sentinel t) = if same t s then some tt else none
pick_sentinel s _ = none

-- `errors.Is(err, s)`
unfoldable pub errors_is : GoError → Sentinel → Bool
unfolding find_first
errors_is e s = is_some (find_first (pick_sentinel s) e)

abbrev pub pick_absent : GoError → Option (Unit {0})
pick_absent (absent _) = some tt
pick_absent _ = none

-- `errors.Is(err, keyring.ErrNotFound)`
unfoldable pub is_absent : GoError → Bool
unfolding find_first
is_absent e = is_some (find_first pick_absent e)

abbrev pub pick_api_pointer : GoError → Option ApiError
pick_api_pointer (api_pointer a) = some a
pick_api_pointer _ = none

abbrev pub pick_api : GoError → Option ApiError
pick_api (api a) = some a
pick_api _ = none

abbrev pub pick_http : GoError → Option HttpError
pick_http (http h) = some h
pick_http _ = none

abbrev pub pick_net : GoError → Option String
pick_net (net s _) = some s
pick_net _ = none

abbrev pub pick_dbus : GoError → Option String
pick_dbus (dbus name _) = some name
pick_dbus _ = none

abbrev pub pick_exit : GoError → Option ℕ
pick_exit (exit status _) = some status
pick_exit _ = none

-- A result and an error, of which Go code uses one.
pub data Result {ℓ} (A : Type ℓ) : Type ℓ where
  ok : A → Result A
  err : GoError → Result A
