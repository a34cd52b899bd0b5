-- ===== src/Proterr/Mapping.antt =====
-- proterr.go: classifying errors, and mapping them to stable codes.
use protonmail_mcp.Common.{
  ℕ, String, Bool, false, Option, none, some, ◌<>◌, ◌==◌, ◌&&◌, ◌||◌, leb, nat_eq, lookup, codes,
  if◌then◌else◌,
}
use protonmail_mcp.Common.Strconv.{ℤ, pos, atoi_codes, trim_space}
use protonmail_mcp.Proterr.Chain.{
  no_session, keyring_locked, keyring_unlock_scope, totp_rejected, body_undecryptable,
  address_keyring_missing, ApiError, Headers, Error, GoError, find_first, errors_is,
  pick_api_pointer, pick_api, pick_http, pick_net,
}
use protonmail_mcp.Proterr.Text.{status_text, error_text}

-- What go-proton-api says of a human-verification challenge: `IsHVError`, and the token and the
-- methods of `GetHVDetails` when it gives any. `auth_refresh_token_invalid` and `password_wrong`
-- are its error codes of those names.
pub record HvDetails : Type 0 where
  pub token : String
  pub methods : String

pub record ApiCodes : Type 0 where
  pub is_hv_error : ApiError → Bool
  pub hv_details : ApiError → Option HvDetails
  pub auth_refresh_token_invalid : ℕ
  pub password_wrong : ℕ

-- `extractAPIError`: a pointer anywhere in the chain is taken before a value.
unfoldable pub extract_api_error : GoError → Option ApiError
unfolding find_first
extract_api_error e = elim (find_first pick_api_pointer e) [
  | some a ↦ some a
  | none ↦ find_first pick_api e
]

abbrev pub plain : String → String → Error
plain code message = record {
  code = code;
  message = message;
  hint = "";
  retry_after_seconds = pos 0;
}

abbrev pub hinted : String → String → String → Error
hinted code message hint = record {
  code = code;
  message = message;
  hint = hint;
  retry_after_seconds = pos 0;
}

-- `strconv.Atoi(strings.TrimSpace(headers.Get("Retry-After")))`, the error dropped
unfoldable pub retry_after : Option Headers → ℤ
unfolding lookup atoi_codes trim_space
retry_after none = pos 0
retry_after (some headers) = elim (lookup "Retry-After" headers) [
  | none ↦ pos 0
  | some v ↦ (atoi_codes (trim_space (codes v))).number
]

abbrev pub limited : ℤ → Error
limited delay = record {
  code = "proton/rate_limited";
  message = "Rate limited by Proton.";
  hint = "";
  retry_after_seconds = delay;
}

unfoldable pub map_status : ℕ → Option Headers → Error
map_status status headers =
    if nat_eq status 401
    then hinted "proton/auth_required" "Session expired or unauthenticated."
        "Run `protonmail-mcp login` interactively, then retry."
    else if nat_eq status 402
    then plain "proton/plan_required" "This feature is not available on your Proton plan."
    else if nat_eq status 403
    then plain "proton/permission_denied" "Permission denied."
    else if nat_eq status 404
    then plain "proton/not_found" "Resource not found."
    else if nat_eq status 409
    then plain "proton/conflict" "Resource already exists or is in conflict."
    else if nat_eq status 422 || nat_eq status 400
    then plain "proton/validation" "Request rejected by Proton."
    else if nat_eq status 429
    then limited (retry_after headers)
    else if leb 500 status
    then plain "proton/upstream" "Proton API unavailable."
    else plain "proton/upstream" (status_text status)

-- The last resort, also of a transport error.
unfoldable pub upstream : GoError → Error
upstream e = hinted "proton/upstream" "Proton API unavailable." (error_text e)

unfoldable pub hv_error : ApiCodes → ApiError → Error
hv_error codes_of a =
    hinted "proton/captcha" "Human verification required." (elim (codes_of.hv_details a) [
      | none ↦ "Open the verification URL in a browser, then re-run `protonmail-mcp login`."
      | some d ↦
          if d.token == ""
          then "Open the verification URL in a browser, then re-run `protonmail-mcp login`."
          else "Human verification token=" <> d.token <> " methods=" <> d.methods
            <> ". Open https://verify.proton.me/?methods=" <> d.methods <> "&token=" <> d.token
            <> " in a browser, complete the challenge, then re-run `protonmail-mcp login`."
    ])

abbrev pub scope_error : Error
scope_error =
    hinted "proton/keyring_unlock_scope"
      ("This session can't unlock the mailbox keyring, so all decryption "
        <> "(message bodies and calendar events) fails.")
      ("Re-run `protonmail-mcp login` and complete two-factor to obtain a "
        <> "full-scope session.")

abbrev pub totp_error : Error
totp_error =
    hinted "proton/2fa_rejected"
      ("Proton rejected the two-factor code. The password was accepted, "
        <> "but the TOTP did not verify.")
      ("Check that the otpauth secret matches this account's current "
        <> "authenticator, and that the host clock is synced (TOTP is time-based; "
        <> "a clock skew over ~30s rejects every code). Then re-run `protonmail-mcp login`.")

-- The sentinels that are checked after the typed errors.
unfoldable pub from_sentinels : GoError → Error
from_sentinels e =
    if errors_is e no_session
    then hinted "proton/auth_required" "No session — run `protonmail-mcp login`."
        "Run `protonmail-mcp login` interactively, then retry."
    else if errors_is e body_undecryptable
    then hinted "proton/body_undecryptable"
        "This message body could not be decrypted with the available keys."
        "Fetch the message without include_body, or inspect raw_headers instead"
    else if errors_is e address_keyring_missing
    then hinted "proton/address_keyring_missing"
        "No unlocked keyring for that address; it may be disabled or the address ID may be wrong."
        "Call proton_list_addresses and use the ID of an enabled address."
    else if errors_is e keyring_locked
    then hinted "proton/keyring_locked" "Could not unlock or use the mailbox keyring."
        "Verify the mailbox password (two-password accounts) and re-run `protonmail-mcp login`"
    else upstream e

-- The probes for a raw HTTP error and for a transport error.
unfoldable pub from_transport : GoError → Error
unfolding find_first
from_transport e = elim (find_first pick_http e) [
  | some h ↦ map_status h.status (some h.headers)
  | none ↦ elim (find_first pick_net e) [ some _ ↦ upstream e | none ↦ from_sentinels e ]
]

unfoldable pub from_api : ApiCodes → GoError → Error
from_api codes_of e = elim (extract_api_error e) [
  | none ↦ from_transport e
  | some a ↦
      if codes_of.is_hv_error a
      then hv_error codes_of a
      else if nat_eq a.status 0
      then from_transport e
      else map_status a.status none
]

-- `errToMCP` of an error that is not nil (nil is mapped to nil); `Map` is its public name.
unfoldable pub err_to_mcp : ApiCodes → GoError → Error
err_to_mcp codes_of e =
    if errors_is e keyring_unlock_scope
    then scope_error
    else if errors_is e totp_rejected
    then totp_error
    else from_api codes_of e

-- `RefreshRejected`
unfoldable pub refresh_rejected : ApiCodes → GoError → Bool
refresh_rejected codes_of e = elim (extract_api_error e) [
  | none ↦ false
  | some a ↦ nat_eq a.status 401 || nat_eq a.code codes_of.auth_refresh_token_invalid
]

abbrev pub scope_denied_code : ℕ
scope_denied_code = 9100

-- `ScopeDenied`
unfoldable pub scope_denied : GoError → Bool
scope_denied e = elim (extract_api_error e) [
  | none ↦ false
  | some a ↦ nat_eq a.status 403 && nat_eq a.code scope_denied_code
]

-- `IsTOTPRejected`
unfoldable pub is_totp_rejected : ApiCodes → GoError → Bool
is_totp_rejected codes_of e = elim (extract_api_error e) [
  | none ↦ false
  | some a ↦ nat_eq a.code codes_of.password_wrong
]

unfoldable pub writes_disabled : Error
writes_disabled = hinted "proton/writes_disabled" "Writes are disabled." (
    "Set PROTONMAIL_MCP_ENABLE_WRITES=1 (and PROTONMAIL_MCP_ENABLE_DANGEROUS=1 for permanent "
    <> "delete) and restart the MCP server.")
