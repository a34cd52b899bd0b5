-- ===== src/Proterr/Text.antt =====
-- What `err.Error()` returns.
use protonmail_mcp.Common.{
  ℕ, String, none, some, List, [], ◌∷◌, ◌<>◌, ◌==◌, lookup_nat, if◌then◌else◌,
}
use protonmail_mcp.Proterr.Chain.{
  Sentinel, keychain_not_found, not_exist, no_session, keyring_locked, keyring_unlock_scope,
  totp_rejected, body_undecryptable, address_keyring_missing, session_inconsistent, totp_required,
  mailbox_password_required, status_degraded, server_closed, HttpError, Error, GoError, text,
  mapped, absent, sentinel, api, api_pointer, http, net, dbus, exit, wrap, both, join,
}

-- The phrases of `http.StatusText`.
abbrev status_phrases : List (ℕ × String)
status_phrases =
    (100, "Continue")
    ∷ (101, "Switching Protocols")
    ∷ (102, "Processing")
    ∷ (103, "Early Hints")
    ∷ (200, "OK")
    ∷ (201, "Created")
    ∷ (202, "Accepted")
    ∷ (203, "Non-Authoritative Information")
    ∷ (204, "No Content")
    ∷ (205, "Reset Content")
    ∷ (206, "Partial Content")
    ∷ (207, "Multi-Status")
    ∷ (208, "Already Reported")
    ∷ (226, "IM Used")
    ∷ (300, "Multiple Choices")
    ∷ (301, "Moved Permanently")
    ∷ (302, "Found")
    ∷ (303, "See Other")
    ∷ (304, "Not Modified")
    ∷ (305, "Use Proxy")
    ∷ (307, "Temporary Redirect")
    ∷ (308, "Permanent Redirect")
    ∷ (400, "Bad Request")
    ∷ (401, "Unauthorized")
    ∷ (402, "Payment Required")
    ∷ (403, "Forbidden")
    ∷ (404, "Not Found")
    ∷ (405, "Method Not Allowed")
    ∷ (406, "Not Acceptable")
    ∷ (407, "Proxy Authentication Required")
    ∷ (408, "Request Timeout")
    ∷ (409, "Conflict")
    ∷ (410, "Gone")
    ∷ (411, "Length Required")
    ∷ (412, "Precondition Failed")
    ∷ (413, "Request Entity Too Large")
    ∷ (414, "Request URI Too Long")
    ∷ (415, "Unsupported Media Type")
    ∷ (416, "Requested Range Not Satisfiable")
    ∷ (417, "Expectation Failed")
    ∷ (418, "I'm a teapot")
    ∷ (421, "Misdirected Request")
    ∷ (422, "Unprocessable Entity")
    ∷ (423, "Locked")
    ∷ (424, "Failed Dependency")
    ∷ (425, "Too Early")
    ∷ (426, "Upgrade Required")
    ∷ (428, "Precondition Required")
    ∷ (429, "Too Many Requests")
    ∷ (431, "Request Header Fields Too Large")
    ∷ (451, "Unavailable For Legal Reasons")
    ∷ (500, "Internal Server Error")
    ∷ (501, "Not Implemented")
    ∷ (502, "Bad Gateway")
    ∷ (503, "Service Unavailable")
    ∷ (504, "Gateway Timeout")
    ∷ (505, "HTTP Version Not Supported")
    ∷ (506, "Variant Also Negotiates")
    ∷ (507, "Insufficient Storage")
    ∷ (508, "Loop Detected")
    ∷ (510, "Not Extended")
    ∷ (511, "Network Authentication Required")
    ∷ []

-- `http.StatusText`, "" for a status that it does not know.
unfoldable pub status_text : ℕ → String
unfolding lookup_nat
status_text status = elim (lookup_nat status status_phrases) [ none ↦ "" | some s ↦ s ]

-- The messages of the sentinels.
unfoldable pub sentinel_text : Sentinel → String
sentinel_text keychain_not_found = "credential not stored"
sentinel_text not_exist = "file does not exist"
sentinel_text no_session = "no session in keychain"
sentinel_text keyring_locked = "keyring locked or unusable"
sentinel_text keyring_unlock_scope = "session lacks keyring-unlock scope"
sentinel_text totp_rejected = "two-factor code rejected"
sentinel_text body_undecryptable = "message body is not decryptable"
sentinel_text address_keyring_missing = "no unlocked keyring for address"
sentinel_text session_inconsistent =
    "session state inconsistent (prior login rollback failed to clear keychain); "
    <> "run `protonmail-mcp logout` then `protonmail-mcp login`"
sentinel_text totp_required = "2FA required but no TOTP provided"
sentinel_text mailbox_password_required =
    "mailbox password required (two-password mode) but none provided"
sentinel_text status_degraded = "token persistence degraded"
sentinel_text server_closed = "http: Server closed"

-- `(*HTTPError).Error`
unfoldable pub http_error_text : HttpError → String
unfolding status_text
http_error_text h =
    if h.body == "" then status_text h.status else status_text h.status <> ": " <> h.body

-- `(*Error).Error`
unfoldable pub message_text : Error → String
message_text e =
    if e.hint == ""
    then e.code <> ": " <> e.message
    else e.code <> ": " <> e.message <> " (" <> e.hint <> ")"

unfoldable pub error_text : GoError → String
unfolding sentinel_text http_error_text message_text
error_text (text s) = s
error_text (absent s) = s
error_text (sentinel s) = sentinel_text s
error_text (api a) = a.text
error_text (api_pointer a) = a.text
error_text (http h) = http_error_text h
error_text (mapped x) = message_text x
error_text (net s _) = s
error_text (dbus _ message) = message
error_text (exit _ message) = message
error_text (wrap before e after) = before <> error_text e <> after
error_text (both before e between f after) =
    before <> error_text e <> between <> error_text f <> after
error_text (join e f) = error_text e <> "\n" <> error_text f
