-- ===== src/Lib.antt =====
-- protonmail-mcp: an MCP server that hands a Proton Mail account to an assistant. This development
-- models the part of it that owns the account, which is the session, the credential stores, the
-- keyrings and the errors that tools report, as well as the tools, the server and the commands.
--
-- How the parts interact. The tools ask the session for a client, for the raw HTTP client or for
-- unlocked keyrings. A command makes one session, and the server serves the tools on it. The
-- session refreshes a stored token on first use, logs in again from stored credentials when Proton
-- refuses it, writes every new token to a credential store, and keeps decrypted keys for its
-- lifetime. Errors of all of these are wrapped with context and mapped to stable codes at the
-- boundary.
--
-- Which file models what:
--   Proterr/Chain, Proterr/Text, Proterr/Mapping: internal/proterr. A Go error is a tree (`GoError`);
--     `errors.Is` and `errors.As` search it; `err_to_mcp` is `errToMCP`. Codes and Wrapping hold what
--     is proved of it.
--   Exec: actions, that is functions from a world to a result and the world after; Exec/Rules holds
--     the rules for invariants of actions.
--   Store: the interface `Store` of internal/session/session.go and what a session may expect of it.
--   Keychain: internal/keychain/keychain.go over go-keyring (`Ring`, with its documented behaviour in
--     `RingLaws`); Keychain/Contents shows that it is a store.
--   Credfile: internal/credfile/credfile.go over the calls of `os` (`Files`, with their documented
--     behaviour in Credfile/Laws); Credfile/Merging and Credfile/Contents show that it is a store.
--   Selection: internal/session/select.go and internal/credfile/path.go.
--   Server/Transport: internal/server/transport.go and `bearerAuth` of internal/server/sse.go.
--   Log: internal/log/log.go, over log/slog; Log/Redaction holds what is proved of it.
--   Server/Serving: internal/server/server.go and the lifecycle of internal/server/sse.go.
--   Command, Command/Login, Command/Run: cmd/protonmail-mcp, over a console and the environment
--     (`Machine`); Command/Stored and Command/Exit hold what is proved of it.
--   Keyring: internal/keyring/keyring.go; Calendar: internal/calendar/keyring.go.
--   Calendar/Decrypt: internal/calendar/decrypt.go and parse.go; Calendar/Recurrence:
--     internal/calendar/recurrence.go, with an independent description in Calendar/Recurrence/Reference.
--   Protonraw: internal/protonraw, over resty and encoding/json (`Web`). Protonraw/Errors and
--     Protonraw/Paths hold what is proved of it.
--   Tools/Api: what the tools use of go-proton-api (`Api`, whose behaviour is not assumed). A call may
--     run the client's auth handler, so it acts on the whole session.
--   Tools/Handler: internal/tools/tools.go, and the other parameters of the handlers (`Deps`).
--   Tools/Account (identity.go, labels.go, keys.go, settings.go), Tools/Addresses, Tools/Domains,
--     Tools/Messages (messages.go, organize.go), Tools/Drafts, Tools/Events (calendar.go): the handlers
--     of internal/tools, one function each. Tools/Register: which of them the server has.
--   Tools/Gates (with Laws, Reads, Writes), Tools/Names, Tools/Validation, Tools/Sender, Tools/Headers,
--     Tools/Paging, Tools/Listing: proofs about the tools.
--   Session/State: the fields of `Session`, the raw client of internal/session/raw.go, and the
--     operations of go-proton-api and gopenpgp (`Backend`), whose behaviour is not assumed.
--   Session/Capture: internal/session/auth2fa_capture.go; Session/Totp: internal/session/totp.go.
--   Session/Login, Session/Relogin, Session/Access, Session/Status: `loginLocked`, `Logout`,
--     `reloginLocked`, `Client`, `Raw`, `OnAuthRotated`, `Keyrings`, `CalendarKeyring` and `Status` of
--     internal/session/session.go. Session/Calls runs sequences of them.
--   The other modules of these hold proofs, and Tests a small backend and the instances.
--
-- Bounds and fuel. No definition needs fuel: the loops are structural recursion on lists. One-time
-- codes are computed over natural numbers, since no step of them leaves 32 bits. The index
-- arithmetic of a code may run out of range for a short digest; a digest of SHA-1 has 20 bytes. An
-- iterator of rrule-go ends, by the year 9999 at the latest, and is the list of its times. An `int`
-- that is printed has at most nineteen digits, and the printing has fuel for that.
--
-- Not modelled: logging, contexts and cancellation, the seams for tests, the wiping of password
-- buffers, file modes, the descriptions and schemas of the tools, signals, and the recording and
-- replay of cassettes. Operations run one at a time; where the code lets its lock go within one, Session/Rotation interleaves the
-- two halves with other calls. The auth handler runs as the calls of an unlock end, since none of
-- them reads the session or the store.
pub mod Common
pub mod Proterr
pub mod Exec
pub mod Keychain
pub mod Store
pub mod Keyring
pub mod Calendar
pub mod Session
pub mod Protonraw
pub mod Tools
pub mod Log
pub mod Command
pub mod Credfile
pub mod Selection
pub mod Server
pub mod Tests
