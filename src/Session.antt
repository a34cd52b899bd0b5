-- ===== src/Session.antt =====
-- internal/session: the owner of the Proton client, the raw client and the stored credentials.
pub mod State
pub mod Capture
pub mod Totp
pub mod Login
pub mod Relogin
pub mod Access
pub mod Status
pub mod Rules
pub mod Calls
pub mod Atomicity
pub mod Attempts
pub mod Coherence
pub mod Wiping
pub mod Recovery
pub mod Persistence
pub mod Logout
pub mod Poison
pub mod Rotation
pub mod Rollback
pub mod Codes
pub mod TotpCodes
