-- ===== src/Tests.antt =====
-- The statements at concrete inputs: a small backend, and each theorem applied to it.
mod Model
mod Sessions
mod Stores
mod Disks
mod Edges
mod Mailbox
mod Tools
mod Wire
mod Commands
