-- ===== src/Tools.antt =====
-- The tools that the server offers, internal/tools.
pub mod Api
pub mod Handler
pub mod Account
pub mod Addresses
pub mod Domains
pub mod Messages
pub mod Drafts
pub mod Events
pub mod Register
pub mod Gates
pub mod Names
pub mod Headers
pub mod Sender
pub mod Validation
pub mod Listing
pub mod Paging
