-- ===== src/Proterr.antt =====
-- internal/proterr: the errors of the program, and their mapping to stable codes.
pub mod Chain
pub mod Text
pub mod Mapping
pub mod Wrapping
pub mod Codes
