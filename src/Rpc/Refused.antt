-- ===== src/Rpc/Refused.antt =====
-- Calls that end with a status error.
pub mod Kept
pub mod Other
pub mod Steps
