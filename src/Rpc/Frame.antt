-- ===== src/Rpc/Frame.antt =====
-- Which maps of the server a handler may change.
pub mod Kept
pub mod Other
