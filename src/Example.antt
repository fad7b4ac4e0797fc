-- ===== src/Example.antt =====
-- A small mock to try the theorems on, and the runs themselves.
pub mod World
pub mod Disk
pub mod Runs
pub mod Calls
pub mod Stored
pub mod Keys
pub mod Listed
pub mod Cached
pub mod Released
pub mod Booted
