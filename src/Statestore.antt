-- ===== src/Statestore.antt =====
-- internal/statestore: the file that keeps the persisted maps across restarts.
pub mod Methods
pub mod Wire
pub mod Disk
pub mod Atomic
