-- ===== src/Rpc/Consistent.antt =====
-- The ids under which the handlers store the messages of the persisted maps.
pub mod Fresh
pub mod Network
pub mod Compute
pub mod Machines
pub mod Images
pub mod Steps
