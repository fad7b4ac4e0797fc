-- ===== src/Forge/Expect.antt =====
-- The expected hardware inventory of internal/server/forge_server.go.
pub mod Machine
pub mod Batch
pub mod Linked
pub mod Shelf
pub mod Switch
pub mod Rack
