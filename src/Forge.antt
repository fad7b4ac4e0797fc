-- ===== src/Forge.antt =====
-- The gRPC handlers of internal/server, one module for each kind of resource.
pub mod Ids
pub mod Vpc
pub mod Segment
pub mod Prefix
pub mod Peering
pub mod SecurityGroup
pub mod Nvlink
pub mod Ib
pub mod Tenants
pub mod Keyset
pub mod Instances
pub mod Machines
pub mod Types
pub mod Images
pub mod Systems
pub mod Expect
pub mod Listing
