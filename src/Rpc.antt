-- ===== src/Rpc.antt =====
-- The handler of a request, as the generated gRPC server calls it: the server afterwards, and how
-- the call ended.
pub mod Request
pub mod Method
pub mod Step
pub mod Consistent
pub mod Frame
pub mod Refused
pub mod ReadOnly
pub mod Peered
pub mod Imaged
