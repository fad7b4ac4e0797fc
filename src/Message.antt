-- ===== src/Message.antt =====
-- The protobuf messages of the Forge API (generated code, not in this repository): of each message
-- the fields that the handlers read or write. A nil pointer is `none`.
pub mod Network
pub mod Compute
pub mod Fabric
pub mod Expected
pub mod Identity
use nico_core_mock.Prelude.{String}

-- A part of a message that the handlers only copy or compare with nil.
abbrev pub Payload : Type 0
Payload = String
