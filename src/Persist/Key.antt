-- ===== src/Persist/Key.antt =====
-- The ids under which internal/server/persist.go stores the messages of a snapshot; nil where a
-- message has none.
use nico_core_mock.Message.Compute.{Instance, InstanceType, Machine, OperatingSystem, OsImage}
use nico_core_mock.Message.Network.{NetworkSegment, Vpc, VpcPeering, VpcPrefix}
use nico_core_mock.Prelude.{Option, String, none, some}

abbrev pub vpc : Vpc → Option String
vpc x = x.id

abbrev pub segment : NetworkSegment → Option String
segment x = x.id

abbrev pub instance_id : Instance → Option String
instance_id x = x.id

abbrev pub machine : Machine → Option String
machine x = x.id

abbrev pub prefix_id : VpcPrefix → Option String
prefix_id x = x.id

abbrev pub peering : VpcPeering → Option String
peering x = x.id

abbrev pub image : OsImage → Option String
image x = elim x.attributes [ none ↦ none | some a ↦ a.id ]

abbrev pub system : OperatingSystem → Option String
system x = x.id

abbrev pub instance_type : InstanceType → Option String
instance_type x = some x.id
