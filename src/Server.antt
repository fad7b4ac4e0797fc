-- ===== src/Server.antt =====
-- `NICoServerImpl` (internal/server/forge_server.go): the maps of the mock, the links from the
-- inventory, and the goroutines that the handlers have started. The maps of tenant identities stand
-- in Identity.
use nico_core_mock.GoMap.{GoMap}
use nico_core_mock.Message.Compute.{Instance, InstanceType, Machine, OperatingSystem, OsImage}
use nico_core_mock.Message.Expected.{
  ExpectedMachine, ExpectedPowerShelf, ExpectedRack, ExpectedSwitch, LinkedExpectedMachine,
}
use nico_core_mock.Message.Fabric.{IbPartition, NvlinkPartition, Tenant, TenantKeyset}
use nico_core_mock.Message.Network.{
  NetworkSecurityGroup, NetworkSegment, Vpc, VpcPeering, VpcPrefix,
}
use nico_core_mock.Prelude.{Bool, List, String, ℕ}
use nico_core_mock.Reply.{Reply}

-- `libvirt.ProvisionRequest`
pub record ProvisionRequest : Type 0 where
  pub machine_id : String
  pub instance_id : String
  pub instance_name : String
  pub image_url : String
  pub image_digest : String
  pub image_capacity_bytes : ℕ
  pub user_data : String

-- a `go func` on the provisioner
pub data Job : Type 0 where
  provision_machine : ProvisionRequest → Job
  release_machine : String → Job

pub record Server : Type 0 where
  pub v : GoMap Vpc
  pub ns : GoMap NetworkSegment
  pub ins : GoMap Instance
  pub m : GoMap Machine
  pub tk : GoMap TenantKeyset
  pub ibp : GoMap IbPartition
  pub nvlp : GoMap NvlinkPartition
  pub em : GoMap ExpectedMachine
  pub eps : GoMap ExpectedPowerShelf
  pub es : GoMap ExpectedSwitch
  pub er : GoMap ExpectedRack
  pub tt : GoMap Tenant
  pub vp : GoMap VpcPrefix
  pub vpp : GoMap VpcPeering
  pub osi : GoMap OsImage
  pub oss : GoMap OperatingSystem
  pub it : GoMap InstanceType
  pub nsg : GoMap NetworkSecurityGroup
  pub linked_expected_machines : List LinkedExpectedMachine
  -- `provisioner != nil && provisioner.Enabled()`
  pub provisioner : Bool
  pub jobs : List Job

-- A handler, given its request: the server afterwards and the reply.
abbrev pub Handler : Type 0 → Type 0
Handler A = Server → Server × Reply A
