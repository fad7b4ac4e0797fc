-- ===== src/Persist.antt =====
-- The snapshot of the persisted maps: statestore.Snapshot of internal/statestore/store.go, and
-- applySnapshot, exportSnapshot and mapValues of internal/server/persist.go.
pub mod Key
pub mod Recovery
use nico_core_mock.Persist.Key
use nico_core_mock.GoMap.{GoMap, Runtime, range_values}
use nico_core_mock.GoMap.Load.{load}
use nico_core_mock.Message.Compute.{Instance, InstanceType, Machine, OperatingSystem, OsImage}
use nico_core_mock.Message.Network.{NetworkSegment, Vpc, VpcPeering, VpcPrefix}
use nico_core_mock.Prelude.{List, Option, none, some, ℕ}
use nico_core_mock.Server.{Server}

pub record Snapshot : Type 0 where
  pub version : ℕ
  pub vpcs : List Vpc
  pub network_segments : List NetworkSegment
  pub instances : List Instance
  pub machines : List Machine
  pub vpc_prefixes : List VpcPrefix
  pub vpc_peerings : List VpcPeering
  pub os_images : List OsImage
  pub operating_systems : List OperatingSystem
  pub instance_types : List InstanceType

abbrev pub state_version : ℕ
state_version = 1

-- The nine maps of the server that a snapshot holds.
pub record Persisted : Type 0 where
  pub v : GoMap Vpc
  pub ns : GoMap NetworkSegment
  pub ins : GoMap Instance
  pub m : GoMap Machine
  pub vp : GoMap VpcPrefix
  pub vpp : GoMap VpcPeering
  pub osi : GoMap OsImage
  pub oss : GoMap OperatingSystem
  pub it : GoMap InstanceType

abbrev pub persisted : Server → Persisted
persisted f = record {
  v = f.v;
  ns = f.ns;
  ins = f.ins;
  m = f.m;
  vp = f.vp;
  vpp = f.vpp;
  osi = f.osi;
  oss = f.oss;
  it = f.it;
}

-- One loop for each list of the snapshot.
unfoldable pub apply_snapshot : Option Snapshot → Server → Server
apply_snapshot none f = f
apply_snapshot (some snap) f = record f {
  v = load Key.vpc snap.vpcs f.v;
  ns = load Key.segment snap.network_segments f.ns;
  ins = load Key.instance_id snap.instances f.ins;
  m = load Key.machine snap.machines f.m;
  vp = load Key.prefix_id snap.vpc_prefixes f.vp;
  vpp = load Key.peering snap.vpc_peerings f.vpp;
  osi = load Key.image snap.os_images f.osi;
  oss = load Key.system snap.operating_systems f.oss;
  it = load Key.instance_type snap.instance_types f.it;
}

unfoldable pub export_snapshot : Runtime → Persisted → Snapshot
export_snapshot go f = record {
  version = state_version;
  vpcs = range_values go f.v;
  network_segments = range_values go f.ns;
  instances = range_values go f.ins;
  machines = range_values go f.m;
  vpc_prefixes = range_values go f.vp;
  vpc_peerings = range_values go f.vpp;
  os_images = range_values go f.osi;
  operating_systems = range_values go f.oss;
  instance_types = range_values go f.it;
}
