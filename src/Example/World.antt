-- ===== src/Example/World.antt =====
-- A small mock: what its calls are given, and a server with a VPC, an instance and two machines.
use nico_core_mock.Env.{Env, ipv4}
use nico_core_mock.GoMap.{Runtime, put}
use nico_core_mock.GoMap.Keyed.{IsKeyed-empty, IsKeyed-put}
use nico_core_mock.Message.Compute.{Instance, InstanceType, Machine, provisioning}
use nico_core_mock.Message.Network.{Vpc}
use nico_core_mock.Persist.{persisted}
use nico_core_mock.Persist.Recovery.{IsConsistent, fresh_server}
use nico_core_mock.Prelude.{[], none, refl, some, true, ◌==◌, ◌∷◌}
use nico_core_mock.Rpc.Consistent.Fresh.{IsFresh}
use nico_core_mock.Server.{Server}

-- Maps are visited in the order of their entries, and a sort leaves a list as it is.
abbrev pub runtime : Runtime
runtime = record {
  visit = λ ks. ks;
  visit-count = λ k ks. refl;
  sort = λ ks. ks;
  sort-count = λ k ks. refl;
}

abbrev pub env : Env
env = record {
  go = runtime;
  uuid = "5f0c";
  now = "2024-01-01T00:00:00Z";
  nanos = "1704067200000000000";
  trim_space = λ x. x;
  equal_fold = λ a b. a == b;
  is_powered_on = λ x. x == "machine-1";
  ensure_discovery = λ x. x;
  host_discovery = λ x. none;
  parse_cidr = λ x. ipv4 167772160 24;
  show_ip = λ n. "10.0.0.7";
  random_mac = λ n. "02:00:00:00:00:01";
  random_ip = λ n. "192.0.2.1";
  random_uint32 = λ n. 7;
  random_vf = λ n. n;
  not_found_text = λ id. id;
}

abbrev pub machine_1 : Machine
machine_1 = record {
  id = some "machine-1";
  state = "Ready";
  interfaces = "02:00:00:00:00:aa" ∷ [];
  discovery_info = none;
  instance_type_id = none;
}

abbrev pub machine_2 : Machine
machine_2 = record machine_1 { id = some "machine-2" }

abbrev pub instance_1 : Instance
instance_1 = record {
  id = some "instance-1";
  machine_id = some "machine-1";
  config = none;
  status = some (record { tenant = some provisioning; interfaces = [] });
  metadata = none;
  config_version = "1";
}

abbrev pub type_1 : InstanceType
type_1 = record { id = "dgx"; attributes = none; metadata = none; version = "1"; created_at = none }

abbrev pub vpc_1 : Vpc
vpc_1 = record {
  id = some "vpc-1";
  name = "red";
  tenant_organization_id = "org";
  network_virtualization_type = none;
  routing_profile_type = none;
  network_security_group_id = none;
  status = none;
}

abbrev pub server : Server
server = record (fresh_server true) {
  v = put "vpc-1" vpc_1 [];
  ins = put "instance-1" instance_1 [];
  m = put "machine-1" machine_1 (put "machine-2" machine_2 []);
  it = put "dgx" type_1 [];
}

pub server-IsConsistent : IsConsistent (persisted server)
server-IsConsistent = record {
  v = IsKeyed-put "vpc-1" vpc_1 [] IsKeyed-empty refl refl;
  ns = IsKeyed-empty;
  ins = IsKeyed-put "instance-1" instance_1 [] IsKeyed-empty refl refl;
  m =
      IsKeyed-put "machine-1" machine_1 (put "machine-2" machine_2 [])
        (IsKeyed-put "machine-2" machine_2 [] IsKeyed-empty refl refl) refl refl;
  vp = IsKeyed-empty;
  vpp = IsKeyed-empty;
  osi = IsKeyed-empty;
  oss = IsKeyed-empty;
  it = IsKeyed-put "dgx" type_1 [] IsKeyed-empty refl refl;
}

pub env-IsFresh : IsFresh env
env-IsFresh = record { uuid = refl; ensured = λ x. refl }
