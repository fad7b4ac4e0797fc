-- ===== src/Example/Runs.antt =====
-- The theorems at work on the small mock.
use nico_core_mock.Env.{Env}
use nico_core_mock.Example.Disk.{
  Disk, Doc, Raw, codecs, disk-IsWorking, file_system, full_disk, service, state_file, vpc_text,
}
use nico_core_mock.Example.World.{env, env-IsFresh, runtime, server, server-IsConsistent, vpc_1}
use nico_core_mock.Forge.Ids.{choose_id}
use nico_core_mock.Forge.Types.{delete_instance_type}
use nico_core_mock.Forge.Vpc.{create_vpc}
use nico_core_mock.GoMap.{delete, get, put}
use nico_core_mock.Message.Compute.{InstanceAllocationRequest}
use nico_core_mock.Message.Network.{VpcCreationRequest}
use nico_core_mock.Persist.{Snapshot, apply_snapshot, export_snapshot, persisted, state_version}
use nico_core_mock.Persist.Recovery.{
  IsConsistent, SamePersisted, apply_snapshot-export_snapshot, fresh_server,
}
use nico_core_mock.Prelude.{
  List, [], ap, arith, empty_text, none, refl, some, sym, true, value, ◌∷◌, ◌≡◌,
}
use nico_core_mock.Reply.{not_found}
use nico_core_mock.Rpc.Consistent.Compute.{IsSound}
use nico_core_mock.Rpc.Consistent.Steps.{step-IsConsistent}
use nico_core_mock.Rpc.Method.{method_name}
use nico_core_mock.Rpc.ReadOnly.{step-read_only}
use nico_core_mock.Rpc.Refused.Steps.{step-refused}
use nico_core_mock.Rpc.Request.{Request}
use nico_core_mock.Rpc.Step.{step}
use nico_core_mock.Serve.{intercept, serve, start}
use nico_core_mock.Serve.Durable.{AreSound, IsDurable, intercept-IsDurable, serve-IsDurable}
use nico_core_mock.Serve.Restart.{Restored, restart-Restored}
use nico_core_mock.Server.{Server}
use nico_core_mock.Statestore.Atomic.{load_file-save, read_file-save_failed}
use nico_core_mock.Statestore.Disk.{
  empty_snapshot, encode, load_file, make_dir, replace_file, save, versioned, write_and_replace,
  write_out,
}
use nico_core_mock.Statestore.Methods.{
  after_last_slash, has_read_only_prefix, is_mutating_method, is_mutating_name, method_base_name,
}
use nico_core_mock.Statestore.Wire.{
  SnapshotWire, marshal_proto_slice, snapshot_to_wire, wire_to_snapshot,
  wire_to_snapshot-snapshot_to_wire,
}

abbrev start_snapshot : Snapshot
unfolding export_snapshot
start_snapshot = export_snapshot runtime (persisted server)

-- The state file of the server.
abbrev disk : Disk
disk = (save file_system codecs state_file (some start_snapshot) []).0

server-IsDurable : IsDurable file_system codecs state_file service (server, disk)
unfolding export_snapshot
server-IsDurable = record {
  consistent = server-IsConsistent;
  saved = record {
    go = runtime;
    reads_back =
        load_file-save file_system codecs state_file start_snapshot [] refl
          (disk-IsWorking start_snapshot []);
  };
}

abbrev new_vpc_request : VpcCreationRequest
new_vpc_request = record {
  id = none;
  name = "blue";
  tenant_organization_id = "org";
  network_virtualization_type = none;
  routing_profile_type = none;
  network_security_group_id = none;
  vni = some 7;
}

abbrev nil_config_request : InstanceAllocationRequest
nil_config_request = record {
  instance_id = none;
  machine_id = some "machine-1";
  config = none;
  metadata = none;
}

-- A VPC is created, a type that is not there is deleted, an instance is released, and an allocation
-- without a configuration crashes.
abbrev pub calls : List (Env × Request)
calls =
    (env, Request.create_vpc (some new_vpc_request))
    ∷ (env, Request.delete_instance_type (some "no-such-type"))
    ∷ (env, Request.release_instance (some (some "instance-1")))
    ∷ (env, Request.allocate_instance (some nil_config_request))
    ∷ []

pub request-IsSound : IsSound nil_config_request
request-IsSound = record {
  instance_id = λ id p. absurd (ground arith);
  machine_id = λ mid p. ap (λ o. empty_text (value o)) (sym p);
}

calls-AreSound : AreSound file_system codecs state_file service calls
calls-AreSound = (
  env-IsFresh,
  tt,
  refl,
  (env-IsFresh, tt, refl, (env-IsFresh, tt, refl, (env-IsFresh, request-IsSound, refl, tt))),
)

restart-Restored_example :
    (g : Server) × (start file_system codecs state_file service env none true
        (serve file_system codecs state_file service calls server disk).1
      ≡ some g)
    × Restored (serve file_system codecs state_file service calls server disk).0 g
restart-Restored_example =
    restart-Restored file_system codecs state_file service calls server disk env none true refl
      disk-IsWorking calls-AreSound server-IsDurable

serve-IsDurable_example :
    IsDurable file_system codecs state_file service
      (serve file_system codecs state_file service calls server disk)
serve-IsDurable_example =
    serve-IsDurable file_system codecs state_file service calls server disk refl disk-IsWorking
      calls-AreSound server-IsDurable

step-IsConsistent_example :
    IsConsistent (persisted (step env (Request.create_vpc (some new_vpc_request)) server).0)
step-IsConsistent_example =
    step-IsConsistent env (Request.create_vpc (some new_vpc_request)) server env-IsFresh tt
      server-IsConsistent

step-refused_example :
    (step env (Request.delete_instance_type (some "no-such-type")) server).0 ≡ server
unfolding step delete_instance_type get put delete
step-refused_example =
    step-refused env (Request.delete_instance_type (some "no-such-type")) server not_found refl

step-read_only_example : (step env (Request.find_instance_ids (some "all")) server).0 ≡ server
unfolding step is_mutating_method is_mutating_name method_base_name after_last_slash
    has_read_only_prefix method_name
step-read_only_example =
    step-read_only env service (Request.find_instance_ids (some "all")) server refl refl

apply_snapshot-export_snapshot_example :
    SamePersisted
      (persisted
        (apply_snapshot (some (export_snapshot runtime (persisted server))) (fresh_server true)))
      (persisted server)
apply_snapshot-export_snapshot_example =
    apply_snapshot-export_snapshot runtime (persisted server) true server-IsConsistent

abbrev one_vpc_snapshot : Snapshot
one_vpc_snapshot = record empty_snapshot { vpcs = vpc_1 ∷ [] }

abbrev one_vpc_wire : SnapshotWire Raw
one_vpc_wire = record {
  version = state_version;
  vpcs = vpc_text vpc_1 ∷ [];
  network_segments = [];
  instances = [];
  machines = [];
  vpc_prefixes = [];
  vpc_peerings = [];
  os_images = [];
  operating_systems = [];
  instance_types = [];
}

wire_to_snapshot-snapshot_to_wire_example :
    wire_to_snapshot codecs one_vpc_wire ≡ some one_vpc_snapshot
unfolding snapshot_to_wire marshal_proto_slice
wire_to_snapshot-snapshot_to_wire_example =
    wire_to_snapshot-snapshot_to_wire {Raw = Raw} {Doc = Doc} codecs one_vpc_snapshot one_vpc_wire
      refl

load_file-save_example :
    load_file file_system codecs state_file
      (save file_system codecs state_file (some one_vpc_snapshot) disk).0
    ≡ some (versioned one_vpc_snapshot)
load_file-save_example =
    load_file-save file_system codecs state_file one_vpc_snapshot disk refl
      (disk-IsWorking one_vpc_snapshot disk)

read_file-save_failed_example :
    full_disk.read_file state_file (save full_disk codecs state_file (some one_vpc_snapshot) disk).0
    ≡ full_disk.read_file state_file disk
unfolding save write_out write_and_replace replace_file make_dir encode snapshot_to_wire
    marshal_proto_slice
read_file-save_failed_example =
    read_file-save_failed full_disk codecs state_file (some one_vpc_snapshot) disk refl

-- The disk is empty before the call.
intercept-IsDurable_example : IsDurable file_system codecs state_file service (
  (intercept file_system codecs state_file service env
      (Request.create_vpc (some new_vpc_request))
      server
      []).0,
  (intercept file_system codecs state_file service env
      (Request.create_vpc (some new_vpc_request))
      server
      []).1,
)
unfolding step is_mutating_method is_mutating_name method_base_name after_last_slash
    has_read_only_prefix method_name create_vpc choose_id get put delete
intercept-IsDurable_example =
    intercept-IsDurable file_system codecs state_file service env
      (Request.create_vpc (some new_vpc_request)) server [] refl disk-IsWorking env-IsFresh tt
      server-IsConsistent refl refl
