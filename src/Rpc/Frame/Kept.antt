-- ===== src/Rpc/Frame/Kept.antt =====
-- Which persisted maps a handler may change: after each of these it is one or two, named here.
use nico_core_mock.Env.{Env}
use nico_core_mock.Forge.Images.{create_os_image, delete_os_image, update_os_image}
use nico_core_mock.Forge.Instances.{find_instances_by_ids, release_instance, update_instance_config}
use nico_core_mock.Forge.Instances.Jobs.{schedule_libvirt_release}
use nico_core_mock.Forge.Machines.{associate_machines, find_machines_by_ids, remove_association}
use nico_core_mock.Forge.Peering.{create_vpc_peering, delete_vpc_peering}
use nico_core_mock.Forge.Prefix.{create_vpc_prefix, delete_vpc_prefix, update_vpc_prefix}
use nico_core_mock.Forge.Segment.{create_network_segment, delete_network_segment}
use nico_core_mock.Forge.Systems.{create_operating_system, update_operating_system}
use nico_core_mock.Forge.Types.{create_instance_type, delete_instance_type}
use nico_core_mock.Forge.Vpc.{create_vpc, delete_vpc, rename_vpc, update_vpc}
use nico_core_mock.Message.Compute.{
  AssociateRequest, CreateInstanceTypeRequest, CreateOperatingSystemRequest,
  InstanceConfigUpdateRequest, OsImageAttributes, UpdateOperatingSystemRequest,
}
use nico_core_mock.Message.Network.{
  NetworkSegmentCreationRequest, VpcCreationRequest, VpcPeeringCreationRequest,
  VpcPrefixCreationRequest, VpcPrefixUpdateRequest, VpcUpdateRequest,
}
use nico_core_mock.Persist.{persisted}
use nico_core_mock.Prelude.{List, Option, String, arith, none, refl, some, ◌≡◌}
use nico_core_mock.Server.{Server}

pub persisted-create_vpc :
    (e : Env) (q : Option VpcCreationRequest) (f : Server)
    → persisted (create_vpc e q f).0 ≡ record (persisted f) { v = (create_vpc e q f).0.v }
unfolding create_vpc
persisted-create_vpc e none f = refl
persisted-create_vpc e (some q) f = ground arith

pub persisted-update_vpc :
    (q : Option VpcUpdateRequest) (f : Server)
    → persisted (update_vpc q f).0 ≡ record (persisted f) { v = (update_vpc q f).0.v }
unfolding update_vpc rename_vpc
persisted-update_vpc none f = refl
persisted-update_vpc (some q) f = ground arith

pub persisted-delete_vpc :
    (q : Option (Option String)) (f : Server)
    → persisted (delete_vpc q f).0 ≡ record (persisted f) { v = (delete_vpc q f).0.v }
unfolding delete_vpc
persisted-delete_vpc none f = refl
persisted-delete_vpc (some none) f = ground arith
persisted-delete_vpc (some (some id)) f = ground arith

pub persisted-create_network_segment :
    (e : Env) (q : Option NetworkSegmentCreationRequest) (f : Server)
    → persisted (create_network_segment e q f).0
      ≡ record (persisted f) { ns = (create_network_segment e q f).0.ns }
unfolding create_network_segment
persisted-create_network_segment e none f = refl
persisted-create_network_segment e (some q) f = ground arith

pub persisted-delete_network_segment :
    (q : Option (Option String)) (f : Server)
    → persisted (delete_network_segment q f).0
      ≡ record (persisted f) { ns = (delete_network_segment q f).0.ns }
unfolding delete_network_segment
persisted-delete_network_segment none f = refl
persisted-delete_network_segment (some none) f = ground arith
persisted-delete_network_segment (some (some id)) f = ground arith

pub persisted-release_instance :
    (q : Option (Option String)) (f : Server)
    → persisted (release_instance q f).0
      ≡ record (persisted f) { ins = (release_instance q f).0.ins }
unfolding release_instance schedule_libvirt_release
persisted-release_instance none f = refl
persisted-release_instance (some none) f = ground arith
persisted-release_instance (some (some id)) f = ground arith

pub persisted-update_instance_config :
    (e : Env) (q : Option InstanceConfigUpdateRequest) (f : Server)
    → persisted (update_instance_config e q f).0
      ≡ record (persisted f) { ins = (update_instance_config e q f).0.ins }
unfolding update_instance_config
persisted-update_instance_config e none f = refl
persisted-update_instance_config e (some q) f = ground arith

pub persisted-find_instances_by_ids :
    (q : Option (List (Option String))) (f : Server)
    → persisted (find_instances_by_ids q f).0
      ≡ record (persisted f) { ins = (find_instances_by_ids q f).0.ins }
unfolding find_instances_by_ids
persisted-find_instances_by_ids none f = refl
persisted-find_instances_by_ids (some q) f = ground arith

pub persisted-find_machines_by_ids :
    (e : Env) (q : Option (List (Option String))) (f : Server)
    → persisted (find_machines_by_ids e q f).0
      ≡ record (persisted f) { m = (find_machines_by_ids e q f).0.m }
unfolding find_machines_by_ids
persisted-find_machines_by_ids e none f = refl
persisted-find_machines_by_ids e (some q) f = ground arith

pub persisted-associate_machines :
    (q : Option AssociateRequest) (f : Server)
    → persisted (associate_machines q f).0
      ≡ record (persisted f) { m = (associate_machines q f).0.m }
unfolding associate_machines
persisted-associate_machines none f = refl
persisted-associate_machines (some q) f = ground arith

pub persisted-remove_association :
    (q : Option String) (f : Server)
    → persisted (remove_association q f).0
      ≡ record (persisted f) { m = (remove_association q f).0.m }
unfolding remove_association
persisted-remove_association none f = refl
persisted-remove_association (some q) f = ground arith

pub persisted-create_instance_type :
    (e : Env) (q : Option CreateInstanceTypeRequest) (f : Server)
    → persisted (create_instance_type e q f).0
      ≡ record (persisted f) { it = (create_instance_type e q f).0.it }
unfolding create_instance_type
persisted-create_instance_type e none f = refl
persisted-create_instance_type e (some q) f = ground arith

pub persisted-delete_instance_type :
    (q : Option String) (f : Server)
    → persisted (delete_instance_type q f).0
      ≡ record (persisted f) { it = (delete_instance_type q f).0.it }
unfolding delete_instance_type
persisted-delete_instance_type none f = refl
persisted-delete_instance_type (some q) f = ground arith

pub persisted-create_vpc_peering :
    (e : Env) (q : Option VpcPeeringCreationRequest) (f : Server)
    → persisted (create_vpc_peering e q f).0
      ≡ record (persisted f) { vpp = (create_vpc_peering e q f).0.vpp }
unfolding create_vpc_peering
persisted-create_vpc_peering e none f = refl
persisted-create_vpc_peering e (some q) f = ground arith

pub persisted-delete_vpc_peering :
    (q : Option (Option String)) (f : Server)
    → persisted (delete_vpc_peering q f).0
      ≡ record (persisted f) { vpp = (delete_vpc_peering q f).0.vpp }
unfolding delete_vpc_peering
persisted-delete_vpc_peering none f = refl
persisted-delete_vpc_peering (some none) f = ground arith
persisted-delete_vpc_peering (some (some id)) f = ground arith

pub persisted-create_vpc_prefix :
    (e : Env) (q : Option VpcPrefixCreationRequest) (f : Server)
    → persisted (create_vpc_prefix e q f).0
      ≡ record (persisted f) { vp = (create_vpc_prefix e q f).0.vp }
unfolding create_vpc_prefix
persisted-create_vpc_prefix e none f = refl
persisted-create_vpc_prefix e (some q) f = ground arith

pub persisted-update_vpc_prefix :
    (q : Option VpcPrefixUpdateRequest) (f : Server)
    → persisted (update_vpc_prefix q f).0
      ≡ record (persisted f) { vp = (update_vpc_prefix q f).0.vp }
unfolding update_vpc_prefix
persisted-update_vpc_prefix none f = refl
persisted-update_vpc_prefix (some q) f = ground arith

pub persisted-delete_vpc_prefix :
    (q : Option (Option String)) (f : Server)
    → persisted (delete_vpc_prefix q f).0
      ≡ record (persisted f) { vp = (delete_vpc_prefix q f).0.vp }
unfolding delete_vpc_prefix
persisted-delete_vpc_prefix none f = refl
persisted-delete_vpc_prefix (some none) f = ground arith
persisted-delete_vpc_prefix (some (some id)) f = ground arith

pub persisted-create_os_image :
    (e : Env) (q : Option OsImageAttributes) (f : Server)
    → persisted (create_os_image e q f).0 ≡ record (persisted f) {
      osi = (create_os_image e q f).0.osi;
      oss = (create_os_image e q f).0.oss;
    }
unfolding create_os_image
persisted-create_os_image e none f = refl
persisted-create_os_image e (some q) f = ground arith

pub persisted-update_os_image :
    (e : Env) (q : Option OsImageAttributes) (f : Server)
    → persisted (update_os_image e q f).0 ≡ record (persisted f) {
      osi = (update_os_image e q f).0.osi;
      oss = (update_os_image e q f).0.oss;
    }
unfolding update_os_image
persisted-update_os_image e none f = refl
persisted-update_os_image e (some q) f = ground arith

pub persisted-delete_os_image :
    (q : Option (Option String)) (f : Server)
    → persisted (delete_os_image q f).0 ≡ record (persisted f) {
      osi = (delete_os_image q f).0.osi;
      oss = (delete_os_image q f).0.oss;
    }
unfolding delete_os_image
persisted-delete_os_image none f = refl
persisted-delete_os_image (some none) f = ground arith
persisted-delete_os_image (some (some id)) f = ground arith

pub persisted-create_operating_system :
    (e : Env) (q : Option CreateOperatingSystemRequest) (f : Server)
    → persisted (create_operating_system e q f).0
      ≡ record (persisted f) { oss = (create_operating_system e q f).0.oss }
unfolding create_operating_system
persisted-create_operating_system e none f = refl
persisted-create_operating_system e (some q) f = ground arith

pub persisted-update_operating_system :
    (e : Env) (q : Option UpdateOperatingSystemRequest) (f : Server)
    → persisted (update_operating_system e q f).0
      ≡ record (persisted f) { oss = (update_operating_system e q f).0.oss }
unfolding update_operating_system
persisted-update_operating_system e none f = refl
persisted-update_operating_system e (some q) f = ground arith
