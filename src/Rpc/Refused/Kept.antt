-- ===== src/Rpc/Refused/Kept.antt =====
-- Refused calls of the handlers whose maps are persisted.
use nico_core_mock.Env.{Env}
use nico_core_mock.Forge.Images.{create_os_image, delete_os_image, update_os_image}
use nico_core_mock.Forge.Instances.{
  allocate_instance, allocate_with, allocated_id, find_instances_by_ids, interface_statuses,
  release_instance, requested_interfaces, store_instance, update_instance_config,
}
use nico_core_mock.Forge.Instances.Jobs.{schedule_libvirt_release}
use nico_core_mock.Forge.Machines.{associate_machines, find_machines_by_ids, remove_association}
use nico_core_mock.Forge.Peering.{create_vpc_peering, delete_vpc_peering}
use nico_core_mock.Forge.Prefix.{create_vpc_prefix, delete_vpc_prefix, update_vpc_prefix}
use nico_core_mock.Forge.Segment.{create_network_segment, delete_network_segment}
use nico_core_mock.Forge.Systems.{create_operating_system, update_operating_system}
use nico_core_mock.Forge.Types.{create_instance_type, delete_instance_type}
use nico_core_mock.Forge.Vpc.{create_vpc, delete_vpc, update_vpc}
use nico_core_mock.Message.Compute.{
  AssociateRequest, CreateInstanceTypeRequest, CreateOperatingSystemRequest,
  InstanceAllocationRequest, InstanceConfigUpdateRequest, InterfaceStatus, OsImageAttributes,
  UpdateOperatingSystemRequest,
}
use nico_core_mock.Message.Network.{
  NetworkSegmentCreationRequest, VpcCreationRequest, VpcPeeringCreationRequest,
  VpcPrefixCreationRequest, VpcPrefixUpdateRequest, VpcUpdateRequest,
}
use nico_core_mock.Prelude.{List, Option, String, arith, none, refl, some, ◌≡◌}
use nico_core_mock.Reply.{Code, Reply, err, ok, panic, ◌>>=◌}
use nico_core_mock.Server.{Server}

pub refused-create_vpc :
    (e : Env) (q : Option VpcCreationRequest) (f : Server) (c : Code)
    → (create_vpc e q f).1 ≡ err c
    → (create_vpc e q f).0 ≡ f
unfolding create_vpc
refused-create_vpc e none f c p = refl
refused-create_vpc e (some q) f c p = ground arith

pub refused-update_vpc :
    (q : Option VpcUpdateRequest) (f : Server) (c : Code)
    → (update_vpc q f).1 ≡ err c
    → (update_vpc q f).0 ≡ f
unfolding update_vpc
refused-update_vpc none f c p = refl
refused-update_vpc (some q) f c p = ground arith

pub refused-delete_vpc :
    (q : Option (Option String)) (f : Server) (c : Code)
    → (delete_vpc q f).1 ≡ err c
    → (delete_vpc q f).0 ≡ f
unfolding delete_vpc
refused-delete_vpc none f c p = refl
refused-delete_vpc (some none) f c p = ground arith
refused-delete_vpc (some (some id)) f c p = ground arith

pub refused-create_network_segment :
    (e : Env) (q : Option NetworkSegmentCreationRequest) (f : Server) (c : Code)
    → (create_network_segment e q f).1 ≡ err c
    → (create_network_segment e q f).0 ≡ f
unfolding create_network_segment
refused-create_network_segment e none f c p = refl
refused-create_network_segment e (some q) f c p = ground arith

pub refused-delete_network_segment :
    (q : Option (Option String)) (f : Server) (c : Code)
    → (delete_network_segment q f).1 ≡ err c
    → (delete_network_segment q f).0 ≡ f
unfolding delete_network_segment
refused-delete_network_segment none f c p = refl
refused-delete_network_segment (some none) f c p = ground arith
refused-delete_network_segment (some (some id)) f c p = ground arith

pub refused-release_instance :
    (q : Option (Option String)) (f : Server) (c : Code)
    → (release_instance q f).1 ≡ err c
    → (release_instance q f).0 ≡ f
unfolding release_instance schedule_libvirt_release
refused-release_instance none f c p = refl
refused-release_instance (some none) f c p = ground arith
refused-release_instance (some (some id)) f c p = ground arith

pub refused-update_instance_config :
    (e : Env) (q : Option InstanceConfigUpdateRequest) (f : Server) (c : Code)
    → (update_instance_config e q f).1 ≡ err c
    → (update_instance_config e q f).0 ≡ f
unfolding update_instance_config
refused-update_instance_config e none f c p = refl
refused-update_instance_config e (some q) f c p = ground arith

pub refused-find_instances_by_ids :
    (q : Option (List (Option String))) (f : Server) (c : Code)
    → (find_instances_by_ids q f).1 ≡ err c
    → (find_instances_by_ids q f).0 ≡ f
unfolding find_instances_by_ids
refused-find_instances_by_ids none f c p = refl
refused-find_instances_by_ids (some q) f c p = ground arith

pub refused-find_machines_by_ids :
    (e : Env) (q : Option (List (Option String))) (f : Server) (c : Code)
    → (find_machines_by_ids e q f).1 ≡ err c
    → (find_machines_by_ids e q f).0 ≡ f
unfolding find_machines_by_ids
refused-find_machines_by_ids e none f c p = refl
refused-find_machines_by_ids e (some q) f c p = ground arith

pub refused-associate_machines :
    (q : Option AssociateRequest) (f : Server) (c : Code)
    → (associate_machines q f).1 ≡ err c
    → (associate_machines q f).0 ≡ f
unfolding associate_machines
refused-associate_machines none f c p = refl
refused-associate_machines (some q) f c p = ground arith

pub refused-remove_association :
    (q : Option String) (f : Server) (c : Code)
    → (remove_association q f).1 ≡ err c
    → (remove_association q f).0 ≡ f
unfolding remove_association
refused-remove_association none f c p = refl
refused-remove_association (some q) f c p = ground arith

pub refused-create_instance_type :
    (e : Env) (q : Option CreateInstanceTypeRequest) (f : Server) (c : Code)
    → (create_instance_type e q f).1 ≡ err c
    → (create_instance_type e q f).0 ≡ f
unfolding create_instance_type
refused-create_instance_type e none f c p = refl
refused-create_instance_type e (some q) f c p = ground arith

pub refused-delete_instance_type :
    (q : Option String) (f : Server) (c : Code)
    → (delete_instance_type q f).1 ≡ err c
    → (delete_instance_type q f).0 ≡ f
unfolding delete_instance_type
refused-delete_instance_type none f c p = refl
refused-delete_instance_type (some q) f c p = ground arith

pub refused-create_vpc_peering :
    (e : Env) (q : Option VpcPeeringCreationRequest) (f : Server) (c : Code)
    → (create_vpc_peering e q f).1 ≡ err c
    → (create_vpc_peering e q f).0 ≡ f
unfolding create_vpc_peering
refused-create_vpc_peering e none f c p = refl
refused-create_vpc_peering e (some q) f c p = ground arith

pub refused-delete_vpc_peering :
    (q : Option (Option String)) (f : Server) (c : Code)
    → (delete_vpc_peering q f).1 ≡ err c
    → (delete_vpc_peering q f).0 ≡ f
unfolding delete_vpc_peering
refused-delete_vpc_peering none f c p = refl
refused-delete_vpc_peering (some none) f c p = ground arith
refused-delete_vpc_peering (some (some id)) f c p = ground arith

pub refused-create_vpc_prefix :
    (e : Env) (q : Option VpcPrefixCreationRequest) (f : Server) (c : Code)
    → (create_vpc_prefix e q f).1 ≡ err c
    → (create_vpc_prefix e q f).0 ≡ f
unfolding create_vpc_prefix
refused-create_vpc_prefix e none f c p = refl
refused-create_vpc_prefix e (some q) f c p = ground arith

pub refused-update_vpc_prefix :
    (q : Option VpcPrefixUpdateRequest) (f : Server) (c : Code)
    → (update_vpc_prefix q f).1 ≡ err c
    → (update_vpc_prefix q f).0 ≡ f
unfolding update_vpc_prefix
refused-update_vpc_prefix none f c p = refl
refused-update_vpc_prefix (some q) f c p = ground arith

pub refused-delete_vpc_prefix :
    (q : Option (Option String)) (f : Server) (c : Code)
    → (delete_vpc_prefix q f).1 ≡ err c
    → (delete_vpc_prefix q f).0 ≡ f
unfolding delete_vpc_prefix
refused-delete_vpc_prefix none f c p = refl
refused-delete_vpc_prefix (some none) f c p = ground arith
refused-delete_vpc_prefix (some (some id)) f c p = ground arith

pub refused-create_os_image :
    (e : Env) (q : Option OsImageAttributes) (f : Server) (c : Code)
    → (create_os_image e q f).1 ≡ err c
    → (create_os_image e q f).0 ≡ f
unfolding create_os_image
refused-create_os_image e none f c p = refl
refused-create_os_image e (some q) f c p = ground arith

pub refused-update_os_image :
    (e : Env) (q : Option OsImageAttributes) (f : Server) (c : Code)
    → (update_os_image e q f).1 ≡ err c
    → (update_os_image e q f).0 ≡ f
unfolding update_os_image
refused-update_os_image e none f c p = refl
refused-update_os_image e (some q) f c p = ground arith

pub refused-delete_os_image :
    (q : Option (Option String)) (f : Server) (c : Code)
    → (delete_os_image q f).1 ≡ err c
    → (delete_os_image q f).0 ≡ f
unfolding delete_os_image
refused-delete_os_image none f c p = refl
refused-delete_os_image (some none) f c p = ground arith
refused-delete_os_image (some (some id)) f c p = ground arith

pub refused-create_operating_system :
    (e : Env) (q : Option CreateOperatingSystemRequest) (f : Server) (c : Code)
    → (create_operating_system e q f).1 ≡ err c
    → (create_operating_system e q f).0 ≡ f
unfolding create_operating_system
refused-create_operating_system e none f c p = refl
refused-create_operating_system e (some q) f c p = ground arith

pub refused-update_operating_system :
    (e : Env) (q : Option UpdateOperatingSystemRequest) (f : Server) (c : Code)
    → (update_operating_system e q f).1 ≡ err c
    → (update_operating_system e q f).0 ≡ f
unfolding update_operating_system
refused-update_operating_system e none f c p = refl
refused-update_operating_system e (some q) f c p = ground arith

store_instance-refused :
    (e : Env) (req : InstanceAllocationRequest) (nid : String) (sts : List InterfaceStatus)
    (f : Server) (c : Code)
    → (store_instance e req nid sts f).1 ≡ err c
    → (store_instance e req nid sts f).0 ≡ f
unfolding store_instance
store_instance-refused e req nid sts f c p = ground arith

allocate_with-refused :
    (e : Env) (req : InstanceAllocationRequest) (nid : String) (r : Reply (List InterfaceStatus))
    (f : Server) (c : Code)
    → (allocate_with e req nid r f).1 ≡ err c
    → (allocate_with e req nid r f).0 ≡ f
unfolding allocate_with
allocate_with-refused e req nid (ok sts) f c p = store_instance-refused e req nid sts f c p
allocate_with-refused e req nid (err d) f c p = refl
allocate_with-refused e req nid panic f c p = refl

pub refused-allocate_instance :
    (e : Env) (q : Option InstanceAllocationRequest) (f : Server) (c : Code)
    → (allocate_instance e q f).1 ≡ err c
    → (allocate_instance e q f).0 ≡ f
unfolding allocate_instance
refused-allocate_instance e none f c p = refl
refused-allocate_instance e (some req) f c p =
    let nid = allocated_id e req.instance_id in
    let r = requested_interfaces req.config >>= interface_statuses e f.vp 0 in
    ground (arith, allocate_with-refused e req nid r f c)
