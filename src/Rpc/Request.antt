-- ===== src/Rpc/Request.antt =====
-- The RPCs that are modelled, but for those of tenant identity, by their requests: what the server
-- dispatches to the handlers.
use nico_core_mock.Message.{Payload}
use nico_core_mock.Message.Compute.{
  AssociateRequest, CreateInstanceTypeRequest, CreateOperatingSystemRequest,
  InstanceAllocationRequest, InstanceConfigUpdateRequest, InstancePowerRequest, OsImageAttributes,
  UpdateOperatingSystemRequest,
}
use nico_core_mock.Message.Expected.{
  ExpectedMachine, ExpectedPowerShelf, ExpectedRack, ExpectedSwitch,
}
use nico_core_mock.Message.Fabric.{
  IbPartitionRequest, NvlinkRequest, TenantKeysetRequest, TenantRequest,
}
use nico_core_mock.Message.Network.{
  CreateNetworkSecurityGroupRequest, NetworkSegmentCreationRequest,
  UpdateNetworkSecurityGroupRequest, VpcCreationRequest, VpcPeeringCreationRequest,
  VpcPrefixCreationRequest, VpcPrefixUpdateRequest, VpcSearchQuery, VpcUpdateRequest,
}
use nico_core_mock.Prelude.{List, Option, String}

pub data Request : Type 0 where
  create_vpc : Option VpcCreationRequest → Request
  update_vpc : Option VpcUpdateRequest → Request
  delete_vpc : Option (Option String) → Request
  find_vpc_ids : Option Payload → Request
  find_vpcs_by_ids : Option (List (Option String)) → Request
  find_vpcs : Option VpcSearchQuery → Request
  create_network_segment : Option NetworkSegmentCreationRequest → Request
  delete_network_segment : Option (Option String) → Request
  find_network_segment_ids : Option Payload → Request
  find_network_segments_by_ids : Option (List (Option String)) → Request
  allocate_instance : Option InstanceAllocationRequest → Request
  release_instance : Option (Option String) → Request
  update_instance_config : Option InstanceConfigUpdateRequest → Request
  find_instance_ids : Option Payload → Request
  find_instances_by_ids : Option (List (Option String)) → Request
  invoke_instance_power : Option InstancePowerRequest → Request
  find_machine_ids : Option Payload → Request
  find_machines_by_ids : Option (List (Option String)) → Request
  associate_machines : Option AssociateRequest → Request
  remove_association : Option String → Request
  create_instance_type : Option CreateInstanceTypeRequest → Request
  delete_instance_type : Option String → Request
  find_instance_type_ids : Request
  find_instance_types_by_ids : Option (List String) → Request
  find_nvlink_partition_ids : Request
  find_nvlink_partitions_by_ids : Option (List (Option String)) → Request
  create_nvlink_partition : Option NvlinkRequest → Request
  update_nvlink_partition : Option NvlinkRequest → Request
  delete_nvlink_partition : Option (Option String) → Request
  nvlink_partitions_for_tenant : String → Request
  create_ib_partition : Option IbPartitionRequest → Request
  update_ib_partition : Option IbPartitionRequest → Request
  delete_ib_partition : Option (Option String) → Request
  find_ib_partition_ids : Option Payload → Request
  find_ib_partitions_by_ids : Option (List (Option String)) → Request
  find_tenant_organization_ids : Request
  find_tenants_by_organization_ids : Option (List String) → Request
  create_tenant : Option TenantRequest → Request
  update_tenant : Option TenantRequest → Request
  create_tenant_keyset : Option TenantKeysetRequest → Request
  update_tenant_keyset : Option TenantKeysetRequest → Request
  delete_tenant_keyset : Option (Option String) → Request
  find_tenant_keyset_ids : Option Payload → Request
  find_tenant_keysets_by_ids : Option (List (Option String)) → Request
  create_vpc_peering : Option VpcPeeringCreationRequest → Request
  delete_vpc_peering : Option (Option String) → Request
  find_vpc_peering_ids : String → Request
  find_vpc_peerings_by_ids : Option (List (Option String)) → Request
  create_network_security_group : Option CreateNetworkSecurityGroupRequest → Request
  update_network_security_group : Option UpdateNetworkSecurityGroupRequest → Request
  delete_network_security_group : Option String → Request
  find_network_security_group_ids : Request
  find_network_security_groups_by_ids : Option (List String × Option String) → Request
  get_propagation_status : Option (List String × List String) → Request
  get_vpc_prefixes : Option (List (Option String)) → Request
  search_vpc_prefixes : Request
  create_vpc_prefix : Option VpcPrefixCreationRequest → Request
  update_vpc_prefix : Option VpcPrefixUpdateRequest → Request
  delete_vpc_prefix : Option (Option String) → Request
  list_os_image : Request
  create_os_image : Option OsImageAttributes → Request
  update_os_image : Option OsImageAttributes → Request
  delete_os_image : Option (Option String) → Request
  get_os_image : Option String → Request
  create_operating_system : Option CreateOperatingSystemRequest → Request
  get_operating_system : Option String → Request
  update_operating_system : Option UpdateOperatingSystemRequest → Request
  get_all_expected_machines : Request
  get_all_expected_machines_linked : Request
  add_expected_machine : Option ExpectedMachine → Request
  update_expected_machine : Option ExpectedMachine → Request
  delete_expected_machine : Option (Option String) → Request
  create_expected_machines : Option (List (Option ExpectedMachine)) → Request
  update_expected_machines : Option (List (Option ExpectedMachine)) → Request
  add_expected_power_shelf : Option ExpectedPowerShelf → Request
  update_expected_power_shelf : Option ExpectedPowerShelf → Request
  delete_expected_power_shelf : Option (Option String) → Request
  get_expected_power_shelf : Option (Option String) → Request
  get_all_expected_power_shelves : Request
  add_expected_switch : Option ExpectedSwitch → Request
  update_expected_switch : Option ExpectedSwitch → Request
  delete_expected_switch : Option (Option String) → Request
  get_expected_switch : Option (Option String) → Request
  get_all_expected_switches : Request
  add_expected_rack : Option ExpectedRack → Request
  update_expected_rack : Option ExpectedRack → Request
  delete_expected_rack : Option String → Request
  get_expected_rack : Option String → Request
  get_all_expected_racks : Request
  replace_all_expected_racks : Option (List (Option ExpectedRack)) → Request
  delete_all_expected_racks : Request
