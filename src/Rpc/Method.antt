-- ===== src/Rpc/Method.antt =====
-- Which gRPC method a request calls.
use Prim.Native.String.{◌++◌ as append}
use nico_core_mock.Prelude.{String}
use nico_core_mock.Rpc.Request.{Request}

unfoldable pub method_name : Request → String
method_name (Request.create_vpc q) = "CreateVpc"
method_name (Request.update_vpc q) = "UpdateVpc"
method_name (Request.delete_vpc q) = "DeleteVpc"
method_name (Request.find_vpc_ids q) = "FindVpcIds"
method_name (Request.find_vpcs_by_ids q) = "FindVpcsByIds"
method_name (Request.find_vpcs q) = "FindVpcs"
method_name (Request.create_network_segment q) = "CreateNetworkSegment"
method_name (Request.delete_network_segment q) = "DeleteNetworkSegment"
method_name (Request.find_network_segment_ids q) = "FindNetworkSegmentIds"
method_name (Request.find_network_segments_by_ids q) = "FindNetworkSegmentsByIds"
method_name (Request.allocate_instance q) = "AllocateInstance"
method_name (Request.release_instance q) = "ReleaseInstance"
method_name (Request.update_instance_config q) = "UpdateInstanceConfig"
method_name (Request.find_instance_ids q) = "FindInstanceIds"
method_name (Request.find_instances_by_ids q) = "FindInstancesByIds"
method_name (Request.invoke_instance_power q) = "InvokeInstancePower"
method_name (Request.find_machine_ids q) = "FindMachineIds"
method_name (Request.find_machines_by_ids q) = "FindMachinesByIds"
method_name (Request.associate_machines q) = "AssociateMachinesWithInstanceType"
method_name (Request.remove_association q) = "RemoveMachineInstanceTypeAssociation"
method_name (Request.create_instance_type q) = "CreateInstanceType"
method_name (Request.delete_instance_type q) = "DeleteInstanceType"
method_name Request.find_instance_type_ids = "FindInstanceTypeIds"
method_name (Request.find_instance_types_by_ids q) = "FindInstanceTypesByIds"
method_name Request.find_nvlink_partition_ids = "FindNVLinkLogicalPartitionIds"
method_name (Request.find_nvlink_partitions_by_ids q) = "FindNVLinkLogicalPartitionsByIds"
method_name (Request.create_nvlink_partition q) = "CreateNVLinkLogicalPartition"
method_name (Request.update_nvlink_partition q) = "UpdateNVLinkLogicalPartition"
method_name (Request.delete_nvlink_partition q) = "DeleteNVLinkLogicalPartition"
method_name (Request.nvlink_partitions_for_tenant q) = "NVLinkLogicalPartitionsForTenant"
method_name (Request.create_ib_partition q) = "CreateIBPartition"
method_name (Request.update_ib_partition q) = "UpdateIBPartition"
method_name (Request.delete_ib_partition q) = "DeleteIBPartition"
method_name (Request.find_ib_partition_ids q) = "FindIBPartitionIds"
method_name (Request.find_ib_partitions_by_ids q) = "FindIBPartitionsByIds"
method_name Request.find_tenant_organization_ids = "FindTenantOrganizationIds"
method_name (Request.find_tenants_by_organization_ids q) = "FindTenantsByOrganizationIds"
method_name (Request.create_tenant q) = "CreateTenant"
method_name (Request.update_tenant q) = "UpdateTenant"
method_name (Request.create_tenant_keyset q) = "CreateTenantKeyset"
method_name (Request.update_tenant_keyset q) = "UpdateTenantKeyset"
method_name (Request.delete_tenant_keyset q) = "DeleteTenantKeyset"
method_name (Request.find_tenant_keyset_ids q) = "FindTenantKeysetIds"
method_name (Request.find_tenant_keysets_by_ids q) = "FindTenantKeysetsByIds"
method_name (Request.create_vpc_peering q) = "CreateVpcPeering"
method_name (Request.delete_vpc_peering q) = "DeleteVpcPeering"
method_name (Request.find_vpc_peering_ids q) = "FindVpcPeeringIds"
method_name (Request.find_vpc_peerings_by_ids q) = "FindVpcPeeringsByIds"
method_name (Request.create_network_security_group q) = "CreateNetworkSecurityGroup"
method_name (Request.update_network_security_group q) = "UpdateNetworkSecurityGroup"
method_name (Request.delete_network_security_group q) = "DeleteNetworkSecurityGroup"
method_name Request.find_network_security_group_ids = "FindNetworkSecurityGroupIds"
method_name (Request.find_network_security_groups_by_ids q) = "FindNetworkSecurityGroupsByIds"
method_name (Request.get_propagation_status q) = "GetNetworkSecurityGroupPropagationStatus"
method_name (Request.get_vpc_prefixes q) = "GetVpcPrefixes"
method_name Request.search_vpc_prefixes = "SearchVpcPrefixes"
method_name (Request.create_vpc_prefix q) = "CreateVpcPrefix"
method_name (Request.update_vpc_prefix q) = "UpdateVpcPrefix"
method_name (Request.delete_vpc_prefix q) = "DeleteVpcPrefix"
method_name Request.list_os_image = "ListOsImage"
method_name (Request.create_os_image q) = "CreateOsImage"
method_name (Request.update_os_image q) = "UpdateOsImage"
method_name (Request.delete_os_image q) = "DeleteOsImage"
method_name (Request.get_os_image q) = "GetOsImage"
method_name (Request.create_operating_system q) = "CreateOperatingSystem"
method_name (Request.get_operating_system q) = "GetOperatingSystem"
method_name (Request.update_operating_system q) = "UpdateOperatingSystem"
method_name Request.get_all_expected_machines = "GetAllExpectedMachines"
method_name Request.get_all_expected_machines_linked = "GetAllExpectedMachinesLinked"
method_name (Request.add_expected_machine q) = "AddExpectedMachine"
method_name (Request.update_expected_machine q) = "UpdateExpectedMachine"
method_name (Request.delete_expected_machine q) = "DeleteExpectedMachine"
method_name (Request.create_expected_machines q) = "CreateExpectedMachines"
method_name (Request.update_expected_machines q) = "UpdateExpectedMachines"
method_name (Request.add_expected_power_shelf q) = "AddExpectedPowerShelf"
method_name (Request.update_expected_power_shelf q) = "UpdateExpectedPowerShelf"
method_name (Request.delete_expected_power_shelf q) = "DeleteExpectedPowerShelf"
method_name (Request.get_expected_power_shelf q) = "GetExpectedPowerShelf"
method_name Request.get_all_expected_power_shelves = "GetAllExpectedPowerShelves"
method_name (Request.add_expected_switch q) = "AddExpectedSwitch"
method_name (Request.update_expected_switch q) = "UpdateExpectedSwitch"
method_name (Request.delete_expected_switch q) = "DeleteExpectedSwitch"
method_name (Request.get_expected_switch q) = "GetExpectedSwitch"
method_name Request.get_all_expected_switches = "GetAllExpectedSwitches"
method_name (Request.add_expected_rack q) = "AddExpectedRack"
method_name (Request.update_expected_rack q) = "UpdateExpectedRack"
method_name (Request.delete_expected_rack q) = "DeleteExpectedRack"
method_name (Request.get_expected_rack q) = "GetExpectedRack"
method_name Request.get_all_expected_racks = "GetAllExpectedRacks"
method_name (Request.replace_all_expected_racks q) = "ReplaceAllExpectedRacks"
method_name Request.delete_all_expected_racks = "DeleteAllExpectedRacks"

-- `info.FullMethod`: the service of the generated code, a slash and the name.
abbrev pub full_method : String → Request → String
full_method service r = append service (append "/" (method_name r))
