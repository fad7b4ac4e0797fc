-- ===== src/Rpc/Peered.antt =====
-- Peered VPCs, over all requests.
use nico_core_mock.Env.{Env}
use nico_core_mock.Forge.Peering.Pairs.{
  HasUniquePairs, create_vpc_peering-HasUniquePairs, delete_vpc_peering-HasUniquePairs,
}
use nico_core_mock.GoMap.{GoMap}
use nico_core_mock.Message.Network.{VpcPeering}
use nico_core_mock.Persist.{Persisted}
use nico_core_mock.Prelude.{ap, subst, sym}
use nico_core_mock.Rpc.Consistent.Compute.{persisted-allocate_instance}
use nico_core_mock.Rpc.Frame.Kept.{
  persisted-associate_machines, persisted-create_instance_type, persisted-create_network_segment,
  persisted-create_operating_system, persisted-create_os_image, persisted-create_vpc,
  persisted-create_vpc_prefix, persisted-delete_instance_type, persisted-delete_network_segment,
  persisted-delete_os_image, persisted-delete_vpc, persisted-delete_vpc_prefix,
  persisted-find_instances_by_ids, persisted-find_machines_by_ids, persisted-release_instance,
  persisted-remove_association, persisted-update_instance_config, persisted-update_operating_system,
  persisted-update_os_image, persisted-update_vpc, persisted-update_vpc_prefix,
}
use nico_core_mock.Rpc.Frame.Other.{
  persisted-add_expected_machine, persisted-add_expected_power_shelf, persisted-add_expected_rack,
  persisted-add_expected_switch, persisted-create_expected_machines, persisted-create_ib_partition,
  persisted-create_network_security_group, persisted-create_nvlink_partition,
  persisted-create_tenant, persisted-create_tenant_keyset, persisted-delete_all_expected_racks,
  persisted-delete_expected_machine, persisted-delete_expected_power_shelf,
  persisted-delete_expected_rack, persisted-delete_expected_switch, persisted-delete_ib_partition,
  persisted-delete_network_security_group, persisted-delete_nvlink_partition,
  persisted-delete_tenant_keyset, persisted-replace_all_expected_racks,
  persisted-update_expected_machine, persisted-update_expected_machines,
  persisted-update_expected_power_shelf, persisted-update_expected_rack,
  persisted-update_expected_switch, persisted-update_ib_partition,
  persisted-update_network_security_group, persisted-update_nvlink_partition,
  persisted-update_tenant, persisted-update_tenant_keyset,
}
use nico_core_mock.Rpc.Request.{Request}
use nico_core_mock.Rpc.Step.{step}
use nico_core_mock.Server.{Server}

abbrev peerings : Persisted → GoMap VpcPeering
peerings p = p.vpp

-- No request, whether it returns, is refused or crashes, leads from a server in which no two stored
-- peerings join the same two VPCs to one in which two do, in either direction.
pub step-HasUniquePairs :
    (e : Env) (r : Request) (f : Server) → HasUniquePairs f.vpp → HasUniquePairs (step e r f).0.vpp
unfolding step
step-HasUniquePairs e (Request.create_vpc q) f u =
    subst HasUniquePairs (sym (ap peerings (persisted-create_vpc e q f))) u
step-HasUniquePairs e (Request.update_vpc q) f u =
    subst HasUniquePairs (sym (ap peerings (persisted-update_vpc q f))) u
step-HasUniquePairs e (Request.delete_vpc q) f u =
    subst HasUniquePairs (sym (ap peerings (persisted-delete_vpc q f))) u
step-HasUniquePairs e (Request.find_vpc_ids q) f u = u
step-HasUniquePairs e (Request.find_vpcs_by_ids q) f u = u
step-HasUniquePairs e (Request.find_vpcs q) f u = u
step-HasUniquePairs e (Request.create_network_segment q) f u =
    subst HasUniquePairs (sym (ap peerings (persisted-create_network_segment e q f))) u
step-HasUniquePairs e (Request.delete_network_segment q) f u =
    subst HasUniquePairs (sym (ap peerings (persisted-delete_network_segment q f))) u
step-HasUniquePairs e (Request.find_network_segment_ids q) f u = u
step-HasUniquePairs e (Request.find_network_segments_by_ids q) f u = u
step-HasUniquePairs e (Request.allocate_instance q) f u =
    subst HasUniquePairs (sym (ap peerings (persisted-allocate_instance e q f))) u
step-HasUniquePairs e (Request.release_instance q) f u =
    subst HasUniquePairs (sym (ap peerings (persisted-release_instance q f))) u
step-HasUniquePairs e (Request.update_instance_config q) f u =
    subst HasUniquePairs (sym (ap peerings (persisted-update_instance_config e q f))) u
step-HasUniquePairs e (Request.find_instance_ids q) f u = u
step-HasUniquePairs e (Request.find_instances_by_ids q) f u =
    subst HasUniquePairs (sym (ap peerings (persisted-find_instances_by_ids q f))) u
step-HasUniquePairs e (Request.invoke_instance_power q) f u = u
step-HasUniquePairs e (Request.find_machine_ids q) f u = u
step-HasUniquePairs e (Request.find_machines_by_ids q) f u =
    subst HasUniquePairs (sym (ap peerings (persisted-find_machines_by_ids e q f))) u
step-HasUniquePairs e (Request.associate_machines q) f u =
    subst HasUniquePairs (sym (ap peerings (persisted-associate_machines q f))) u
step-HasUniquePairs e (Request.remove_association q) f u =
    subst HasUniquePairs (sym (ap peerings (persisted-remove_association q f))) u
step-HasUniquePairs e (Request.create_instance_type q) f u =
    subst HasUniquePairs (sym (ap peerings (persisted-create_instance_type e q f))) u
step-HasUniquePairs e (Request.delete_instance_type q) f u =
    subst HasUniquePairs (sym (ap peerings (persisted-delete_instance_type q f))) u
step-HasUniquePairs e Request.find_instance_type_ids f u = u
step-HasUniquePairs e (Request.find_instance_types_by_ids q) f u = u
step-HasUniquePairs e Request.find_nvlink_partition_ids f u = u
step-HasUniquePairs e (Request.find_nvlink_partitions_by_ids q) f u = u
step-HasUniquePairs e (Request.create_nvlink_partition q) f u =
    subst HasUniquePairs (sym (ap peerings (persisted-create_nvlink_partition e q f))) u
step-HasUniquePairs e (Request.update_nvlink_partition q) f u =
    subst HasUniquePairs (sym (ap peerings (persisted-update_nvlink_partition q f))) u
step-HasUniquePairs e (Request.delete_nvlink_partition q) f u =
    subst HasUniquePairs (sym (ap peerings (persisted-delete_nvlink_partition q f))) u
step-HasUniquePairs e (Request.nvlink_partitions_for_tenant q) f u = u
step-HasUniquePairs e (Request.create_ib_partition q) f u =
    subst HasUniquePairs (sym (ap peerings (persisted-create_ib_partition e q f))) u
step-HasUniquePairs e (Request.update_ib_partition q) f u =
    subst HasUniquePairs (sym (ap peerings (persisted-update_ib_partition q f))) u
step-HasUniquePairs e (Request.delete_ib_partition q) f u =
    subst HasUniquePairs (sym (ap peerings (persisted-delete_ib_partition q f))) u
step-HasUniquePairs e (Request.find_ib_partition_ids q) f u = u
step-HasUniquePairs e (Request.find_ib_partitions_by_ids q) f u = u
step-HasUniquePairs e Request.find_tenant_organization_ids f u = u
step-HasUniquePairs e (Request.find_tenants_by_organization_ids q) f u = u
step-HasUniquePairs e (Request.create_tenant q) f u =
    subst HasUniquePairs (sym (ap peerings (persisted-create_tenant q f))) u
step-HasUniquePairs e (Request.update_tenant q) f u =
    subst HasUniquePairs (sym (ap peerings (persisted-update_tenant q f))) u
step-HasUniquePairs e (Request.create_tenant_keyset q) f u =
    subst HasUniquePairs (sym (ap peerings (persisted-create_tenant_keyset q f))) u
step-HasUniquePairs e (Request.update_tenant_keyset q) f u =
    subst HasUniquePairs (sym (ap peerings (persisted-update_tenant_keyset q f))) u
step-HasUniquePairs e (Request.delete_tenant_keyset q) f u =
    subst HasUniquePairs (sym (ap peerings (persisted-delete_tenant_keyset q f))) u
step-HasUniquePairs e (Request.find_tenant_keyset_ids q) f u = u
step-HasUniquePairs e (Request.find_tenant_keysets_by_ids q) f u = u
step-HasUniquePairs e (Request.create_vpc_peering q) f u = create_vpc_peering-HasUniquePairs e q f u
step-HasUniquePairs e (Request.delete_vpc_peering q) f u = delete_vpc_peering-HasUniquePairs q f u
step-HasUniquePairs e (Request.find_vpc_peering_ids q) f u = u
step-HasUniquePairs e (Request.find_vpc_peerings_by_ids q) f u = u
step-HasUniquePairs e (Request.create_network_security_group q) f u =
    subst HasUniquePairs (sym (ap peerings (persisted-create_network_security_group e q f))) u
step-HasUniquePairs e (Request.update_network_security_group q) f u =
    subst HasUniquePairs (sym (ap peerings (persisted-update_network_security_group e q f))) u
step-HasUniquePairs e (Request.delete_network_security_group q) f u =
    subst HasUniquePairs (sym (ap peerings (persisted-delete_network_security_group q f))) u
step-HasUniquePairs e Request.find_network_security_group_ids f u = u
step-HasUniquePairs e (Request.find_network_security_groups_by_ids q) f u = u
step-HasUniquePairs e (Request.get_propagation_status q) f u = u
step-HasUniquePairs e (Request.get_vpc_prefixes q) f u = u
step-HasUniquePairs e Request.search_vpc_prefixes f u = u
step-HasUniquePairs e (Request.create_vpc_prefix q) f u =
    subst HasUniquePairs (sym (ap peerings (persisted-create_vpc_prefix e q f))) u
step-HasUniquePairs e (Request.update_vpc_prefix q) f u =
    subst HasUniquePairs (sym (ap peerings (persisted-update_vpc_prefix q f))) u
step-HasUniquePairs e (Request.delete_vpc_prefix q) f u =
    subst HasUniquePairs (sym (ap peerings (persisted-delete_vpc_prefix q f))) u
step-HasUniquePairs e Request.list_os_image f u = u
step-HasUniquePairs e (Request.create_os_image q) f u =
    subst HasUniquePairs (sym (ap peerings (persisted-create_os_image e q f))) u
step-HasUniquePairs e (Request.update_os_image q) f u =
    subst HasUniquePairs (sym (ap peerings (persisted-update_os_image e q f))) u
step-HasUniquePairs e (Request.delete_os_image q) f u =
    subst HasUniquePairs (sym (ap peerings (persisted-delete_os_image q f))) u
step-HasUniquePairs e (Request.get_os_image q) f u = u
step-HasUniquePairs e (Request.create_operating_system q) f u =
    subst HasUniquePairs (sym (ap peerings (persisted-create_operating_system e q f))) u
step-HasUniquePairs e (Request.get_operating_system q) f u = u
step-HasUniquePairs e (Request.update_operating_system q) f u =
    subst HasUniquePairs (sym (ap peerings (persisted-update_operating_system e q f))) u
step-HasUniquePairs e Request.get_all_expected_machines f u = u
step-HasUniquePairs e Request.get_all_expected_machines_linked f u = u
step-HasUniquePairs e (Request.add_expected_machine q) f u =
    subst HasUniquePairs (sym (ap peerings (persisted-add_expected_machine q f))) u
step-HasUniquePairs e (Request.update_expected_machine q) f u =
    subst HasUniquePairs (sym (ap peerings (persisted-update_expected_machine q f))) u
step-HasUniquePairs e (Request.delete_expected_machine q) f u =
    subst HasUniquePairs (sym (ap peerings (persisted-delete_expected_machine q f))) u
step-HasUniquePairs e (Request.create_expected_machines q) f u =
    subst HasUniquePairs (sym (ap peerings (persisted-create_expected_machines q f))) u
step-HasUniquePairs e (Request.update_expected_machines q) f u =
    subst HasUniquePairs (sym (ap peerings (persisted-update_expected_machines e q f))) u
step-HasUniquePairs e (Request.add_expected_power_shelf q) f u =
    subst HasUniquePairs (sym (ap peerings (persisted-add_expected_power_shelf q f))) u
step-HasUniquePairs e (Request.update_expected_power_shelf q) f u =
    subst HasUniquePairs (sym (ap peerings (persisted-update_expected_power_shelf q f))) u
step-HasUniquePairs e (Request.delete_expected_power_shelf q) f u =
    subst HasUniquePairs (sym (ap peerings (persisted-delete_expected_power_shelf q f))) u
step-HasUniquePairs e (Request.get_expected_power_shelf q) f u = u
step-HasUniquePairs e Request.get_all_expected_power_shelves f u = u
step-HasUniquePairs e (Request.add_expected_switch q) f u =
    subst HasUniquePairs (sym (ap peerings (persisted-add_expected_switch q f))) u
step-HasUniquePairs e (Request.update_expected_switch q) f u =
    subst HasUniquePairs (sym (ap peerings (persisted-update_expected_switch q f))) u
step-HasUniquePairs e (Request.delete_expected_switch q) f u =
    subst HasUniquePairs (sym (ap peerings (persisted-delete_expected_switch q f))) u
step-HasUniquePairs e (Request.get_expected_switch q) f u = u
step-HasUniquePairs e Request.get_all_expected_switches f u = u
step-HasUniquePairs e (Request.add_expected_rack q) f u =
    subst HasUniquePairs (sym (ap peerings (persisted-add_expected_rack q f))) u
step-HasUniquePairs e (Request.update_expected_rack q) f u =
    subst HasUniquePairs (sym (ap peerings (persisted-update_expected_rack q f))) u
step-HasUniquePairs e (Request.delete_expected_rack q) f u =
    subst HasUniquePairs (sym (ap peerings (persisted-delete_expected_rack q f))) u
step-HasUniquePairs e (Request.get_expected_rack q) f u = u
step-HasUniquePairs e Request.get_all_expected_racks f u = u
step-HasUniquePairs e (Request.replace_all_expected_racks q) f u =
    subst HasUniquePairs (sym (ap peerings (persisted-replace_all_expected_racks q f))) u
step-HasUniquePairs e Request.delete_all_expected_racks f u =
    subst HasUniquePairs (sym (ap peerings (persisted-delete_all_expected_racks f))) u
