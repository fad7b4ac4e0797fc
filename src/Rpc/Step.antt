-- ===== src/Rpc/Step.antt =====
-- The handler of a request, as the generated gRPC server calls it: the server afterwards, and how
-- the call ended.
use nico_core_mock.Env.{Env}
use nico_core_mock.Forge.Expect.Batch.{create_expected_machines, update_expected_machines}
use nico_core_mock.Forge.Expect.Linked.{get_all_expected_machines_linked}
use nico_core_mock.Forge.Expect.Machine.{
  add_expected_machine, delete_expected_machine, get_all_expected_machines, update_expected_machine,
}
use nico_core_mock.Forge.Expect.Rack.{
  add_expected_rack, delete_all_expected_racks, delete_expected_rack, get_all_expected_racks,
  get_expected_rack, replace_all_expected_racks, update_expected_rack,
}
use nico_core_mock.Forge.Expect.Shelf.{
  add_expected_power_shelf, delete_expected_power_shelf, get_all_expected_power_shelves,
  get_expected_power_shelf, update_expected_power_shelf,
}
use nico_core_mock.Forge.Expect.Switch.{
  add_expected_switch, delete_expected_switch, get_all_expected_switches, get_expected_switch,
  update_expected_switch,
}
use nico_core_mock.Forge.Ib.{
  create_ib_partition, delete_ib_partition, find_ib_partition_ids, find_ib_partitions_by_ids,
  update_ib_partition,
}
use nico_core_mock.Forge.Images.{
  create_os_image, delete_os_image, get_os_image, list_os_image, update_os_image,
}
use nico_core_mock.Forge.Instances.{
  allocate_instance, find_instance_ids, find_instances_by_ids, invoke_instance_power,
  release_instance, update_instance_config,
}
use nico_core_mock.Forge.Keyset.{
  create_tenant_keyset, delete_tenant_keyset, find_tenant_keyset_ids, find_tenant_keysets_by_ids,
  update_tenant_keyset,
}
use nico_core_mock.Forge.Machines.{
  associate_machines, find_machine_ids, find_machines_by_ids, remove_association,
}
use nico_core_mock.Forge.Nvlink.{
  create_nvlink_partition, delete_nvlink_partition, find_nvlink_partition_ids,
  find_nvlink_partitions_by_ids, nvlink_partitions_for_tenant, update_nvlink_partition,
}
use nico_core_mock.Forge.Peering.{
  create_vpc_peering, delete_vpc_peering, find_vpc_peering_ids, find_vpc_peerings_by_ids,
}
use nico_core_mock.Forge.Prefix.{
  create_vpc_prefix, delete_vpc_prefix, get_vpc_prefixes, search_vpc_prefixes, update_vpc_prefix,
}
use nico_core_mock.Forge.SecurityGroup.{
  create_network_security_group, delete_network_security_group, find_network_security_group_ids,
  find_network_security_groups_by_ids, get_propagation_status, update_network_security_group,
}
use nico_core_mock.Forge.Segment.{
  create_network_segment, delete_network_segment, find_network_segment_ids,
  find_network_segments_by_ids,
}
use nico_core_mock.Forge.Systems.{
  create_operating_system, get_operating_system, update_operating_system,
}
use nico_core_mock.Forge.Tenants.{
  create_tenant, find_tenant_organization_ids, find_tenants_by_organization_ids, update_tenant,
}
use nico_core_mock.Forge.Types.{
  create_instance_type, delete_instance_type, find_instance_type_ids, find_instance_types_by_ids,
}
use nico_core_mock.Forge.Vpc.{
  create_vpc, delete_vpc, find_vpc_ids, find_vpcs, find_vpcs_by_ids, update_vpc,
}
use nico_core_mock.Reply.{Ending, Reply, ending, ok}
use nico_core_mock.Rpc.Request.{Request}
use nico_core_mock.Server.{Server}

abbrev pub finish : {A : Type 0} → Server × Reply A → Server × Ending
finish (f, r) = (f, ending r)

-- A handler that only reads.
abbrev pub reads : {A : Type 0} → Server → Reply A → Server × Ending
reads f r = (f, ending r)

unfoldable pub step : Env → Request → Server → Server × Ending
step e (Request.create_vpc q) f = finish (create_vpc e q f)
step e (Request.update_vpc q) f = finish (update_vpc q f)
step e (Request.delete_vpc q) f = finish (delete_vpc q f)
step e (Request.find_vpc_ids q) f = reads f (find_vpc_ids e q f)
step e (Request.find_vpcs_by_ids q) f = reads f (find_vpcs_by_ids q f)
step e (Request.find_vpcs q) f = reads f (find_vpcs e q f)
step e (Request.create_network_segment q) f = finish (create_network_segment e q f)
step e (Request.delete_network_segment q) f = finish (delete_network_segment q f)
step e (Request.find_network_segment_ids q) f = reads f (find_network_segment_ids e q f)
step e (Request.find_network_segments_by_ids q) f = reads f (find_network_segments_by_ids q f)
step e (Request.allocate_instance q) f = finish (allocate_instance e q f)
step e (Request.release_instance q) f = finish (release_instance q f)
step e (Request.update_instance_config q) f = finish (update_instance_config e q f)
step e (Request.find_instance_ids q) f = reads f (find_instance_ids e q f)
step e (Request.find_instances_by_ids q) f = finish (find_instances_by_ids q f)
step e (Request.invoke_instance_power q) f = reads f (invoke_instance_power e q f)
step e (Request.find_machine_ids q) f = reads f (find_machine_ids e q f)
step e (Request.find_machines_by_ids q) f = finish (find_machines_by_ids e q f)
step e (Request.associate_machines q) f = finish (associate_machines q f)
step e (Request.remove_association q) f = finish (remove_association q f)
step e (Request.create_instance_type q) f = finish (create_instance_type e q f)
step e (Request.delete_instance_type q) f = finish (delete_instance_type q f)
step e Request.find_instance_type_ids f = reads f (ok (find_instance_type_ids e f))
step e (Request.find_instance_types_by_ids q) f = reads f (find_instance_types_by_ids q f)
step e Request.find_nvlink_partition_ids f = reads f (ok (find_nvlink_partition_ids e f))
step e (Request.find_nvlink_partitions_by_ids q) f = reads f (find_nvlink_partitions_by_ids q f)
step e (Request.create_nvlink_partition q) f = finish (create_nvlink_partition e q f)
step e (Request.update_nvlink_partition q) f = finish (update_nvlink_partition q f)
step e (Request.delete_nvlink_partition q) f = finish (delete_nvlink_partition q f)
step e (Request.nvlink_partitions_for_tenant q) f =
    reads f (ok (nvlink_partitions_for_tenant e q f))
step e (Request.create_ib_partition q) f = finish (create_ib_partition e q f)
step e (Request.update_ib_partition q) f = finish (update_ib_partition q f)
step e (Request.delete_ib_partition q) f = finish (delete_ib_partition q f)
step e (Request.find_ib_partition_ids q) f = reads f (find_ib_partition_ids e q f)
step e (Request.find_ib_partitions_by_ids q) f = reads f (find_ib_partitions_by_ids q f)
step e Request.find_tenant_organization_ids f = reads f (ok (find_tenant_organization_ids e f))
step e (Request.find_tenants_by_organization_ids q) f =
    reads f (find_tenants_by_organization_ids q f)
step e (Request.create_tenant q) f = finish (create_tenant q f)
step e (Request.update_tenant q) f = finish (update_tenant q f)
step e (Request.create_tenant_keyset q) f = finish (create_tenant_keyset q f)
step e (Request.update_tenant_keyset q) f = finish (update_tenant_keyset q f)
step e (Request.delete_tenant_keyset q) f = finish (delete_tenant_keyset q f)
step e (Request.find_tenant_keyset_ids q) f = reads f (find_tenant_keyset_ids e q f)
step e (Request.find_tenant_keysets_by_ids q) f = reads f (find_tenant_keysets_by_ids q f)
step e (Request.create_vpc_peering q) f = finish (create_vpc_peering e q f)
step e (Request.delete_vpc_peering q) f = finish (delete_vpc_peering q f)
step e (Request.find_vpc_peering_ids q) f = reads f (ok (find_vpc_peering_ids e q f))
step e (Request.find_vpc_peerings_by_ids q) f = reads f (find_vpc_peerings_by_ids e q f)
step e (Request.create_network_security_group q) f = finish (create_network_security_group e q f)
step e (Request.update_network_security_group q) f = finish (update_network_security_group e q f)
step e (Request.delete_network_security_group q) f = finish (delete_network_security_group q f)
step e Request.find_network_security_group_ids f =
    reads f (ok (find_network_security_group_ids e f))
step e (Request.find_network_security_groups_by_ids q) f =
    reads f (find_network_security_groups_by_ids e q f)
step e (Request.get_propagation_status q) f = reads f (get_propagation_status e q f)
step e (Request.get_vpc_prefixes q) f = reads f (get_vpc_prefixes e q f)
step e Request.search_vpc_prefixes f = reads f (ok (search_vpc_prefixes e f))
step e (Request.create_vpc_prefix q) f = finish (create_vpc_prefix e q f)
step e (Request.update_vpc_prefix q) f = finish (update_vpc_prefix q f)
step e (Request.delete_vpc_prefix q) f = finish (delete_vpc_prefix q f)
step e Request.list_os_image f = reads f (ok (list_os_image e f))
step e (Request.create_os_image q) f = finish (create_os_image e q f)
step e (Request.update_os_image q) f = finish (update_os_image e q f)
step e (Request.delete_os_image q) f = finish (delete_os_image q f)
step e (Request.get_os_image q) f = reads f (get_os_image q f)
step e (Request.create_operating_system q) f = finish (create_operating_system e q f)
step e (Request.get_operating_system q) f = reads f (get_operating_system q f)
step e (Request.update_operating_system q) f = finish (update_operating_system e q f)
step e Request.get_all_expected_machines f = reads f (ok (get_all_expected_machines e f))
step e Request.get_all_expected_machines_linked f =
    reads f (ok (get_all_expected_machines_linked e f))
step e (Request.add_expected_machine q) f = finish (add_expected_machine q f)
step e (Request.update_expected_machine q) f = finish (update_expected_machine q f)
step e (Request.delete_expected_machine q) f = finish (delete_expected_machine q f)
step e (Request.create_expected_machines q) f = finish (create_expected_machines q f)
step e (Request.update_expected_machines q) f = finish (update_expected_machines e q f)
step e (Request.add_expected_power_shelf q) f = finish (add_expected_power_shelf q f)
step e (Request.update_expected_power_shelf q) f = finish (update_expected_power_shelf q f)
step e (Request.delete_expected_power_shelf q) f = finish (delete_expected_power_shelf q f)
step e (Request.get_expected_power_shelf q) f = reads f (get_expected_power_shelf q f)
step e Request.get_all_expected_power_shelves f = reads f (ok (get_all_expected_power_shelves e f))
step e (Request.add_expected_switch q) f = finish (add_expected_switch q f)
step e (Request.update_expected_switch q) f = finish (update_expected_switch q f)
step e (Request.delete_expected_switch q) f = finish (delete_expected_switch q f)
step e (Request.get_expected_switch q) f = reads f (get_expected_switch q f)
step e Request.get_all_expected_switches f = reads f (ok (get_all_expected_switches e f))
step e (Request.add_expected_rack q) f = finish (add_expected_rack q f)
step e (Request.update_expected_rack q) f = finish (update_expected_rack q f)
step e (Request.delete_expected_rack q) f = finish (delete_expected_rack q f)
step e (Request.get_expected_rack q) f = reads f (get_expected_rack q f)
step e Request.get_all_expected_racks f = reads f (ok (get_all_expected_racks e f))
step e (Request.replace_all_expected_racks q) f = finish (replace_all_expected_racks q f)
step e Request.delete_all_expected_racks f = finish (delete_all_expected_racks f)
