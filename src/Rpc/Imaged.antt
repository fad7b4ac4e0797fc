-- ===== src/Rpc/Imaged.antt =====
-- OS images and their operating systems, over all requests.
use nico_core_mock.Env.{Env}
use nico_core_mock.Forge.Images.Paired.{
  HasSystems, create_operating_system-HasSystems, create_os_image-HasSystems,
  delete_os_image-HasSystems, update_operating_system-HasSystems, update_os_image-HasSystems,
}
use nico_core_mock.Persist.{Persisted}
use nico_core_mock.Prelude.{empty_text, false, subst, sym, ◌≡◌}
use nico_core_mock.Rpc.Consistent.Compute.{persisted-allocate_instance}
use nico_core_mock.Rpc.Frame.Kept.{
  persisted-associate_machines, persisted-create_instance_type, persisted-create_network_segment,
  persisted-create_operating_system, persisted-create_vpc, persisted-create_vpc_peering,
  persisted-create_vpc_prefix, persisted-delete_instance_type, persisted-delete_network_segment,
  persisted-delete_vpc, persisted-delete_vpc_peering, persisted-delete_vpc_prefix,
  persisted-find_instances_by_ids, persisted-find_machines_by_ids, persisted-release_instance,
  persisted-remove_association, persisted-update_instance_config, persisted-update_operating_system,
  persisted-update_vpc, persisted-update_vpc_prefix,
}
use nico_core_mock.Rpc.Frame.Other.{
  persisted-add_expected_machine, persisted-add_expected_power_shelf, persisted-add_expected_rack,
  persisted-add_expected_switch, persisted-create_expected_machines, persisted-create_ib_partition,
  persisted-create_network_security_group, persisted-create_nvlink_partition,
  persisted-create_tenant, persisted-create_tenant_keyset, persisted-delete_all_expected_racks,
  persisted-delete_expected_machine, persisted-delete_expected_power_shelf,
  persisted-delete_expected_rack, persisted-delete_expected_switch, persisted-delete_ib_partition,
  persisted-delete_network_security_group, persisted-delete_nvlink_partition,
  persisted-delete_tenant_keyset, persisted-replace_all_expected_racks,
  persisted-update_expected_machine, persisted-update_expected_machines,
  persisted-update_expected_power_shelf, persisted-update_expected_rack,
  persisted-update_expected_switch, persisted-update_ib_partition,
  persisted-update_network_security_group, persisted-update_nvlink_partition,
  persisted-update_tenant, persisted-update_tenant_keyset,
}
use nico_core_mock.Rpc.Request.{Request}
use nico_core_mock.Rpc.Step.{step}
use nico_core_mock.Server.{Server}

abbrev SystemsStored : Persisted → Type 0
SystemsStored p = HasSystems p.osi p.oss

-- No request, whether it returns, is refused or crashes, leads from a server in which every stored OS
-- image has a stored operating system of the same id to one in which an image has none. Ids from
-- `uuid.NewString` are taken not to be "".
pub step-HasSystems :
    (e : Env) (r : Request) (f : Server)
    → empty_text e.uuid ≡ false
    → HasSystems f.osi f.oss
    → HasSystems (step e r f).0.osi (step e r f).0.oss
unfolding step
step-HasSystems e (Request.create_vpc q) f u w =
    subst SystemsStored (sym (persisted-create_vpc e q f)) w
step-HasSystems e (Request.update_vpc q) f u w =
    subst SystemsStored (sym (persisted-update_vpc q f)) w
step-HasSystems e (Request.delete_vpc q) f u w =
    subst SystemsStored (sym (persisted-delete_vpc q f)) w
step-HasSystems e (Request.find_vpc_ids q) f u w = w
step-HasSystems e (Request.find_vpcs_by_ids q) f u w = w
step-HasSystems e (Request.find_vpcs q) f u w = w
step-HasSystems e (Request.create_network_segment q) f u w =
    subst SystemsStored (sym (persisted-create_network_segment e q f)) w
step-HasSystems e (Request.delete_network_segment q) f u w =
    subst SystemsStored (sym (persisted-delete_network_segment q f)) w
step-HasSystems e (Request.find_network_segment_ids q) f u w = w
step-HasSystems e (Request.find_network_segments_by_ids q) f u w = w
step-HasSystems e (Request.allocate_instance q) f u w =
    subst SystemsStored (sym (persisted-allocate_instance e q f)) w
step-HasSystems e (Request.release_instance q) f u w =
    subst SystemsStored (sym (persisted-release_instance q f)) w
step-HasSystems e (Request.update_instance_config q) f u w =
    subst SystemsStored (sym (persisted-update_instance_config e q f)) w
step-HasSystems e (Request.find_instance_ids q) f u w = w
step-HasSystems e (Request.find_instances_by_ids q) f u w =
    subst SystemsStored (sym (persisted-find_instances_by_ids q f)) w
step-HasSystems e (Request.invoke_instance_power q) f u w = w
step-HasSystems e (Request.find_machine_ids q) f u w = w
step-HasSystems e (Request.find_machines_by_ids q) f u w =
    subst SystemsStored (sym (persisted-find_machines_by_ids e q f)) w
step-HasSystems e (Request.associate_machines q) f u w =
    subst SystemsStored (sym (persisted-associate_machines q f)) w
step-HasSystems e (Request.remove_association q) f u w =
    subst SystemsStored (sym (persisted-remove_association q f)) w
step-HasSystems e (Request.create_instance_type q) f u w =
    subst SystemsStored (sym (persisted-create_instance_type e q f)) w
step-HasSystems e (Request.delete_instance_type q) f u w =
    subst SystemsStored (sym (persisted-delete_instance_type q f)) w
step-HasSystems e Request.find_instance_type_ids f u w = w
step-HasSystems e (Request.find_instance_types_by_ids q) f u w = w
step-HasSystems e Request.find_nvlink_partition_ids f u w = w
step-HasSystems e (Request.find_nvlink_partitions_by_ids q) f u w = w
step-HasSystems e (Request.create_nvlink_partition q) f u w =
    subst SystemsStored (sym (persisted-create_nvlink_partition e q f)) w
step-HasSystems e (Request.update_nvlink_partition q) f u w =
    subst SystemsStored (sym (persisted-update_nvlink_partition q f)) w
step-HasSystems e (Request.delete_nvlink_partition q) f u w =
    subst SystemsStored (sym (persisted-delete_nvlink_partition q f)) w
step-HasSystems e (Request.nvlink_partitions_for_tenant q) f u w = w
step-HasSystems e (Request.create_ib_partition q) f u w =
    subst SystemsStored (sym (persisted-create_ib_partition e q f)) w
step-HasSystems e (Request.update_ib_partition q) f u w =
    subst SystemsStored (sym (persisted-update_ib_partition q f)) w
step-HasSystems e (Request.delete_ib_partition q) f u w =
    subst SystemsStored (sym (persisted-delete_ib_partition q f)) w
step-HasSystems e (Request.find_ib_partition_ids q) f u w = w
step-HasSystems e (Request.find_ib_partitions_by_ids q) f u w = w
step-HasSystems e Request.find_tenant_organization_ids f u w = w
step-HasSystems e (Request.find_tenants_by_organization_ids q) f u w = w
step-HasSystems e (Request.create_tenant q) f u w =
    subst SystemsStored (sym (persisted-create_tenant q f)) w
step-HasSystems e (Request.update_tenant q) f u w =
    subst SystemsStored (sym (persisted-update_tenant q f)) w
step-HasSystems e (Request.create_tenant_keyset q) f u w =
    subst SystemsStored (sym (persisted-create_tenant_keyset q f)) w
step-HasSystems e (Request.update_tenant_keyset q) f u w =
    subst SystemsStored (sym (persisted-update_tenant_keyset q f)) w
step-HasSystems e (Request.delete_tenant_keyset q) f u w =
    subst SystemsStored (sym (persisted-delete_tenant_keyset q f)) w
step-HasSystems e (Request.find_tenant_keyset_ids q) f u w = w
step-HasSystems e (Request.find_tenant_keysets_by_ids q) f u w = w
step-HasSystems e (Request.create_vpc_peering q) f u w =
    subst SystemsStored (sym (persisted-create_vpc_peering e q f)) w
step-HasSystems e (Request.delete_vpc_peering q) f u w =
    subst SystemsStored (sym (persisted-delete_vpc_peering q f)) w
step-HasSystems e (Request.find_vpc_peering_ids q) f u w = w
step-HasSystems e (Request.find_vpc_peerings_by_ids q) f u w = w
step-HasSystems e (Request.create_network_security_group q) f u w =
    subst SystemsStored (sym (persisted-create_network_security_group e q f)) w
step-HasSystems e (Request.update_network_security_group q) f u w =
    subst SystemsStored (sym (persisted-update_network_security_group e q f)) w
step-HasSystems e (Request.delete_network_security_group q) f u w =
    subst SystemsStored (sym (persisted-delete_network_security_group q f)) w
step-HasSystems e Request.find_network_security_group_ids f u w = w
step-HasSystems e (Request.find_network_security_groups_by_ids q) f u w = w
step-HasSystems e (Request.get_propagation_status q) f u w = w
step-HasSystems e (Request.get_vpc_prefixes q) f u w = w
step-HasSystems e Request.search_vpc_prefixes f u w = w
step-HasSystems e (Request.create_vpc_prefix q) f u w =
    subst SystemsStored (sym (persisted-create_vpc_prefix e q f)) w
step-HasSystems e (Request.update_vpc_prefix q) f u w =
    subst SystemsStored (sym (persisted-update_vpc_prefix q f)) w
step-HasSystems e (Request.delete_vpc_prefix q) f u w =
    subst SystemsStored (sym (persisted-delete_vpc_prefix q f)) w
step-HasSystems e Request.list_os_image f u w = w
step-HasSystems e (Request.create_os_image q) f u w = create_os_image-HasSystems e q f u w
step-HasSystems e (Request.update_os_image q) f u w = update_os_image-HasSystems e q f w
step-HasSystems e (Request.delete_os_image q) f u w = delete_os_image-HasSystems q f w
step-HasSystems e (Request.get_os_image q) f u w = w
step-HasSystems e (Request.create_operating_system q) f u w =
    subst SystemsStored (sym (persisted-create_operating_system e q f))
      (create_operating_system-HasSystems e q f w)
step-HasSystems e (Request.get_operating_system q) f u w = w
step-HasSystems e (Request.update_operating_system q) f u w =
    subst SystemsStored (sym (persisted-update_operating_system e q f))
      (update_operating_system-HasSystems e q f w)
step-HasSystems e Request.get_all_expected_machines f u w = w
step-HasSystems e Request.get_all_expected_machines_linked f u w = w
step-HasSystems e (Request.add_expected_machine q) f u w =
    subst SystemsStored (sym (persisted-add_expected_machine q f)) w
step-HasSystems e (Request.update_expected_machine q) f u w =
    subst SystemsStored (sym (persisted-update_expected_machine q f)) w
step-HasSystems e (Request.delete_expected_machine q) f u w =
    subst SystemsStored (sym (persisted-delete_expected_machine q f)) w
step-HasSystems e (Request.create_expected_machines q) f u w =
    subst SystemsStored (sym (persisted-create_expected_machines q f)) w
step-HasSystems e (Request.update_expected_machines q) f u w =
    subst SystemsStored (sym (persisted-update_expected_machines e q f)) w
step-HasSystems e (Request.add_expected_power_shelf q) f u w =
    subst SystemsStored (sym (persisted-add_expected_power_shelf q f)) w
step-HasSystems e (Request.update_expected_power_shelf q) f u w =
    subst SystemsStored (sym (persisted-update_expected_power_shelf q f)) w
step-HasSystems e (Request.delete_expected_power_shelf q) f u w =
    subst SystemsStored (sym (persisted-delete_expected_power_shelf q f)) w
step-HasSystems e (Request.get_expected_power_shelf q) f u w = w
step-HasSystems e Request.get_all_expected_power_shelves f u w = w
step-HasSystems e (Request.add_expected_switch q) f u w =
    subst SystemsStored (sym (persisted-add_expected_switch q f)) w
step-HasSystems e (Request.update_expected_switch q) f u w =
    subst SystemsStored (sym (persisted-update_expected_switch q f)) w
step-HasSystems e (Request.delete_expected_switch q) f u w =
    subst SystemsStored (sym (persisted-delete_expected_switch q f)) w
step-HasSystems e (Request.get_expected_switch q) f u w = w
step-HasSystems e Request.get_all_expected_switches f u w = w
step-HasSystems e (Request.add_expected_rack q) f u w =
    subst SystemsStored (sym (persisted-add_expected_rack q f)) w
step-HasSystems e (Request.update_expected_rack q) f u w =
    subst SystemsStored (sym (persisted-update_expected_rack q f)) w
step-HasSystems e (Request.delete_expected_rack q) f u w =
    subst SystemsStored (sym (persisted-delete_expected_rack q f)) w
step-HasSystems e (Request.get_expected_rack q) f u w = w
step-HasSystems e Request.get_all_expected_racks f u w = w
step-HasSystems e (Request.replace_all_expected_racks q) f u w =
    subst SystemsStored (sym (persisted-replace_all_expected_racks q f)) w
step-HasSystems e Request.delete_all_expected_racks f u w =
    subst SystemsStored (sym (persisted-delete_all_expected_racks f)) w
