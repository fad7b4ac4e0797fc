-- ===== src/Rpc/Refused/Steps.antt =====
-- Refused calls, over all requests.
use nico_core_mock.Env.{Env}
use nico_core_mock.Forge.Expect.Batch.{create_expected_machines, update_expected_machines}
use nico_core_mock.Forge.Expect.Machine.{
  add_expected_machine, delete_expected_machine, update_expected_machine,
}
use nico_core_mock.Forge.Expect.Rack.{
  add_expected_rack, delete_all_expected_racks, delete_expected_rack, replace_all_expected_racks,
  update_expected_rack,
}
use nico_core_mock.Forge.Expect.Shelf.{
  add_expected_power_shelf, delete_expected_power_shelf, update_expected_power_shelf,
}
use nico_core_mock.Forge.Expect.Switch.{
  add_expected_switch, delete_expected_switch, update_expected_switch,
}
use nico_core_mock.Forge.Ib.{create_ib_partition, delete_ib_partition, update_ib_partition}
use nico_core_mock.Forge.Images.{create_os_image, delete_os_image, update_os_image}
use nico_core_mock.Forge.Instances.{
  allocate_instance, find_instances_by_ids, release_instance, update_instance_config,
}
use nico_core_mock.Forge.Keyset.{create_tenant_keyset, delete_tenant_keyset, update_tenant_keyset}
use nico_core_mock.Forge.Machines.{associate_machines, find_machines_by_ids, remove_association}
use nico_core_mock.Forge.Nvlink.{
  create_nvlink_partition, delete_nvlink_partition, update_nvlink_partition,
}
use nico_core_mock.Forge.Peering.{create_vpc_peering, delete_vpc_peering}
use nico_core_mock.Forge.Prefix.{create_vpc_prefix, delete_vpc_prefix, update_vpc_prefix}
use nico_core_mock.Forge.SecurityGroup.{
  create_network_security_group, delete_network_security_group, update_network_security_group,
}
use nico_core_mock.Forge.Segment.{create_network_segment, delete_network_segment}
use nico_core_mock.Forge.Systems.{create_operating_system, update_operating_system}
use nico_core_mock.Forge.Tenants.{create_tenant, update_tenant}
use nico_core_mock.Forge.Types.{create_instance_type, delete_instance_type}
use nico_core_mock.Forge.Vpc.{create_vpc, delete_vpc, update_vpc}
use nico_core_mock.Prelude.{arith, refl, ◌≡◌}
use nico_core_mock.Reply.{Code, Reply, err, ok, panic, refused}
use nico_core_mock.Rpc.Refused.Kept.{
  refused-allocate_instance, refused-associate_machines, refused-create_instance_type,
  refused-create_network_segment, refused-create_operating_system, refused-create_os_image,
  refused-create_vpc, refused-create_vpc_peering, refused-create_vpc_prefix,
  refused-delete_instance_type, refused-delete_network_segment, refused-delete_os_image,
  refused-delete_vpc, refused-delete_vpc_peering, refused-delete_vpc_prefix,
  refused-find_instances_by_ids, refused-find_machines_by_ids, refused-release_instance,
  refused-remove_association, refused-update_instance_config, refused-update_operating_system,
  refused-update_os_image, refused-update_vpc, refused-update_vpc_prefix,
}
use nico_core_mock.Rpc.Refused.Other.{
  refused-add_expected_machine, refused-add_expected_power_shelf, refused-add_expected_rack,
  refused-add_expected_switch, refused-create_expected_machines, refused-create_ib_partition,
  refused-create_network_security_group, refused-create_nvlink_partition, refused-create_tenant,
  refused-create_tenant_keyset, refused-delete_all_expected_racks, refused-delete_expected_machine,
  refused-delete_expected_power_shelf, refused-delete_expected_rack, refused-delete_expected_switch,
  refused-delete_ib_partition, refused-delete_network_security_group,
  refused-delete_nvlink_partition, refused-delete_tenant_keyset, refused-replace_all_expected_racks,
  refused-update_expected_machine, refused-update_expected_machines,
  refused-update_expected_power_shelf, refused-update_expected_rack, refused-update_expected_switch,
  refused-update_ib_partition, refused-update_network_security_group,
  refused-update_nvlink_partition, refused-update_tenant, refused-update_tenant_keyset,
}
use nico_core_mock.Rpc.Request.{Request}
use nico_core_mock.Rpc.Step.{finish, step}
use nico_core_mock.Server.{Server}

finish-refused :
    {A : Type 0} (x : Server × Reply A) (f : Server) (c : Code)
    → ((d : Code) → x.1 ≡ err d → x.0 ≡ f)
    → (finish x).1 ≡ refused c
    → (finish x).0 ≡ f
finish-refused (g, ok a) f c h p = ground arith
finish-refused (g, err d) f c h p = h d refl
finish-refused (g, panic) f c h p = ground arith

-- A call of a method other than those of tenant identity that ends with a status error leaves as they
-- were all the maps that these methods work on, the links of the inventory and the jobs started.
pub step-refused :
    (e : Env) (r : Request) (f : Server) (c : Code)
    → (step e r f).1 ≡ refused c
    → (step e r f).0 ≡ f
unfolding step
step-refused e (Request.create_vpc q) f c p =
    finish-refused (create_vpc e q f) f c (refused-create_vpc e q f) p
step-refused e (Request.update_vpc q) f c p =
    finish-refused (update_vpc q f) f c (refused-update_vpc q f) p
step-refused e (Request.delete_vpc q) f c p =
    finish-refused (delete_vpc q f) f c (refused-delete_vpc q f) p
step-refused e (Request.find_vpc_ids q) f c p = refl
step-refused e (Request.find_vpcs_by_ids q) f c p = refl
step-refused e (Request.find_vpcs q) f c p = refl
step-refused e (Request.create_network_segment q) f c p =
    finish-refused (create_network_segment e q f) f c (refused-create_network_segment e q f) p
step-refused e (Request.delete_network_segment q) f c p =
    finish-refused (delete_network_segment q f) f c (refused-delete_network_segment q f) p
step-refused e (Request.find_network_segment_ids q) f c p = refl
step-refused e (Request.find_network_segments_by_ids q) f c p = refl
step-refused e (Request.allocate_instance q) f c p =
    finish-refused (allocate_instance e q f) f c (refused-allocate_instance e q f) p
step-refused e (Request.release_instance q) f c p =
    finish-refused (release_instance q f) f c (refused-release_instance q f) p
step-refused e (Request.update_instance_config q) f c p =
    finish-refused (update_instance_config e q f) f c (refused-update_instance_config e q f) p
step-refused e (Request.find_instance_ids q) f c p = refl
step-refused e (Request.find_instances_by_ids q) f c p =
    finish-refused (find_instances_by_ids q f) f c (refused-find_instances_by_ids q f) p
step-refused e (Request.invoke_instance_power q) f c p = refl
step-refused e (Request.find_machine_ids q) f c p = refl
step-refused e (Request.find_machines_by_ids q) f c p =
    finish-refused (find_machines_by_ids e q f) f c (refused-find_machines_by_ids e q f) p
step-refused e (Request.associate_machines q) f c p =
    finish-refused (associate_machines q f) f c (refused-associate_machines q f) p
step-refused e (Request.remove_association q) f c p =
    finish-refused (remove_association q f) f c (refused-remove_association q f) p
step-refused e (Request.create_instance_type q) f c p =
    finish-refused (create_instance_type e q f) f c (refused-create_instance_type e q f) p
step-refused e (Request.delete_instance_type q) f c p =
    finish-refused (delete_instance_type q f) f c (refused-delete_instance_type q f) p
step-refused e Request.find_instance_type_ids f c p = refl
step-refused e (Request.find_instance_types_by_ids q) f c p = refl
step-refused e Request.find_nvlink_partition_ids f c p = refl
step-refused e (Request.find_nvlink_partitions_by_ids q) f c p = refl
step-refused e (Request.create_nvlink_partition q) f c p =
    finish-refused (create_nvlink_partition e q f) f c (refused-create_nvlink_partition e q f) p
step-refused e (Request.update_nvlink_partition q) f c p =
    finish-refused (update_nvlink_partition q f) f c (refused-update_nvlink_partition q f) p
step-refused e (Request.delete_nvlink_partition q) f c p =
    finish-refused (delete_nvlink_partition q f) f c (refused-delete_nvlink_partition q f) p
step-refused e (Request.nvlink_partitions_for_tenant q) f c p = refl
step-refused e (Request.create_ib_partition q) f c p =
    finish-refused (create_ib_partition e q f) f c (refused-create_ib_partition e q f) p
step-refused e (Request.update_ib_partition q) f c p =
    finish-refused (update_ib_partition q f) f c (refused-update_ib_partition q f) p
step-refused e (Request.delete_ib_partition q) f c p =
    finish-refused (delete_ib_partition q f) f c (refused-delete_ib_partition q f) p
step-refused e (Request.find_ib_partition_ids q) f c p = refl
step-refused e (Request.find_ib_partitions_by_ids q) f c p = refl
step-refused e Request.find_tenant_organization_ids f c p = refl
step-refused e (Request.find_tenants_by_organization_ids q) f c p = refl
step-refused e (Request.create_tenant q) f c p =
    finish-refused (create_tenant q f) f c (refused-create_tenant q f) p
step-refused e (Request.update_tenant q) f c p =
    finish-refused (update_tenant q f) f c (refused-update_tenant q f) p
step-refused e (Request.create_tenant_keyset q) f c p =
    finish-refused (create_tenant_keyset q f) f c (refused-create_tenant_keyset q f) p
step-refused e (Request.update_tenant_keyset q) f c p =
    finish-refused (update_tenant_keyset q f) f c (refused-update_tenant_keyset q f) p
step-refused e (Request.delete_tenant_keyset q) f c p =
    finish-refused (delete_tenant_keyset q f) f c (refused-delete_tenant_keyset q f) p
step-refused e (Request.find_tenant_keyset_ids q) f c p = refl
step-refused e (Request.find_tenant_keysets_by_ids q) f c p = refl
step-refused e (Request.create_vpc_peering q) f c p =
    finish-refused (create_vpc_peering e q f) f c (refused-create_vpc_peering e q f) p
step-refused e (Request.delete_vpc_peering q) f c p =
    finish-refused (delete_vpc_peering q f) f c (refused-delete_vpc_peering q f) p
step-refused e (Request.find_vpc_peering_ids q) f c p = refl
step-refused e (Request.find_vpc_peerings_by_ids q) f c p = refl
step-refused e (Request.create_network_security_group q) f c p =
    finish-refused (create_network_security_group e q f) f c
      (refused-create_network_security_group e q f) p
step-refused e (Request.update_network_security_group q) f c p =
    finish-refused (update_network_security_group e q f) f c
      (refused-update_network_security_group e q f) p
step-refused e (Request.delete_network_security_group q) f c p =
    finish-refused (delete_network_security_group q f) f c
      (refused-delete_network_security_group q f) p
step-refused e Request.find_network_security_group_ids f c p = refl
step-refused e (Request.find_network_security_groups_by_ids q) f c p = refl
step-refused e (Request.get_propagation_status q) f c p = refl
step-refused e (Request.get_vpc_prefixes q) f c p = refl
step-refused e Request.search_vpc_prefixes f c p = refl
step-refused e (Request.create_vpc_prefix q) f c p =
    finish-refused (create_vpc_prefix e q f) f c (refused-create_vpc_prefix e q f) p
step-refused e (Request.update_vpc_prefix q) f c p =
    finish-refused (update_vpc_prefix q f) f c (refused-update_vpc_prefix q f) p
step-refused e (Request.delete_vpc_prefix q) f c p =
    finish-refused (delete_vpc_prefix q f) f c (refused-delete_vpc_prefix q f) p
step-refused e Request.list_os_image f c p = refl
step-refused e (Request.create_os_image q) f c p =
    finish-refused (create_os_image e q f) f c (refused-create_os_image e q f) p
step-refused e (Request.update_os_image q) f c p =
    finish-refused (update_os_image e q f) f c (refused-update_os_image e q f) p
step-refused e (Request.delete_os_image q) f c p =
    finish-refused (delete_os_image q f) f c (refused-delete_os_image q f) p
step-refused e (Request.get_os_image q) f c p = refl
step-refused e (Request.create_operating_system q) f c p =
    finish-refused (create_operating_system e q f) f c (refused-create_operating_system e q f) p
step-refused e (Request.get_operating_system q) f c p = refl
step-refused e (Request.update_operating_system q) f c p =
    finish-refused (update_operating_system e q f) f c (refused-update_operating_system e q f) p
step-refused e Request.get_all_expected_machines f c p = refl
step-refused e Request.get_all_expected_machines_linked f c p = refl
step-refused e (Request.add_expected_machine q) f c p =
    finish-refused (add_expected_machine q f) f c (refused-add_expected_machine q f) p
step-refused e (Request.update_expected_machine q) f c p =
    finish-refused (update_expected_machine q f) f c (refused-update_expected_machine q f) p
step-refused e (Request.delete_expected_machine q) f c p =
    finish-refused (delete_expected_machine q f) f c (refused-delete_expected_machine q f) p
step-refused e (Request.create_expected_machines q) f c p =
    finish-refused (create_expected_machines q f) f c (refused-create_expected_machines q f) p
step-refused e (Request.update_expected_machines q) f c p =
    finish-refused (update_expected_machines e q f) f c (refused-update_expected_machines e q f) p
step-refused e (Request.add_expected_power_shelf q) f c p =
    finish-refused (add_expected_power_shelf q f) f c (refused-add_expected_power_shelf q f) p
step-refused e (Request.update_expected_power_shelf q) f c p =
    finish-refused (update_expected_power_shelf q f) f c (refused-update_expected_power_shelf q f) p
step-refused e (Request.delete_expected_power_shelf q) f c p =
    finish-refused (delete_expected_power_shelf q f) f c (refused-delete_expected_power_shelf q f) p
step-refused e (Request.get_expected_power_shelf q) f c p = refl
step-refused e Request.get_all_expected_power_shelves f c p = refl
step-refused e (Request.add_expected_switch q) f c p =
    finish-refused (add_expected_switch q f) f c (refused-add_expected_switch q f) p
step-refused e (Request.update_expected_switch q) f c p =
    finish-refused (update_expected_switch q f) f c (refused-update_expected_switch q f) p
step-refused e (Request.delete_expected_switch q) f c p =
    finish-refused (delete_expected_switch q f) f c (refused-delete_expected_switch q f) p
step-refused e (Request.get_expected_switch q) f c p = refl
step-refused e Request.get_all_expected_switches f c p = refl
step-refused e (Request.add_expected_rack q) f c p =
    finish-refused (add_expected_rack q f) f c (refused-add_expected_rack q f) p
step-refused e (Request.update_expected_rack q) f c p =
    finish-refused (update_expected_rack q f) f c (refused-update_expected_rack q f) p
step-refused e (Request.delete_expected_rack q) f c p =
    finish-refused (delete_expected_rack q f) f c (refused-delete_expected_rack q f) p
step-refused e (Request.get_expected_rack q) f c p = refl
step-refused e Request.get_all_expected_racks f c p = refl
step-refused e (Request.replace_all_expected_racks q) f c p =
    finish-refused (replace_all_expected_racks q f) f c (refused-replace_all_expected_racks q f) p
step-refused e Request.delete_all_expected_racks f c p =
    finish-refused (delete_all_expected_racks f) f c (refused-delete_all_expected_racks f) p
