-- ===== src/Rpc/ReadOnly.antt =====
-- The calls that internal/server/server.go does not follow by a save.
use nico_core_mock.Env.{Env}
use nico_core_mock.Prelude.{Bool, String, false, none, refl, sym, true, ◌∙◌, ◌≡◌}
use nico_core_mock.Rpc.Method.{full_method, method_name}
use nico_core_mock.Rpc.Request.{Request}
use nico_core_mock.Rpc.Step.{step}
use nico_core_mock.Server.{Server}
use nico_core_mock.Statestore.Methods.{
  after_last_slash, is_mutating_method, is_mutating_method-append, is_mutating_name,
}

-- FindMachinesByIds may complete the discovery information of a stored machine, and its name counts
-- as read-only.
abbrev pub completes_discovery : Request → Bool
completes_discovery (Request.find_machines_by_ids q) = true
completes_discovery _ = false

method_name-slash : (r : Request) → after_last_slash (method_name r) ≡ none
unfolding method_name after_last_slash
method_name-slash (Request.create_vpc q) = refl
method_name-slash (Request.update_vpc q) = refl
method_name-slash (Request.delete_vpc q) = refl
method_name-slash (Request.find_vpc_ids q) = refl
method_name-slash (Request.find_vpcs_by_ids q) = refl
method_name-slash (Request.find_vpcs q) = refl
method_name-slash (Request.create_network_segment q) = refl
method_name-slash (Request.delete_network_segment q) = refl
method_name-slash (Request.find_network_segment_ids q) = refl
method_name-slash (Request.find_network_segments_by_ids q) = refl
method_name-slash (Request.allocate_instance q) = refl
method_name-slash (Request.release_instance q) = refl
method_name-slash (Request.update_instance_config q) = refl
method_name-slash (Request.find_instance_ids q) = refl
method_name-slash (Request.find_instances_by_ids q) = refl
method_name-slash (Request.invoke_instance_power q) = refl
method_name-slash (Request.find_machine_ids q) = refl
method_name-slash (Request.find_machines_by_ids q) = refl
method_name-slash (Request.associate_machines q) = refl
method_name-slash (Request.remove_association q) = refl
method_name-slash (Request.create_instance_type q) = refl
method_name-slash (Request.delete_instance_type q) = refl
method_name-slash Request.find_instance_type_ids = refl
method_name-slash (Request.find_instance_types_by_ids q) = refl
method_name-slash Request.find_nvlink_partition_ids = refl
method_name-slash (Request.find_nvlink_partitions_by_ids q) = refl
method_name-slash (Request.create_nvlink_partition q) = refl
method_name-slash (Request.update_nvlink_partition q) = refl
method_name-slash (Request.delete_nvlink_partition q) = refl
method_name-slash (Request.nvlink_partitions_for_tenant q) = refl
method_name-slash (Request.create_ib_partition q) = refl
method_name-slash (Request.update_ib_partition q) = refl
method_name-slash (Request.delete_ib_partition q) = refl
method_name-slash (Request.find_ib_partition_ids q) = refl
method_name-slash (Request.find_ib_partitions_by_ids q) = refl
method_name-slash Request.find_tenant_organization_ids = refl
method_name-slash (Request.find_tenants_by_organization_ids q) = refl
method_name-slash (Request.create_tenant q) = refl
method_name-slash (Request.update_tenant q) = refl
method_name-slash (Request.create_tenant_keyset q) = refl
method_name-slash (Request.update_tenant_keyset q) = refl
method_name-slash (Request.delete_tenant_keyset q) = refl
method_name-slash (Request.find_tenant_keyset_ids q) = refl
method_name-slash (Request.find_tenant_keysets_by_ids q) = refl
method_name-slash (Request.create_vpc_peering q) = refl
method_name-slash (Request.delete_vpc_peering q) = refl
method_name-slash (Request.find_vpc_peering_ids q) = refl
method_name-slash (Request.find_vpc_peerings_by_ids q) = refl
method_name-slash (Request.create_network_security_group q) = refl
method_name-slash (Request.update_network_security_group q) = refl
method_name-slash (Request.delete_network_security_group q) = refl
method_name-slash Request.find_network_security_group_ids = refl
method_name-slash (Request.find_network_security_groups_by_ids q) = refl
method_name-slash (Request.get_propagation_status q) = refl
method_name-slash (Request.get_vpc_prefixes q) = refl
method_name-slash Request.search_vpc_prefixes = refl
method_name-slash (Request.create_vpc_prefix q) = refl
method_name-slash (Request.update_vpc_prefix q) = refl
method_name-slash (Request.delete_vpc_prefix q) = refl
method_name-slash Request.list_os_image = refl
method_name-slash (Request.create_os_image q) = refl
method_name-slash (Request.update_os_image q) = refl
method_name-slash (Request.delete_os_image q) = refl
method_name-slash (Request.get_os_image q) = refl
method_name-slash (Request.create_operating_system q) = refl
method_name-slash (Request.get_operating_system q) = refl
method_name-slash (Request.update_operating_system q) = refl
method_name-slash Request.get_all_expected_machines = refl
method_name-slash Request.get_all_expected_machines_linked = refl
method_name-slash (Request.add_expected_machine q) = refl
method_name-slash (Request.update_expected_machine q) = refl
method_name-slash (Request.delete_expected_machine q) = refl
method_name-slash (Request.create_expected_machines q) = refl
method_name-slash (Request.update_expected_machines q) = refl
method_name-slash (Request.add_expected_power_shelf q) = refl
method_name-slash (Request.update_expected_power_shelf q) = refl
method_name-slash (Request.delete_expected_power_shelf q) = refl
method_name-slash (Request.get_expected_power_shelf q) = refl
method_name-slash Request.get_all_expected_power_shelves = refl
method_name-slash (Request.add_expected_switch q) = refl
method_name-slash (Request.update_expected_switch q) = refl
method_name-slash (Request.delete_expected_switch q) = refl
method_name-slash (Request.get_expected_switch q) = refl
method_name-slash Request.get_all_expected_switches = refl
method_name-slash (Request.add_expected_rack q) = refl
method_name-slash (Request.update_expected_rack q) = refl
method_name-slash (Request.delete_expected_rack q) = refl
method_name-slash (Request.get_expected_rack q) = refl
method_name-slash Request.get_all_expected_racks = refl
method_name-slash (Request.replace_all_expected_racks q) = refl
method_name-slash Request.delete_all_expected_racks = refl

step-unchanged :
    (e : Env) (r : Request) (f : Server)
    → is_mutating_name (method_name r) ≡ false
    → completes_discovery r ≡ false
    → (step e r f).0 ≡ f
unfolding step is_mutating_name method_name
step-unchanged e (Request.create_vpc q) f h d = cc
step-unchanged e (Request.update_vpc q) f h d = cc
step-unchanged e (Request.delete_vpc q) f h d = cc
step-unchanged e (Request.find_vpc_ids q) f h d = refl
step-unchanged e (Request.find_vpcs_by_ids q) f h d = refl
step-unchanged e (Request.find_vpcs q) f h d = refl
step-unchanged e (Request.create_network_segment q) f h d = cc
step-unchanged e (Request.delete_network_segment q) f h d = cc
step-unchanged e (Request.find_network_segment_ids q) f h d = refl
step-unchanged e (Request.find_network_segments_by_ids q) f h d = refl
step-unchanged e (Request.allocate_instance q) f h d = cc
step-unchanged e (Request.release_instance q) f h d = cc
step-unchanged e (Request.update_instance_config q) f h d = cc
step-unchanged e (Request.find_instance_ids q) f h d = refl
step-unchanged e (Request.find_instances_by_ids q) f h d = cc
step-unchanged e (Request.invoke_instance_power q) f h d = refl
step-unchanged e (Request.find_machine_ids q) f h d = refl
step-unchanged e (Request.find_machines_by_ids q) f h d = cc
step-unchanged e (Request.associate_machines q) f h d = cc
step-unchanged e (Request.remove_association q) f h d = cc
step-unchanged e (Request.create_instance_type q) f h d = cc
step-unchanged e (Request.delete_instance_type q) f h d = cc
step-unchanged e Request.find_instance_type_ids f h d = refl
step-unchanged e (Request.find_instance_types_by_ids q) f h d = refl
step-unchanged e Request.find_nvlink_partition_ids f h d = refl
step-unchanged e (Request.find_nvlink_partitions_by_ids q) f h d = refl
step-unchanged e (Request.create_nvlink_partition q) f h d = cc
step-unchanged e (Request.update_nvlink_partition q) f h d = cc
step-unchanged e (Request.delete_nvlink_partition q) f h d = cc
step-unchanged e (Request.nvlink_partitions_for_tenant q) f h d = refl
step-unchanged e (Request.create_ib_partition q) f h d = cc
step-unchanged e (Request.update_ib_partition q) f h d = cc
step-unchanged e (Request.delete_ib_partition q) f h d = cc
step-unchanged e (Request.find_ib_partition_ids q) f h d = refl
step-unchanged e (Request.find_ib_partitions_by_ids q) f h d = refl
step-unchanged e Request.find_tenant_organization_ids f h d = refl
step-unchanged e (Request.find_tenants_by_organization_ids q) f h d = refl
step-unchanged e (Request.create_tenant q) f h d = cc
step-unchanged e (Request.update_tenant q) f h d = cc
step-unchanged e (Request.create_tenant_keyset q) f h d = cc
step-unchanged e (Request.update_tenant_keyset q) f h d = cc
step-unchanged e (Request.delete_tenant_keyset q) f h d = cc
step-unchanged e (Request.find_tenant_keyset_ids q) f h d = refl
step-unchanged e (Request.find_tenant_keysets_by_ids q) f h d = refl
step-unchanged e (Request.create_vpc_peering q) f h d = cc
step-unchanged e (Request.delete_vpc_peering q) f h d = cc
step-unchanged e (Request.find_vpc_peering_ids q) f h d = refl
step-unchanged e (Request.find_vpc_peerings_by_ids q) f h d = refl
step-unchanged e (Request.create_network_security_group q) f h d = cc
step-unchanged e (Request.update_network_security_group q) f h d = cc
step-unchanged e (Request.delete_network_security_group q) f h d = cc
step-unchanged e Request.find_network_security_group_ids f h d = refl
step-unchanged e (Request.find_network_security_groups_by_ids q) f h d = refl
step-unchanged e (Request.get_propagation_status q) f h d = refl
step-unchanged e (Request.get_vpc_prefixes q) f h d = refl
step-unchanged e Request.search_vpc_prefixes f h d = refl
step-unchanged e (Request.create_vpc_prefix q) f h d = cc
step-unchanged e (Request.update_vpc_prefix q) f h d = cc
step-unchanged e (Request.delete_vpc_prefix q) f h d = cc
step-unchanged e Request.list_os_image f h d = refl
step-unchanged e (Request.create_os_image q) f h d = cc
step-unchanged e (Request.update_os_image q) f h d = cc
step-unchanged e (Request.delete_os_image q) f h d = cc
step-unchanged e (Request.get_os_image q) f h d = refl
step-unchanged e (Request.create_operating_system q) f h d = cc
step-unchanged e (Request.get_operating_system q) f h d = refl
step-unchanged e (Request.update_operating_system q) f h d = cc
step-unchanged e Request.get_all_expected_machines f h d = refl
step-unchanged e Request.get_all_expected_machines_linked f h d = refl
step-unchanged e (Request.add_expected_machine q) f h d = cc
step-unchanged e (Request.update_expected_machine q) f h d = cc
step-unchanged e (Request.delete_expected_machine q) f h d = cc
step-unchanged e (Request.create_expected_machines q) f h d = cc
step-unchanged e (Request.update_expected_machines q) f h d = cc
step-unchanged e (Request.add_expected_power_shelf q) f h d = cc
step-unchanged e (Request.update_expected_power_shelf q) f h d = cc
step-unchanged e (Request.delete_expected_power_shelf q) f h d = cc
step-unchanged e (Request.get_expected_power_shelf q) f h d = refl
step-unchanged e Request.get_all_expected_power_shelves f h d = refl
step-unchanged e (Request.add_expected_switch q) f h d = cc
step-unchanged e (Request.update_expected_switch q) f h d = cc
step-unchanged e (Request.delete_expected_switch q) f h d = cc
step-unchanged e (Request.get_expected_switch q) f h d = refl
step-unchanged e Request.get_all_expected_switches f h d = refl
step-unchanged e (Request.add_expected_rack q) f h d = cc
step-unchanged e (Request.update_expected_rack q) f h d = cc
step-unchanged e (Request.delete_expected_rack q) f h d = cc
step-unchanged e (Request.get_expected_rack q) f h d = refl
step-unchanged e Request.get_all_expected_racks f h d = refl
step-unchanged e (Request.replace_all_expected_racks q) f h d = cc
step-unchanged e Request.delete_all_expected_racks f h d = cc

-- A call whose full method name the classifier counts as not mutating, other than FindMachinesByIds
-- and the methods of tenant identity, leaves as they were all the maps that the others work on, the
-- links of the inventory and the jobs, whatever the service is called: the save that is not made
-- after it would have written nothing new.
pub step-read_only :
    (e : Env) (service : String) (r : Request) (f : Server)
    → is_mutating_method (full_method service r) ≡ false
    → completes_discovery r ≡ false
    → (step e r f).0 ≡ f
step-read_only e service r f h d =
    step-unchanged e r f
      (sym (is_mutating_method-append service (method_name r) (method_name-slash r)) ∙ h) d
