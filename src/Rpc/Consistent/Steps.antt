-- ===== src/Rpc/Consistent/Steps.antt =====
-- The invariant of the persisted maps, over all requests.
use nico_core_mock.Persist.Key
use nico_core_mock.Env.{Env}
use nico_core_mock.GoMap.{GoMap}
use nico_core_mock.GoMap.Load.{IsKeyed}
use nico_core_mock.Message.Compute.{Instance, InstanceType, Machine, OperatingSystem, OsImage}
use nico_core_mock.Message.Network.{NetworkSegment, Vpc, VpcPeering, VpcPrefix}
use nico_core_mock.Persist.{Persisted, persisted}
use nico_core_mock.Persist.Recovery.{IsConsistent}
use nico_core_mock.Prelude.{subst, sym}
use nico_core_mock.Rpc.Consistent.Compute.{
  IsSoundRequest, allocate_instance-IsKeyed, allocate_instance_machine-IsKeyed,
  create_instance_type-IsKeyed, delete_instance_type-IsKeyed, find_instances_by_ids-IsKeyed,
  persisted-allocate_instance, release_instance-IsKeyed, update_instance_config-IsKeyed,
}
use nico_core_mock.Rpc.Consistent.Fresh.{IsFresh}
use nico_core_mock.Rpc.Consistent.Images.{
  create_operating_system-IsKeyed, create_os_image-IsKeyed, create_os_image-system-IsKeyed,
  delete_os_image-IsKeyed, delete_os_image-system-IsKeyed, update_operating_system-IsKeyed,
  update_os_image-IsKeyed, update_os_image-system-IsKeyed,
}
use nico_core_mock.Rpc.Consistent.Machines.{
  associate_machines-IsKeyed, find_machines_by_ids-IsKeyed, remove_association-IsKeyed,
}
use nico_core_mock.Rpc.Consistent.Network.{
  create_network_segment-IsKeyed, create_vpc-IsKeyed, create_vpc_peering-IsKeyed,
  create_vpc_prefix-IsKeyed, delete_network_segment-IsKeyed, delete_vpc-IsKeyed,
  delete_vpc_peering-IsKeyed, delete_vpc_prefix-IsKeyed, update_vpc-IsKeyed,
  update_vpc_prefix-IsKeyed,
}
use nico_core_mock.Rpc.Frame.Kept.{
  persisted-associate_machines, persisted-create_instance_type, persisted-create_network_segment,
  persisted-create_operating_system, persisted-create_os_image, persisted-create_vpc,
  persisted-create_vpc_peering, persisted-create_vpc_prefix, persisted-delete_instance_type,
  persisted-delete_network_segment, persisted-delete_os_image, persisted-delete_vpc,
  persisted-delete_vpc_peering, persisted-delete_vpc_prefix, persisted-find_instances_by_ids,
  persisted-find_machines_by_ids, persisted-release_instance, persisted-remove_association,
  persisted-update_instance_config, persisted-update_operating_system, persisted-update_os_image,
  persisted-update_vpc, persisted-update_vpc_prefix,
}
use nico_core_mock.Rpc.Frame.Other.{
  persisted-add_expected_machine, persisted-add_expected_power_shelf, persisted-add_expected_rack,
  persisted-add_expected_switch, persisted-create_expected_machines, persisted-create_ib_partition,
  persisted-create_network_security_group, persisted-create_nvlink_partition,
  persisted-create_tenant, persisted-create_tenant_keyset, persisted-delete_all_expected_racks,
  persisted-delete_expected_machine, persisted-delete_expected_power_shelf,
  persisted-delete_expected_rack, persisted-delete_expected_switch, persisted-delete_ib_partition,
  persisted-delete_network_security_group, persisted-delete_nvlink_partition,
  persisted-delete_tenant_keyset, persisted-replace_all_expected_racks,
  persisted-update_expected_machine, persisted-update_expected_machines,
  persisted-update_expected_power_shelf, persisted-update_expected_rack,
  persisted-update_expected_switch, persisted-update_ib_partition,
  persisted-update_network_security_group, persisted-update_nvlink_partition,
  persisted-update_tenant, persisted-update_tenant_keyset,
}
use nico_core_mock.Rpc.Request.{Request}
use nico_core_mock.Rpc.Step.{step}
use nico_core_mock.Server.{Server}

with_v :
    {p : Persisted} {w : GoMap Vpc}
    → IsConsistent p
    → IsKeyed Key.vpc w
    → IsConsistent (record p { v = w })
with_v c h = record {
  v = h;
  ns = c.ns;
  ins = c.ins;
  m = c.m;
  vp = c.vp;
  vpp = c.vpp;
  osi = c.osi;
  oss = c.oss;
  it = c.it;
}

with_ns :
    {p : Persisted} {w : GoMap NetworkSegment}
    → IsConsistent p
    → IsKeyed Key.segment w
    → IsConsistent (record p { ns = w })
with_ns c h = record {
  v = c.v;
  ns = h;
  ins = c.ins;
  m = c.m;
  vp = c.vp;
  vpp = c.vpp;
  osi = c.osi;
  oss = c.oss;
  it = c.it;
}

with_ins :
    {p : Persisted} {w : GoMap Instance}
    → IsConsistent p
    → IsKeyed Key.instance_id w
    → IsConsistent (record p { ins = w })
with_ins c h = record {
  v = c.v;
  ns = c.ns;
  ins = h;
  m = c.m;
  vp = c.vp;
  vpp = c.vpp;
  osi = c.osi;
  oss = c.oss;
  it = c.it;
}

with_m :
    {p : Persisted} {w : GoMap Machine}
    → IsConsistent p
    → IsKeyed Key.machine w
    → IsConsistent (record p { m = w })
with_m c h = record {
  v = c.v;
  ns = c.ns;
  ins = c.ins;
  m = h;
  vp = c.vp;
  vpp = c.vpp;
  osi = c.osi;
  oss = c.oss;
  it = c.it;
}

with_vp :
    {p : Persisted} {w : GoMap VpcPrefix}
    → IsConsistent p
    → IsKeyed Key.prefix_id w
    → IsConsistent (record p { vp = w })
with_vp c h = record {
  v = c.v;
  ns = c.ns;
  ins = c.ins;
  m = c.m;
  vp = h;
  vpp = c.vpp;
  osi = c.osi;
  oss = c.oss;
  it = c.it;
}

with_vpp :
    {p : Persisted} {w : GoMap VpcPeering}
    → IsConsistent p
    → IsKeyed Key.peering w
    → IsConsistent (record p { vpp = w })
with_vpp c h = record {
  v = c.v;
  ns = c.ns;
  ins = c.ins;
  m = c.m;
  vp = c.vp;
  vpp = h;
  osi = c.osi;
  oss = c.oss;
  it = c.it;
}

with_osi :
    {p : Persisted} {w : GoMap OsImage}
    → IsConsistent p
    → IsKeyed Key.image w
    → IsConsistent (record p { osi = w })
with_osi c h = record {
  v = c.v;
  ns = c.ns;
  ins = c.ins;
  m = c.m;
  vp = c.vp;
  vpp = c.vpp;
  osi = h;
  oss = c.oss;
  it = c.it;
}

with_oss :
    {p : Persisted} {w : GoMap OperatingSystem}
    → IsConsistent p
    → IsKeyed Key.system w
    → IsConsistent (record p { oss = w })
with_oss c h = record {
  v = c.v;
  ns = c.ns;
  ins = c.ins;
  m = c.m;
  vp = c.vp;
  vpp = c.vpp;
  osi = c.osi;
  oss = h;
  it = c.it;
}

with_it :
    {p : Persisted} {w : GoMap InstanceType}
    → IsConsistent p
    → IsKeyed Key.instance_type w
    → IsConsistent (record p { it = w })
with_it c h = record {
  v = c.v;
  ns = c.ns;
  ins = c.ins;
  m = c.m;
  vp = c.vp;
  vpp = c.vpp;
  osi = c.osi;
  oss = c.oss;
  it = h;
}

-- What the invariant asks of a request: an instance is not allocated under the id "", nor on a
-- machine with that id.
abbrev pub IsSoundRpc : Request → Type 0
IsSoundRpc (Request.allocate_instance q) = IsSoundRequest q
IsSoundRpc _ = Unit

-- From a server whose persisted maps hold every message under its own id, never "", a request leads
-- to such a server, whether the call returns, is refused or crashes. Requests are those of the methods
-- other than tenant identity. Ids from `uuid.NewString` are taken not to be "",
-- `EnsureMachineDiscoveryInfo` to keep a machine's id, and an allocation not to ask for the id "" or a
-- machine with the id "".
pub step-IsConsistent :
    (e : Env) (r : Request) (f : Server)
    → IsFresh e
    → IsSoundRpc r
    → IsConsistent (persisted f)
    → IsConsistent (persisted (step e r f).0)
unfolding step
step-IsConsistent e (Request.create_vpc q) f fresh s c =
    subst IsConsistent (sym (persisted-create_vpc e q f))
      (with_v c (create_vpc-IsKeyed e q f fresh c.v))
step-IsConsistent e (Request.update_vpc q) f fresh s c =
    subst IsConsistent (sym (persisted-update_vpc q f)) (with_v c (update_vpc-IsKeyed q f c.v))
step-IsConsistent e (Request.delete_vpc q) f fresh s c =
    subst IsConsistent (sym (persisted-delete_vpc q f)) (with_v c (delete_vpc-IsKeyed q f c.v))
step-IsConsistent e (Request.find_vpc_ids q) f fresh s c = c
step-IsConsistent e (Request.find_vpcs_by_ids q) f fresh s c = c
step-IsConsistent e (Request.find_vpcs q) f fresh s c = c
step-IsConsistent e (Request.create_network_segment q) f fresh s c =
    subst IsConsistent (sym (persisted-create_network_segment e q f))
      (with_ns c (create_network_segment-IsKeyed e q f fresh c.ns))
step-IsConsistent e (Request.delete_network_segment q) f fresh s c =
    subst IsConsistent (sym (persisted-delete_network_segment q f))
      (with_ns c (delete_network_segment-IsKeyed q f c.ns))
step-IsConsistent e (Request.find_network_segment_ids q) f fresh s c = c
step-IsConsistent e (Request.find_network_segments_by_ids q) f fresh s c = c
step-IsConsistent e (Request.allocate_instance q) f fresh s c =
    subst IsConsistent (sym (persisted-allocate_instance e q f)) (
      with_m (with_ins c (allocate_instance-IsKeyed e q f fresh s c.ins))
        (allocate_instance_machine-IsKeyed e q f fresh s c.m))
step-IsConsistent e (Request.release_instance q) f fresh s c =
    subst IsConsistent (sym (persisted-release_instance q f))
      (with_ins c (release_instance-IsKeyed q f c.ins))
step-IsConsistent e (Request.update_instance_config q) f fresh s c =
    subst IsConsistent (sym (persisted-update_instance_config e q f))
      (with_ins c (update_instance_config-IsKeyed e q f c.ins))
step-IsConsistent e (Request.find_instance_ids q) f fresh s c = c
step-IsConsistent e (Request.find_instances_by_ids q) f fresh s c =
    subst IsConsistent (sym (persisted-find_instances_by_ids q f))
      (with_ins c (find_instances_by_ids-IsKeyed q f c.ins))
step-IsConsistent e (Request.invoke_instance_power q) f fresh s c = c
step-IsConsistent e (Request.find_machine_ids q) f fresh s c = c
step-IsConsistent e (Request.find_machines_by_ids q) f fresh s c =
    subst IsConsistent (sym (persisted-find_machines_by_ids e q f))
      (with_m c (find_machines_by_ids-IsKeyed e q f fresh c.m))
step-IsConsistent e (Request.associate_machines q) f fresh s c =
    subst IsConsistent (sym (persisted-associate_machines q f))
      (with_m c (associate_machines-IsKeyed q f c.m))
step-IsConsistent e (Request.remove_association q) f fresh s c =
    subst IsConsistent (sym (persisted-remove_association q f))
      (with_m c (remove_association-IsKeyed q f c.m))
step-IsConsistent e (Request.create_instance_type q) f fresh s c =
    subst IsConsistent (sym (persisted-create_instance_type e q f))
      (with_it c (create_instance_type-IsKeyed e q f c.it))
step-IsConsistent e (Request.delete_instance_type q) f fresh s c =
    subst IsConsistent (sym (persisted-delete_instance_type q f))
      (with_it c (delete_instance_type-IsKeyed q f c.it))
step-IsConsistent e Request.find_instance_type_ids f fresh s c = c
step-IsConsistent e (Request.find_instance_types_by_ids q) f fresh s c = c
step-IsConsistent e Request.find_nvlink_partition_ids f fresh s c = c
step-IsConsistent e (Request.find_nvlink_partitions_by_ids q) f fresh s c = c
step-IsConsistent e (Request.create_nvlink_partition q) f fresh s c =
    subst IsConsistent (sym (persisted-create_nvlink_partition e q f)) c
step-IsConsistent e (Request.update_nvlink_partition q) f fresh s c =
    subst IsConsistent (sym (persisted-update_nvlink_partition q f)) c
step-IsConsistent e (Request.delete_nvlink_partition q) f fresh s c =
    subst IsConsistent (sym (persisted-delete_nvlink_partition q f)) c
step-IsConsistent e (Request.nvlink_partitions_for_tenant q) f fresh s c = c
step-IsConsistent e (Request.create_ib_partition q) f fresh s c =
    subst IsConsistent (sym (persisted-create_ib_partition e q f)) c
step-IsConsistent e (Request.update_ib_partition q) f fresh s c =
    subst IsConsistent (sym (persisted-update_ib_partition q f)) c
step-IsConsistent e (Request.delete_ib_partition q) f fresh s c =
    subst IsConsistent (sym (persisted-delete_ib_partition q f)) c
step-IsConsistent e (Request.find_ib_partition_ids q) f fresh s c = c
step-IsConsistent e (Request.find_ib_partitions_by_ids q) f fresh s c = c
step-IsConsistent e Request.find_tenant_organization_ids f fresh s c = c
step-IsConsistent e (Request.find_tenants_by_organization_ids q) f fresh s c = c
step-IsConsistent e (Request.create_tenant q) f fresh s c =
    subst IsConsistent (sym (persisted-create_tenant q f)) c
step-IsConsistent e (Request.update_tenant q) f fresh s c =
    subst IsConsistent (sym (persisted-update_tenant q f)) c
step-IsConsistent e (Request.create_tenant_keyset q) f fresh s c =
    subst IsConsistent (sym (persisted-create_tenant_keyset q f)) c
step-IsConsistent e (Request.update_tenant_keyset q) f fresh s c =
    subst IsConsistent (sym (persisted-update_tenant_keyset q f)) c
step-IsConsistent e (Request.delete_tenant_keyset q) f fresh s c =
    subst IsConsistent (sym (persisted-delete_tenant_keyset q f)) c
step-IsConsistent e (Request.find_tenant_keyset_ids q) f fresh s c = c
step-IsConsistent e (Request.find_tenant_keysets_by_ids q) f fresh s c = c
step-IsConsistent e (Request.create_vpc_peering q) f fresh s c =
    subst IsConsistent (sym (persisted-create_vpc_peering e q f))
      (with_vpp c (create_vpc_peering-IsKeyed e q f fresh c.vpp))
step-IsConsistent e (Request.delete_vpc_peering q) f fresh s c =
    subst IsConsistent (sym (persisted-delete_vpc_peering q f))
      (with_vpp c (delete_vpc_peering-IsKeyed q f c.vpp))
step-IsConsistent e (Request.find_vpc_peering_ids q) f fresh s c = c
step-IsConsistent e (Request.find_vpc_peerings_by_ids q) f fresh s c = c
step-IsConsistent e (Request.create_network_security_group q) f fresh s c =
    subst IsConsistent (sym (persisted-create_network_security_group e q f)) c
step-IsConsistent e (Request.update_network_security_group q) f fresh s c =
    subst IsConsistent (sym (persisted-update_network_security_group e q f)) c
step-IsConsistent e (Request.delete_network_security_group q) f fresh s c =
    subst IsConsistent (sym (persisted-delete_network_security_group q f)) c
step-IsConsistent e Request.find_network_security_group_ids f fresh s c = c
step-IsConsistent e (Request.find_network_security_groups_by_ids q) f fresh s c = c
step-IsConsistent e (Request.get_propagation_status q) f fresh s c = c
step-IsConsistent e (Request.get_vpc_prefixes q) f fresh s c = c
step-IsConsistent e Request.search_vpc_prefixes f fresh s c = c
step-IsConsistent e (Request.create_vpc_prefix q) f fresh s c =
    subst IsConsistent (sym (persisted-create_vpc_prefix e q f))
      (with_vp c (create_vpc_prefix-IsKeyed e q f fresh c.vp))
step-IsConsistent e (Request.update_vpc_prefix q) f fresh s c =
    subst IsConsistent (sym (persisted-update_vpc_prefix q f))
      (with_vp c (update_vpc_prefix-IsKeyed q f c.vp))
step-IsConsistent e (Request.delete_vpc_prefix q) f fresh s c =
    subst IsConsistent (sym (persisted-delete_vpc_prefix q f))
      (with_vp c (delete_vpc_prefix-IsKeyed q f c.vp))
step-IsConsistent e Request.list_os_image f fresh s c = c
step-IsConsistent e (Request.create_os_image q) f fresh s c =
    subst IsConsistent (sym (persisted-create_os_image e q f)) (
      with_oss (with_osi c (create_os_image-IsKeyed e q f fresh c.osi))
        (create_os_image-system-IsKeyed e q f c.oss))
step-IsConsistent e (Request.update_os_image q) f fresh s c =
    subst IsConsistent (sym (persisted-update_os_image e q f)) (
      with_oss (with_osi c (update_os_image-IsKeyed e q f c.osi))
        (update_os_image-system-IsKeyed e q f c.oss))
step-IsConsistent e (Request.delete_os_image q) f fresh s c =
    subst IsConsistent (sym (persisted-delete_os_image q f)) (
      with_oss (with_osi c (delete_os_image-IsKeyed q f c.osi))
        (delete_os_image-system-IsKeyed q f c.oss))
step-IsConsistent e (Request.get_os_image q) f fresh s c = c
step-IsConsistent e (Request.create_operating_system q) f fresh s c =
    subst IsConsistent (sym (persisted-create_operating_system e q f))
      (with_oss c (create_operating_system-IsKeyed e q f fresh c.oss))
step-IsConsistent e (Request.get_operating_system q) f fresh s c = c
step-IsConsistent e (Request.update_operating_system q) f fresh s c =
    subst IsConsistent (sym (persisted-update_operating_system e q f))
      (with_oss c (update_operating_system-IsKeyed e q f c.oss))
step-IsConsistent e Request.get_all_expected_machines f fresh s c = c
step-IsConsistent e Request.get_all_expected_machines_linked f fresh s c = c
step-IsConsistent e (Request.add_expected_machine q) f fresh s c =
    subst IsConsistent (sym (persisted-add_expected_machine q f)) c
step-IsConsistent e (Request.update_expected_machine q) f fresh s c =
    subst IsConsistent (sym (persisted-update_expected_machine q f)) c
step-IsConsistent e (Request.delete_expected_machine q) f fresh s c =
    subst IsConsistent (sym (persisted-delete_expected_machine q f)) c
step-IsConsistent e (Request.create_expected_machines q) f fresh s c =
    subst IsConsistent (sym (persisted-create_expected_machines q f)) c
step-IsConsistent e (Request.update_expected_machines q) f fresh s c =
    subst IsConsistent (sym (persisted-update_expected_machines e q f)) c
step-IsConsistent e (Request.add_expected_power_shelf q) f fresh s c =
    subst IsConsistent (sym (persisted-add_expected_power_shelf q f)) c
step-IsConsistent e (Request.update_expected_power_shelf q) f fresh s c =
    subst IsConsistent (sym (persisted-update_expected_power_shelf q f)) c
step-IsConsistent e (Request.delete_expected_power_shelf q) f fresh s c =
    subst IsConsistent (sym (persisted-delete_expected_power_shelf q f)) c
step-IsConsistent e (Request.get_expected_power_shelf q) f fresh s c = c
step-IsConsistent e Request.get_all_expected_power_shelves f fresh s c = c
step-IsConsistent e (Request.add_expected_switch q) f fresh s c =
    subst IsConsistent (sym (persisted-add_expected_switch q f)) c
step-IsConsistent e (Request.update_expected_switch q) f fresh s c =
    subst IsConsistent (sym (persisted-update_expected_switch q f)) c
step-IsConsistent e (Request.delete_expected_switch q) f fresh s c =
    subst IsConsistent (sym (persisted-delete_expected_switch q f)) c
step-IsConsistent e (Request.get_expected_switch q) f fresh s c = c
step-IsConsistent e Request.get_all_expected_switches f fresh s c = c
step-IsConsistent e (Request.add_expected_rack q) f fresh s c =
    subst IsConsistent (sym (persisted-add_expected_rack q f)) c
step-IsConsistent e (Request.update_expected_rack q) f fresh s c =
    subst IsConsistent (sym (persisted-update_expected_rack q f)) c
step-IsConsistent e (Request.delete_expected_rack q) f fresh s c =
    subst IsConsistent (sym (persisted-delete_expected_rack q f)) c
step-IsConsistent e (Request.get_expected_rack q) f fresh s c = c
step-IsConsistent e Request.get_all_expected_racks f fresh s c = c
step-IsConsistent e (Request.replace_all_expected_racks q) f fresh s c =
    subst IsConsistent (sym (persisted-replace_all_expected_racks q f)) c
step-IsConsistent e Request.delete_all_expected_racks f fresh s c =
    subst IsConsistent (sym (persisted-delete_all_expected_racks f)) c
