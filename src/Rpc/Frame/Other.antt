-- ===== src/Rpc/Frame/Other.antt =====
-- The persisted maps and the handlers of the other maps.
use nico_core_mock.Env.{Env}
use nico_core_mock.Forge.Expect.Batch.{create_expected_machines, update_expected_machines}
use nico_core_mock.Forge.Expect.Machine.{
  add_expected_machine, delete_expected_machine, update_expected_machine,
}
use nico_core_mock.Forge.Expect.Rack.{
  add_expected_rack, delete_all_expected_racks, delete_expected_rack, replace_all_expected_racks,
  update_expected_rack,
}
use nico_core_mock.Forge.Expect.Shelf.{
  add_expected_power_shelf, delete_expected_power_shelf, update_expected_power_shelf,
}
use nico_core_mock.Forge.Expect.Switch.{
  add_expected_switch, delete_expected_switch, update_expected_switch,
}
use nico_core_mock.Forge.Ib.{create_ib_partition, delete_ib_partition, update_ib_partition}
use nico_core_mock.Forge.Keyset.{create_tenant_keyset, delete_tenant_keyset, update_tenant_keyset}
use nico_core_mock.Forge.Nvlink.{
  create_nvlink_partition, delete_nvlink_partition, update_nvlink_partition,
}
use nico_core_mock.Forge.SecurityGroup.{
  create_network_security_group, delete_network_security_group, update_network_security_group,
}
use nico_core_mock.Forge.Tenants.{create_tenant, update_tenant}
use nico_core_mock.Message.Expected.{
  ExpectedMachine, ExpectedPowerShelf, ExpectedRack, ExpectedSwitch,
}
use nico_core_mock.Message.Fabric.{
  IbPartitionRequest, NvlinkRequest, TenantKeysetRequest, TenantRequest,
}
use nico_core_mock.Message.Network.{
  CreateNetworkSecurityGroupRequest, UpdateNetworkSecurityGroupRequest,
}
use nico_core_mock.Persist.{persisted}
use nico_core_mock.Prelude.{List, Option, String, arith, none, refl, some, ◌≡◌}
use nico_core_mock.Server.{Server}

pub persisted-create_nvlink_partition :
    (e : Env) (q : Option NvlinkRequest) (f : Server)
    → persisted (create_nvlink_partition e q f).0 ≡ persisted f
unfolding create_nvlink_partition
persisted-create_nvlink_partition e none f = refl
persisted-create_nvlink_partition e (some q) f = ground arith

pub persisted-update_nvlink_partition :
    (q : Option NvlinkRequest) (f : Server)
    → persisted (update_nvlink_partition q f).0 ≡ persisted f
unfolding update_nvlink_partition
persisted-update_nvlink_partition none f = refl
persisted-update_nvlink_partition (some q) f = ground arith

pub persisted-delete_nvlink_partition :
    (q : Option (Option String)) (f : Server)
    → persisted (delete_nvlink_partition q f).0 ≡ persisted f
unfolding delete_nvlink_partition
persisted-delete_nvlink_partition none f = refl
persisted-delete_nvlink_partition (some none) f = ground arith
persisted-delete_nvlink_partition (some (some id)) f = ground arith

pub persisted-create_ib_partition :
    (e : Env) (q : Option IbPartitionRequest) (f : Server)
    → persisted (create_ib_partition e q f).0 ≡ persisted f
unfolding create_ib_partition
persisted-create_ib_partition e none f = refl
persisted-create_ib_partition e (some q) f = ground arith

pub persisted-update_ib_partition :
    (q : Option IbPartitionRequest) (f : Server)
    → persisted (update_ib_partition q f).0 ≡ persisted f
unfolding update_ib_partition
persisted-update_ib_partition none f = refl
persisted-update_ib_partition (some q) f = ground arith

pub persisted-delete_ib_partition :
    (q : Option (Option String)) (f : Server) → persisted (delete_ib_partition q f).0 ≡ persisted f
unfolding delete_ib_partition
persisted-delete_ib_partition none f = refl
persisted-delete_ib_partition (some none) f = ground arith
persisted-delete_ib_partition (some (some id)) f = ground arith

pub persisted-create_tenant :
    (q : Option TenantRequest) (f : Server) → persisted (create_tenant q f).0 ≡ persisted f
unfolding create_tenant
persisted-create_tenant none f = refl
persisted-create_tenant (some q) f = ground arith

pub persisted-update_tenant :
    (q : Option TenantRequest) (f : Server) → persisted (update_tenant q f).0 ≡ persisted f
unfolding update_tenant
persisted-update_tenant none f = refl
persisted-update_tenant (some q) f = ground arith

pub persisted-create_tenant_keyset :
    (q : Option TenantKeysetRequest) (f : Server)
    → persisted (create_tenant_keyset q f).0 ≡ persisted f
unfolding create_tenant_keyset
persisted-create_tenant_keyset none f = refl
persisted-create_tenant_keyset (some q) f = ground arith

pub persisted-update_tenant_keyset :
    (q : Option TenantKeysetRequest) (f : Server)
    → persisted (update_tenant_keyset q f).0 ≡ persisted f
unfolding update_tenant_keyset
persisted-update_tenant_keyset none f = refl
persisted-update_tenant_keyset (some q) f = ground arith

pub persisted-delete_tenant_keyset :
    (q : Option (Option String)) (f : Server) → persisted (delete_tenant_keyset q f).0 ≡ persisted f
unfolding delete_tenant_keyset
persisted-delete_tenant_keyset none f = refl
persisted-delete_tenant_keyset (some none) f = ground arith
persisted-delete_tenant_keyset (some (some id)) f = ground arith

pub persisted-create_network_security_group :
    (e : Env) (q : Option CreateNetworkSecurityGroupRequest) (f : Server)
    → persisted (create_network_security_group e q f).0 ≡ persisted f
unfolding create_network_security_group
persisted-create_network_security_group e none f = refl
persisted-create_network_security_group e (some q) f = ground arith

pub persisted-update_network_security_group :
    (e : Env) (q : Option UpdateNetworkSecurityGroupRequest) (f : Server)
    → persisted (update_network_security_group e q f).0 ≡ persisted f
unfolding update_network_security_group
persisted-update_network_security_group e none f = refl
persisted-update_network_security_group e (some q) f = ground arith

pub persisted-delete_network_security_group :
    (q : Option String) (f : Server) → persisted (delete_network_security_group q f).0 ≡ persisted f
unfolding delete_network_security_group
persisted-delete_network_security_group none f = refl
persisted-delete_network_security_group (some q) f = ground arith

pub persisted-add_expected_machine :
    (q : Option ExpectedMachine) (f : Server) → persisted (add_expected_machine q f).0 ≡ persisted f
unfolding add_expected_machine
persisted-add_expected_machine none f = refl
persisted-add_expected_machine (some q) f = ground arith

pub persisted-update_expected_machine :
    (q : Option ExpectedMachine) (f : Server)
    → persisted (update_expected_machine q f).0 ≡ persisted f
unfolding update_expected_machine
persisted-update_expected_machine none f = refl
persisted-update_expected_machine (some q) f = ground arith

pub persisted-delete_expected_machine :
    (q : Option (Option String)) (f : Server)
    → persisted (delete_expected_machine q f).0 ≡ persisted f
unfolding delete_expected_machine
persisted-delete_expected_machine none f = refl
persisted-delete_expected_machine (some none) f = ground arith
persisted-delete_expected_machine (some (some id)) f = ground arith

pub persisted-create_expected_machines :
    (q : Option (List (Option ExpectedMachine))) (f : Server)
    → persisted (create_expected_machines q f).0 ≡ persisted f
unfolding create_expected_machines
persisted-create_expected_machines none f = refl
persisted-create_expected_machines (some q) f = ground arith

pub persisted-update_expected_machines :
    (e : Env) (q : Option (List (Option ExpectedMachine))) (f : Server)
    → persisted (update_expected_machines e q f).0 ≡ persisted f
unfolding update_expected_machines
persisted-update_expected_machines e none f = refl
persisted-update_expected_machines e (some q) f = ground arith

pub persisted-add_expected_power_shelf :
    (q : Option ExpectedPowerShelf) (f : Server)
    → persisted (add_expected_power_shelf q f).0 ≡ persisted f
unfolding add_expected_power_shelf
persisted-add_expected_power_shelf none f = refl
persisted-add_expected_power_shelf (some q) f = ground arith

pub persisted-update_expected_power_shelf :
    (q : Option ExpectedPowerShelf) (f : Server)
    → persisted (update_expected_power_shelf q f).0 ≡ persisted f
unfolding update_expected_power_shelf
persisted-update_expected_power_shelf none f = refl
persisted-update_expected_power_shelf (some q) f = ground arith

pub persisted-delete_expected_power_shelf :
    (q : Option (Option String)) (f : Server)
    → persisted (delete_expected_power_shelf q f).0 ≡ persisted f
unfolding delete_expected_power_shelf
persisted-delete_expected_power_shelf none f = refl
persisted-delete_expected_power_shelf (some none) f = ground arith
persisted-delete_expected_power_shelf (some (some id)) f = ground arith

pub persisted-add_expected_switch :
    (q : Option ExpectedSwitch) (f : Server) → persisted (add_expected_switch q f).0 ≡ persisted f
unfolding add_expected_switch
persisted-add_expected_switch none f = refl
persisted-add_expected_switch (some q) f = ground arith

pub persisted-update_expected_switch :
    (q : Option ExpectedSwitch) (f : Server)
    → persisted (update_expected_switch q f).0 ≡ persisted f
unfolding update_expected_switch
persisted-update_expected_switch none f = refl
persisted-update_expected_switch (some q) f = ground arith

pub persisted-delete_expected_switch :
    (q : Option (Option String)) (f : Server)
    → persisted (delete_expected_switch q f).0 ≡ persisted f
unfolding delete_expected_switch
persisted-delete_expected_switch none f = refl
persisted-delete_expected_switch (some none) f = ground arith
persisted-delete_expected_switch (some (some id)) f = ground arith

pub persisted-add_expected_rack :
    (q : Option ExpectedRack) (f : Server) → persisted (add_expected_rack q f).0 ≡ persisted f
unfolding add_expected_rack
persisted-add_expected_rack none f = refl
persisted-add_expected_rack (some q) f = ground arith

pub persisted-update_expected_rack :
    (q : Option ExpectedRack) (f : Server) → persisted (update_expected_rack q f).0 ≡ persisted f
unfolding update_expected_rack
persisted-update_expected_rack none f = refl
persisted-update_expected_rack (some q) f = ground arith

pub persisted-delete_expected_rack :
    (q : Option String) (f : Server) → persisted (delete_expected_rack q f).0 ≡ persisted f
unfolding delete_expected_rack
persisted-delete_expected_rack none f = refl
persisted-delete_expected_rack (some q) f = ground arith

pub persisted-replace_all_expected_racks :
    (q : Option (List (Option ExpectedRack))) (f : Server)
    → persisted (replace_all_expected_racks q f).0 ≡ persisted f
unfolding replace_all_expected_racks
persisted-replace_all_expected_racks none f = refl
persisted-replace_all_expected_racks (some q) f = ground arith

pub persisted-delete_all_expected_racks :
    (f : Server) → persisted (delete_all_expected_racks f).0 ≡ persisted f
unfolding delete_all_expected_racks
persisted-delete_all_expected_racks f = refl
