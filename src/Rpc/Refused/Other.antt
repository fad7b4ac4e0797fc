-- ===== src/Rpc/Refused/Other.antt =====
-- Refused calls of the other handlers.
use nico_core_mock.Env.{Env}
use nico_core_mock.Forge.Expect.Batch.{create_expected_machines, update_expected_machines}
use nico_core_mock.Forge.Expect.Machine.{
  add_expected_machine, delete_expected_machine, update_expected_machine,
}
use nico_core_mock.Forge.Expect.Rack.{
  add_expected_rack, delete_all_expected_racks, delete_expected_rack, replace_all_expected_racks,
  update_expected_rack,
}
use nico_core_mock.Forge.Expect.Shelf.{
  add_expected_power_shelf, delete_expected_power_shelf, update_expected_power_shelf,
}
use nico_core_mock.Forge.Expect.Switch.{
  add_expected_switch, delete_expected_switch, update_expected_switch,
}
use nico_core_mock.Forge.Ib.{create_ib_partition, delete_ib_partition, update_ib_partition}
use nico_core_mock.Forge.Keyset.{create_tenant_keyset, delete_tenant_keyset, update_tenant_keyset}
use nico_core_mock.Forge.Nvlink.{
  create_nvlink_partition, delete_nvlink_partition, update_nvlink_partition,
}
use nico_core_mock.Forge.SecurityGroup.{
  create_network_security_group, delete_network_security_group, update_network_security_group,
}
use nico_core_mock.Forge.Tenants.{create_tenant, update_tenant}
use nico_core_mock.Message.Expected.{
  ExpectedMachine, ExpectedPowerShelf, ExpectedRack, ExpectedSwitch,
}
use nico_core_mock.Message.Fabric.{
  IbPartitionRequest, NvlinkRequest, TenantKeysetRequest, TenantRequest,
}
use nico_core_mock.Message.Network.{
  CreateNetworkSecurityGroupRequest, UpdateNetworkSecurityGroupRequest,
}
use nico_core_mock.Prelude.{List, Option, String, arith, none, refl, some, ◌≡◌}
use nico_core_mock.Reply.{Code, err}
use nico_core_mock.Server.{Server}

pub refused-create_nvlink_partition :
    (e : Env) (q : Option NvlinkRequest) (f : Server) (c : Code)
    → (create_nvlink_partition e q f).1 ≡ err c
    → (create_nvlink_partition e q f).0 ≡ f
unfolding create_nvlink_partition
refused-create_nvlink_partition e none f c p = refl
refused-create_nvlink_partition e (some q) f c p = ground arith

pub refused-update_nvlink_partition :
    (q : Option NvlinkRequest) (f : Server) (c : Code)
    → (update_nvlink_partition q f).1 ≡ err c
    → (update_nvlink_partition q f).0 ≡ f
unfolding update_nvlink_partition
refused-update_nvlink_partition none f c p = refl
refused-update_nvlink_partition (some q) f c p = ground arith

pub refused-delete_nvlink_partition :
    (q : Option (Option String)) (f : Server) (c : Code)
    → (delete_nvlink_partition q f).1 ≡ err c
    → (delete_nvlink_partition q f).0 ≡ f
unfolding delete_nvlink_partition
refused-delete_nvlink_partition none f c p = refl
refused-delete_nvlink_partition (some none) f c p = ground arith
refused-delete_nvlink_partition (some (some id)) f c p = ground arith

pub refused-create_ib_partition :
    (e : Env) (q : Option IbPartitionRequest) (f : Server) (c : Code)
    → (create_ib_partition e q f).1 ≡ err c
    → (create_ib_partition e q f).0 ≡ f
unfolding create_ib_partition
refused-create_ib_partition e none f c p = refl
refused-create_ib_partition e (some q) f c p = ground arith

pub refused-update_ib_partition :
    (q : Option IbPartitionRequest) (f : Server) (c : Code)
    → (update_ib_partition q f).1 ≡ err c
    → (update_ib_partition q f).0 ≡ f
unfolding update_ib_partition
refused-update_ib_partition none f c p = refl
refused-update_ib_partition (some q) f c p = ground arith

pub refused-delete_ib_partition :
    (q : Option (Option String)) (f : Server) (c : Code)
    → (delete_ib_partition q f).1 ≡ err c
    → (delete_ib_partition q f).0 ≡ f
unfolding delete_ib_partition
refused-delete_ib_partition none f c p = refl
refused-delete_ib_partition (some none) f c p = ground arith
refused-delete_ib_partition (some (some id)) f c p = ground arith

pub refused-create_tenant :
    (q : Option TenantRequest) (f : Server) (c : Code)
    → (create_tenant q f).1 ≡ err c
    → (create_tenant q f).0 ≡ f
unfolding create_tenant
refused-create_tenant none f c p = refl
refused-create_tenant (some q) f c p = ground arith

pub refused-update_tenant :
    (q : Option TenantRequest) (f : Server) (c : Code)
    → (update_tenant q f).1 ≡ err c
    → (update_tenant q f).0 ≡ f
unfolding update_tenant
refused-update_tenant none f c p = refl
refused-update_tenant (some q) f c p = ground arith

pub refused-create_tenant_keyset :
    (q : Option TenantKeysetRequest) (f : Server) (c : Code)
    → (create_tenant_keyset q f).1 ≡ err c
    → (create_tenant_keyset q f).0 ≡ f
unfolding create_tenant_keyset
refused-create_tenant_keyset none f c p = refl
refused-create_tenant_keyset (some q) f c p = ground arith

pub refused-update_tenant_keyset :
    (q : Option TenantKeysetRequest) (f : Server) (c : Code)
    → (update_tenant_keyset q f).1 ≡ err c
    → (update_tenant_keyset q f).0 ≡ f
unfolding update_tenant_keyset
refused-update_tenant_keyset none f c p = refl
refused-update_tenant_keyset (some q) f c p = ground arith

pub refused-delete_tenant_keyset :
    (q : Option (Option String)) (f : Server) (c : Code)
    → (delete_tenant_keyset q f).1 ≡ err c
    → (delete_tenant_keyset q f).0 ≡ f
unfolding delete_tenant_keyset
refused-delete_tenant_keyset none f c p = refl
refused-delete_tenant_keyset (some none) f c p = ground arith
refused-delete_tenant_keyset (some (some id)) f c p = ground arith

pub refused-create_network_security_group :
    (e : Env) (q : Option CreateNetworkSecurityGroupRequest) (f : Server) (c : Code)
    → (create_network_security_group e q f).1 ≡ err c
    → (create_network_security_group e q f).0 ≡ f
unfolding create_network_security_group
refused-create_network_security_group e none f c p = refl
refused-create_network_security_group e (some q) f c p = ground arith

pub refused-update_network_security_group :
    (e : Env) (q : Option UpdateNetworkSecurityGroupRequest) (f : Server) (c : Code)
    → (update_network_security_group e q f).1 ≡ err c
    → (update_network_security_group e q f).0 ≡ f
unfolding update_network_security_group
refused-update_network_security_group e none f c p = refl
refused-update_network_security_group e (some q) f c p = ground arith

pub refused-delete_network_security_group :
    (q : Option String) (f : Server) (c : Code)
    → (delete_network_security_group q f).1 ≡ err c
    → (delete_network_security_group q f).0 ≡ f
unfolding delete_network_security_group
refused-delete_network_security_group none f c p = refl
refused-delete_network_security_group (some q) f c p = ground arith

pub refused-add_expected_machine :
    (q : Option ExpectedMachine) (f : Server) (c : Code)
    → (add_expected_machine q f).1 ≡ err c
    → (add_expected_machine q f).0 ≡ f
unfolding add_expected_machine
refused-add_expected_machine none f c p = refl
refused-add_expected_machine (some q) f c p = ground arith

pub refused-update_expected_machine :
    (q : Option ExpectedMachine) (f : Server) (c : Code)
    → (update_expected_machine q f).1 ≡ err c
    → (update_expected_machine q f).0 ≡ f
unfolding update_expected_machine
refused-update_expected_machine none f c p = refl
refused-update_expected_machine (some q) f c p = ground arith

pub refused-delete_expected_machine :
    (q : Option (Option String)) (f : Server) (c : Code)
    → (delete_expected_machine q f).1 ≡ err c
    → (delete_expected_machine q f).0 ≡ f
unfolding delete_expected_machine
refused-delete_expected_machine none f c p = refl
refused-delete_expected_machine (some none) f c p = ground arith
refused-delete_expected_machine (some (some id)) f c p = ground arith

pub refused-create_expected_machines :
    (q : Option (List (Option ExpectedMachine))) (f : Server) (c : Code)
    → (create_expected_machines q f).1 ≡ err c
    → (create_expected_machines q f).0 ≡ f
unfolding create_expected_machines
refused-create_expected_machines none f c p = refl
refused-create_expected_machines (some q) f c p = ground arith

pub refused-update_expected_machines :
    (e : Env) (q : Option (List (Option ExpectedMachine))) (f : Server) (c : Code)
    → (update_expected_machines e q f).1 ≡ err c
    → (update_expected_machines e q f).0 ≡ f
unfolding update_expected_machines
refused-update_expected_machines e none f c p = refl
refused-update_expected_machines e (some q) f c p = ground arith

pub refused-add_expected_power_shelf :
    (q : Option ExpectedPowerShelf) (f : Server) (c : Code)
    → (add_expected_power_shelf q f).1 ≡ err c
    → (add_expected_power_shelf q f).0 ≡ f
unfolding add_expected_power_shelf
refused-add_expected_power_shelf none f c p = refl
refused-add_expected_power_shelf (some q) f c p = ground arith

pub refused-update_expected_power_shelf :
    (q : Option ExpectedPowerShelf) (f : Server) (c : Code)
    → (update_expected_power_shelf q f).1 ≡ err c
    → (update_expected_power_shelf q f).0 ≡ f
unfolding update_expected_power_shelf
refused-update_expected_power_shelf none f c p = refl
refused-update_expected_power_shelf (some q) f c p = ground arith

pub refused-delete_expected_power_shelf :
    (q : Option (Option String)) (f : Server) (c : Code)
    → (delete_expected_power_shelf q f).1 ≡ err c
    → (delete_expected_power_shelf q f).0 ≡ f
unfolding delete_expected_power_shelf
refused-delete_expected_power_shelf none f c p = refl
refused-delete_expected_power_shelf (some none) f c p = ground arith
refused-delete_expected_power_shelf (some (some id)) f c p = ground arith

pub refused-add_expected_switch :
    (q : Option ExpectedSwitch) (f : Server) (c : Code)
    → (add_expected_switch q f).1 ≡ err c
    → (add_expected_switch q f).0 ≡ f
unfolding add_expected_switch
refused-add_expected_switch none f c p = refl
refused-add_expected_switch (some q) f c p = ground arith

pub refused-update_expected_switch :
    (q : Option ExpectedSwitch) (f : Server) (c : Code)
    → (update_expected_switch q f).1 ≡ err c
    → (update_expected_switch q f).0 ≡ f
unfolding update_expected_switch
refused-update_expected_switch none f c p = refl
refused-update_expected_switch (some q) f c p = ground arith

pub refused-delete_expected_switch :
    (q : Option (Option String)) (f : Server) (c : Code)
    → (delete_expected_switch q f).1 ≡ err c
    → (delete_expected_switch q f).0 ≡ f
unfolding delete_expected_switch
refused-delete_expected_switch none f c p = refl
refused-delete_expected_switch (some none) f c p = ground arith
refused-delete_expected_switch (some (some id)) f c p = ground arith

pub refused-add_expected_rack :
    (q : Option ExpectedRack) (f : Server) (c : Code)
    → (add_expected_rack q f).1 ≡ err c
    → (add_expected_rack q f).0 ≡ f
unfolding add_expected_rack
refused-add_expected_rack none f c p = refl
refused-add_expected_rack (some q) f c p = ground arith

pub refused-update_expected_rack :
    (q : Option ExpectedRack) (f : Server) (c : Code)
    → (update_expected_rack q f).1 ≡ err c
    → (update_expected_rack q f).0 ≡ f
unfolding update_expected_rack
refused-update_expected_rack none f c p = refl
refused-update_expected_rack (some q) f c p = ground arith

pub refused-delete_expected_rack :
    (q : Option String) (f : Server) (c : Code)
    → (delete_expected_rack q f).1 ≡ err c
    → (delete_expected_rack q f).0 ≡ f
unfolding delete_expected_rack
refused-delete_expected_rack none f c p = refl
refused-delete_expected_rack (some q) f c p = ground arith

pub refused-replace_all_expected_racks :
    (q : Option (List (Option ExpectedRack))) (f : Server) (c : Code)
    → (replace_all_expected_racks q f).1 ≡ err c
    → (replace_all_expected_racks q f).0 ≡ f
unfolding replace_all_expected_racks
refused-replace_all_expected_racks none f c p = refl
refused-replace_all_expected_racks (some q) f c p = ground arith

pub refused-delete_all_expected_racks :
    (f : Server) (c : Code)
    → (delete_all_expected_racks f).1 ≡ err c
    → (delete_all_expected_racks f).0 ≡ f
unfolding delete_all_expected_racks
refused-delete_all_expected_racks f c p = ground arith
