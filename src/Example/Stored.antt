-- ===== src/Example/Stored.antt =====
-- The theorems on what handlers store, at work on the small mock.
use nico_core_mock.Persist.Key
use nico_core_mock.Example.World.{env, server}
use nico_core_mock.Forge.Expect.Batch.{create_expected_machines, update_expected_machines}
use nico_core_mock.Forge.Expect.Batch.Sequence.{
  create_expected_machines-one_by_one, one_by_one, update_expected_machines-one_by_one, was_stored,
}
use nico_core_mock.Forge.Expect.Linked.{get_all_expected_machines_linked, seeded_ids}
use nico_core_mock.Forge.Expect.Linked.Merged.{get_all_expected_machines_linked-count, own_id}
use nico_core_mock.Forge.Expect.Machine.{add_expected_machine, update_expected_machine}
use nico_core_mock.Forge.Expect.Rack.{all_complete, is_complete_rack, replace_all_expected_racks}
use nico_core_mock.Forge.Expect.Rack.Replaced.{last_named, replace_all_expected_racks-content}
use nico_core_mock.Forge.Ids.{choose_id}
use nico_core_mock.Forge.Instances.{
  allocate_instance, allocate_with, config_network, interface_address, interface_status,
  interface_statuses, new_instance, requested_interfaces, store_instance,
}
use nico_core_mock.Forge.Instances.Address.{prefix_of}
use nico_core_mock.Forge.Instances.Allocate.{allocate_instance-stored, status_interfaces}
use nico_core_mock.Forge.Instances.Jobs.{schedule_libvirt_provision}
use nico_core_mock.Forge.Instances.Lifecycle.{tenant_state}
use nico_core_mock.Forge.Prefix.{get_vpc_prefixes}
use nico_core_mock.Forge.Prefix.Answered.{get_vpc_prefixes-ids, shown_id}
use nico_core_mock.Forge.Vpc.{create_vpc, find_vpcs_by_ids, new_vpc}
use nico_core_mock.Forge.Vpc.Found.{create_vpc-find_vpcs_by_ids}
use nico_core_mock.GoMap.{delete, get, has, put}
use nico_core_mock.GoMap.Keyed.{IsKeyed-empty, IsKeyed-put}
use nico_core_mock.GoMap.Load.{IsKeyed}
use nico_core_mock.Message.Compute.{
  Instance, InstanceAllocationRequest, NetworkConfig, physical_function, provisioning,
  virtual_function,
}
use nico_core_mock.Message.Expected.{ExpectedMachine, ExpectedMachineOperationResult, ExpectedRack}
use nico_core_mock.Message.Network.{Vpc, VpcCreationRequest, VpcPrefix}
use nico_core_mock.Prelude.{
  List, Option, [], contains, count, false, if◌then◌else◌, length, map, none, not, refl, some,
  value, ◌&&◌, ◌+◌, ◌∷◌, ◌≡◌,
}
use nico_core_mock.Reply.{ok}
use nico_core_mock.Server.{Server}

abbrev expected_1 : ExpectedMachine
expected_1 = record {
  id = some "expected-1";
  bmc_mac_address = "02:00:00:00:00:aa";
  chassis_serial_number = "c1";
  others = "";
}

-- A nil entry, a good one, and one without an address.
abbrev entries : List (Option ExpectedMachine)
entries = none ∷ some expected_1 ∷ some (record expected_1 { bmc_mac_address = "" }) ∷ []

create_expected_machines-one_by_one_example :
    (rs : List ExpectedMachineOperationResult) × ((create_expected_machines (some entries) server).1
      ≡ ok rs)
    × (one_by_one add_expected_machine entries server
        ≡ ((create_expected_machines (some entries) server).0, map was_stored rs))
create_expected_machines-one_by_one_example = create_expected_machines-one_by_one entries server

update_expected_machines-one_by_one_example :
    (rs : List ExpectedMachineOperationResult) × ((update_expected_machines env
        (some entries)
        server).1
      ≡ ok rs)
    × (one_by_one update_expected_machine entries server
        ≡ ((update_expected_machines env (some entries) server).0, map was_stored rs))
update_expected_machines-one_by_one_example = update_expected_machines-one_by_one env entries server

abbrev rack_1 : ExpectedRack
rack_1 = record { rack_id = some "rack-1"; rack_profile_id = some "profile"; others = "first" }

abbrev rack_1_again : ExpectedRack
rack_1_again = record rack_1 { others = "second" }

replace_all_expected_racks-content_example :
    get "rack-1"
      (replace_all_expected_racks (some (some rack_1 ∷ some rack_1_again ∷ [])) server).0.er
    ≡ some rack_1_again
unfolding replace_all_expected_racks all_complete is_complete_rack last_named
replace_all_expected_racks-content_example =
    replace_all_expected_racks-content (some rack_1 ∷ some rack_1_again ∷ []) server "rack-1" refl

-- One interface with a fixed address, and one with a random address.
abbrev two_interfaces : NetworkConfig
two_interfaces = record {
  interfaces =
      record { ip_address = "10.0.0.5"; vpc_prefix_id = none; function_type = physical_function }
      ∷ record { ip_address = ""; vpc_prefix_id = none; function_type = virtual_function }
      ∷ [];
}

abbrev allocation : InstanceAllocationRequest
allocation = record {
  instance_id = some "instance-2";
  machine_id = some "machine-2";
  config = some (record {
    os = none;
    network = some two_interfaces;
    network_security_group_id = none;
    others = "";
  });
  metadata = some "blue";
}

abbrev allocated : Instance
allocated = record {
  id = some "instance-2";
  machine_id = some "machine-2";
  config = allocation.config;
  status = some (record {
    tenant = some provisioning;
    interfaces =
        record {
          mac_address = some "02:00:00:00:00:01";
          addresses = "10.0.0.5" ∷ [];
          virtual_function_id = none;
        }
        ∷ record {
          mac_address = some "02:00:00:00:00:01";
          addresses = "192.0.2.1" ∷ [];
          virtual_function_id = some 1;
        }
        ∷ [];
  });
  metadata = none;
  config_version = "";
}

allocate_instance-stored_example :
    (has "instance-2" server.ins ≡ false)
    × (get "instance-2" (allocate_instance env (some allocation) server).0.ins ≡ some allocated)
    × (tenant_state allocated ≡ some provisioning)
    × (allocated.machine_id ≡ some "machine-2")
    × (allocated.config ≡ allocation.config)
    × (n : NetworkConfig) × (config_network allocation.config ≡ some n)
    × (length (status_interfaces allocated) ≡ length n.interfaces)
unfolding allocate_instance interface_statuses interface_address interface_status
    requested_interfaces prefix_of allocate_with store_instance new_instance
    schedule_libvirt_provision get put delete
allocate_instance-stored_example =
    allocate_instance-stored env allocation server allocated "instance-2" refl

abbrev blue_request : VpcCreationRequest
blue_request = record {
  id = none;
  name = "blue";
  tenant_organization_id = "org";
  network_virtualization_type = none;
  routing_profile_type = none;
  network_security_group_id = none;
  vni = some 7;
}

abbrev blue_vpc : Vpc
blue_vpc = record {
  id = some "00000000-0000-4000-8000-000000000000";
  name = "blue";
  tenant_organization_id = "org";
  network_virtualization_type = none;
  routing_profile_type = none;
  network_security_group_id = none;
  status = some (record { vni = some 7 });
}

-- The default id is not taken yet.
create_vpc-find_vpcs_by_ids_example :
    (find_vpcs_by_ids
        (some (some "00000000-0000-4000-8000-000000000000" ∷ []))
        (create_vpc env (some blue_request) server).0
      ≡ ok (blue_vpc ∷ []))
    × (has "00000000-0000-4000-8000-000000000000" server.v ≡ false)
unfolding create_vpc new_vpc choose_id get put delete
create_vpc-find_vpcs_by_ids_example =
    create_vpc-find_vpcs_by_ids env blue_request server blue_vpc refl

abbrev expecting : Server
expecting = record server { em = put "expected-1" expected_1 [] }

expecting-IsKeyed : IsKeyed own_id expecting.em
expecting-IsKeyed = IsKeyed-put "expected-1" expected_1 [] IsKeyed-empty refl refl

get_all_expected_machines_linked-count_example :
    count "expected-1" (seeded_ids (get_all_expected_machines_linked env expecting))
    ≡ count "expected-1" (seeded_ids expecting.linked_expected_machines)
      + (if has "expected-1" expecting.em
            && not (contains "expected-1" (seeded_ids expecting.linked_expected_machines))
          then 1
          else 0)
get_all_expected_machines_linked-count_example =
    get_all_expected_machines_linked-count env expecting "expected-1" expecting-IsKeyed

abbrev prefix_1 : VpcPrefix
prefix_1 = record {
  id = some "prefix-1";
  vpc_id = some "vpc-1";
  config = some (record { prefix = "10.1.0.0/24" });
  status = none;
  name = "";
  metadata = none;
}

abbrev prefixed : Server
prefixed = record server { vp = put "prefix-1" prefix_1 [] }

prefixed-IsKeyed : IsKeyed Key.prefix_id prefixed.vp
prefixed-IsKeyed = IsKeyed-put "prefix-1" prefix_1 [] IsKeyed-empty refl refl

get_vpc_prefixes-ids_example :
    (ps : List VpcPrefix) × (get_vpc_prefixes env
        (some (some "no-such" ∷ some "prefix-1" ∷ []))
        prefixed
      ≡ ok ps)
    × (map shown_id ps ≡ map value (some "no-such" ∷ some "prefix-1" ∷ []))
get_vpc_prefixes-ids_example =
    get_vpc_prefixes-ids env (some "no-such") (some "prefix-1" ∷ []) prefixed prefixed-IsKeyed
