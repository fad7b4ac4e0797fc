-- ===== src/Config/Machines.antt =====
-- The toProto methods, loadDiscoveryInfo and randomMAC of internal/config/config.go. An error is
-- `none`.
use Prim.Native.String.{◌++◌ as append}
use nico_core_mock.Config.{
  ExpectedMachineSpec, InterfaceSpec, ListedMachine, MachineInterface, MachineSpec, Sources,
}
use nico_core_mock.Config.Capabilities.{machine_capabilities_to_proto}
use nico_core_mock.Config.Path.{is_abs, join_path, str_ptr}
use nico_core_mock.Message.{Payload}
use nico_core_mock.Message.Expected.{ExpectedMachine, LinkedExpectedMachine}
use nico_core_mock.Prelude.{
  List, Option, String, [], empty_text, if◌then◌else◌, map_option, none, not, some, suc, true,
  updated, ℕ, ◌%◌, ◌+◌, ◌/◌, ◌∷◌,
}

abbrev pub default_segment_id : String
default_segment_id = "00000000-0000-4000-9000-000000000000"

abbrev pub or_default : String → String → String
or_default x d = if empty_text x then d else x

module _ (fs : Sources) where
  unfoldable pub random_mac : ℕ → String
  random_mac index =
      append "02:00:00:00:"
        (append (fs.hex2 (index / 256 % 256)) (append ":" (fs.hex2 (index % 256))))

  -- The interface of a machine for which none is listed.
  unfoldable pub default_interface : ℕ → InterfaceSpec
  unfolding random_mac
  default_interface index = record {
    id = "";
    hostname = append "mock-host-" (append (fs.decimal index) ".nico.local");
    mac_address = random_mac index;
    addresses =
        append "10.10."
          (append (fs.decimal (index / 254 + 1)) (append "." (fs.decimal (index % 254 + 1))))
        ∷ [];
    segment_id = default_segment_id;
    primary_interface = some true;
    attached_dpu_machine_id = "";
  }

  unfoldable pub machine_interfaces : ℕ → MachineSpec → List InterfaceSpec
  unfolding default_interface
  machine_interfaces index spec = elim spec.interfaces [
    | [] ↦ default_interface index ∷ []
    | i ∷ is ↦ i ∷ is
  ]

  -- The j-th interface of the machine at an index.
  unfoldable pub interface_to_proto :
      ℕ → ℕ → String → String → InterfaceSpec → Option MachineInterface
  interface_to_proto index j machine_id default_dpu spec =
      if empty_text spec.mac_address
      then none
      else some (record {
        id = some (or_default spec.id (fs.interface_uuid index j));
        machine_id = some machine_id;
        segment_id = some (or_default spec.segment_id default_segment_id);
        hostname = spec.hostname;
        primary_interface = updated spec.primary_interface true;
        mac_address = spec.mac_address;
        address = spec.addresses;
        attached_dpu_machine_id = str_ptr (or_default spec.attached_dpu_machine_id default_dpu);
      })

  -- The loop over the interfaces, from the j-th on.
  unfoldable pub interfaces_to_proto :
      ℕ → ℕ → String → String → List InterfaceSpec → Option (List MachineInterface)
  unfolding interface_to_proto
  interfaces_to_proto index j machine_id default_dpu [] = some []
  interfaces_to_proto index j machine_id default_dpu (spec ∷ specs) =
      let rest = interfaces_to_proto index (suc j) machine_id default_dpu specs in
      elim (interface_to_proto index j machine_id default_dpu spec) [
        | none ↦ none
        | some i ↦ elim rest [ none ↦ none | some is ↦ some (i ∷ is) ]
      ]

  -- A file that is named comes first, relative to the directory of the configuration.
  unfoldable pub load_discovery_info : String → Option Payload → String → Option (Option Payload)
  unfolding is_abs join_path
  load_discovery_info base_dir inline file =
      let path = if is_abs file then file else join_path base_dir file in
      if not (empty_text file)
      then (elim (fs.read_file path) [
        | none ↦ none
        | some doc ↦ map_option some (fs.parse_discovery doc)
      ])
      else elim inline [
        | none ↦ some none
        | some m ↦ elim (fs.marshal_inline m) [
          | none ↦ none
          | some doc ↦ map_option some (fs.parse_discovery doc)
        ]
      ]

  unfoldable pub machine_to_proto : String → ℕ → MachineSpec → Option ListedMachine
  unfolding machine_interfaces interfaces_to_proto load_discovery_info machine_capabilities_to_proto
  machine_to_proto base_dir index spec =
      let id = or_default spec.id (fs.machine_uuid index) in
      let interfaces = machine_interfaces index spec in
      elim (interfaces_to_proto index 0 id spec.attached_dpu_machine_id interfaces) [
        | none ↦ none
        | some proto_ifaces ↦
            elim (load_discovery_info base_dir spec.discovery_info spec.discovery_info_file) [
              | none ↦ none
              | some discovery ↦ some (record {
                id = some id;
                state = or_default spec.state "Ready";
                interfaces = proto_ifaces;
                discovery_info = discovery;
                capabilities = machine_capabilities_to_proto spec.machine_capabilities;
              })
            ]
      ]

  -- The expected machine at an index, and its link.
  unfoldable pub expected_to_proto :
      ℕ → ExpectedMachineSpec → Option (ExpectedMachine × LinkedExpectedMachine)
  expected_to_proto index spec =
      let id = or_default spec.id (fs.expected_uuid index) in
      if empty_text spec.bmc_mac_address
      then none
      else some (
        record {
          id = some id;
          bmc_mac_address = spec.bmc_mac_address;
          chassis_serial_number = spec.chassis_serial_number;
          others =
              fs.expected_others spec.bmc_username spec.bmc_password (str_ptr spec.sku_id)
                (str_ptr spec.bmc_ip_address);
        },
        record {
          chassis_serial_number = spec.chassis_serial_number;
          bmc_mac_address = spec.bmc_mac_address;
          expected_machine_id = some id;
          machine_id = str_ptr spec.machine_id;
        },
      )
