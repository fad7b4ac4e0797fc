-- ===== src/Config.antt =====
-- internal/config/config.go: the types of the YAML inventory, the messages that are made of it, and
-- what the packages that it calls give.
pub mod Path
pub mod Capabilities
pub mod Machines
pub mod Load
pub mod Loaded
pub mod Grouped
use nico_core_mock.Forge.Segment.{segment_id}
use nico_core_mock.Message.{Payload}
use nico_core_mock.Prelude.{Bool, List, Option, String, count, ℕ}

-- `MachineCapabilitySpec`
pub record CapabilitySpec : Type 0 where
  pub kind : String
  pub name : String
  pub vendor : String
  pub count : ℕ
  pub frequency : String
  pub capacity : String
  pub cores : ℕ
  pub threads : ℕ
  pub device_type : String
  pub inactive_devices : List ℕ

-- `InterfaceSpec`
pub record InterfaceSpec : Type 0 where
  pub id : String
  pub hostname : String
  pub mac_address : String
  pub addresses : List String
  pub segment_id : String
  pub primary_interface : Option Bool
  pub attached_dpu_machine_id : String

-- `MachineSpec`; an inline `discovery_info` that is empty is `none`.
pub record MachineSpec : Type 0 where
  pub id : String
  pub state : String
  pub interfaces : List InterfaceSpec
  pub discovery_info : Option Payload
  pub discovery_info_file : String
  pub attached_dpu_machine_id : String
  pub machine_capabilities : List CapabilitySpec

-- `ExpectedMachineSpec`
pub record ExpectedMachineSpec : Type 0 where
  pub id : String
  pub bmc_mac_address : String
  pub bmc_username : String
  pub bmc_password : String
  pub chassis_serial_number : String
  pub sku_id : String
  pub bmc_ip_address : String
  pub machine_id : String

pub record File : Type 0 where
  pub machines : List MachineSpec
  pub expected_machines : List ExpectedMachineSpec

-- `MachineInterface`
pub record MachineInterface : Type 0 where
  pub id : Option String
  pub machine_id : Option String
  pub segment_id : Option String
  pub hostname : String
  pub primary_interface : Bool
  pub mac_address : String
  pub address : List String
  pub attached_dpu_machine_id : Option String

-- One element of a list of `MachineCapabilitiesSet`: the fields that the kind of the list has. What
-- it does not have is nil.
pub record Capability : Type 0 where
  pub name : String
  pub count : ℕ
  pub vendor : Option String
  pub frequency : Option String
  pub capacity : Option String
  pub cores : Option ℕ
  pub threads : Option ℕ
  pub device_type : Option String
  pub inactive_devices : List ℕ

-- `MachineCapabilitiesSet`
pub record CapabilitiesSet : Type 0 where
  pub cpu : List Capability
  pub gpu : List Capability
  pub memory : List Capability
  pub storage : List Capability
  pub network : List Capability
  pub infiniband : List Capability
  pub dpu : List Capability

-- `Machine`, as the inventory fills it.
pub record ListedMachine : Type 0 where
  pub id : Option String
  pub state : String
  pub interfaces : List MachineInterface
  pub discovery_info : Option Payload
  pub capabilities : Option CapabilitiesSet

-- What the packages give: the files, the parsers of YAML and JSON, the formats `%d` and `%02x`, and
-- the random ids (of the machine, or of its interface, or of the expected machine, at an index).
pub record Sources : Type 0 where
  pub read_file : String → Option Payload
  -- `yaml.Unmarshal` into a `File`, and into a struct with the field `inventory`
  pub parse_plain : Payload → Option File
  pub parse_wrapped : Payload → Option File
  -- `json.Marshal` of an inline map
  pub marshal_inline : Payload → Option Payload
  -- `protojson.UnmarshalOptions{DiscardUnknown: true}.Unmarshal`
  pub parse_discovery : Payload → Option Payload
  pub decimal : ℕ → String
  pub hex2 : ℕ → String
  pub machine_uuid : ℕ → String
  pub interface_uuid : ℕ → ℕ → String
  pub expected_uuid : ℕ → String
  -- the fields of `ExpectedMachine` that no handler reads: user, password, SKU and address
  pub expected_others : String → String → Option String → Option String → Payload
