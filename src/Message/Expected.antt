-- ===== src/Message/Expected.antt =====
-- Messages of the expected hardware inventory.
use nico_core_mock.Message.{Payload}
use nico_core_mock.Prelude.{Bool, Option, String}

pub record ExpectedMachine : Type 0 where
  pub id : Option String
  pub bmc_mac_address : String
  pub chassis_serial_number : String
  pub others : Payload

pub record LinkedExpectedMachine : Type 0 where
  pub chassis_serial_number : String
  pub bmc_mac_address : String
  pub expected_machine_id : Option String
  pub machine_id : Option String

pub record ExpectedMachineOperationResult : Type 0 where
  pub id : Option String
  pub success : Bool
  pub error_message : Option String
  pub expected_machine : Option ExpectedMachine

pub record ExpectedPowerShelf : Type 0 where
  pub expected_power_shelf_id : Option String
  pub bmc_mac_address : String
  pub shelf_serial_number : String
  pub others : Payload

pub record ExpectedSwitch : Type 0 where
  pub expected_switch_id : Option String
  pub bmc_mac_address : String
  pub switch_serial_number : String
  pub others : Payload

pub record ExpectedRack : Type 0 where
  pub rack_id : Option String
  pub rack_profile_id : Option String
  pub others : Payload
