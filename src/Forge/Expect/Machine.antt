-- ===== src/Forge/Expect/Machine.antt =====
-- Expected machines, one at a time: GetAllExpectedMachines, AddExpectedMachine,
-- UpdateExpectedMachine and DeleteExpectedMachine of internal/server/forge_server.go.
use nico_core_mock.Env.{Env}
use nico_core_mock.GoMap.{delete, has, put, range_values}
use nico_core_mock.Message.Expected.{ExpectedMachine}
use nico_core_mock.Prelude.{
  List, Option, String, empty_text, given, if◌then◌else◌, none, not, some, value,
}
use nico_core_mock.Reply.{err, invalid_argument, not_found, ok}
use nico_core_mock.Server.{Handler, Server}

unfoldable pub get_all_expected_machines : Env → Server → List ExpectedMachine
get_all_expected_machines e f = range_values e.go f.em

-- The three tests that the handlers begin with, in their order, and what the batch handlers say.
unfoldable pub expected_machine_error : ExpectedMachine → Option String
expected_machine_error em =
    if not (given em.id)
    then some "ID not provided"
    else if empty_text em.bmc_mac_address
    then some "MAC address not provided"
    else if empty_text em.chassis_serial_number
    then some "Chassis Serial Number not provided"
    else none

-- The id may be in the inventory already: its entry is replaced.
unfoldable pub add_expected_machine : Option ExpectedMachine → Handler Unit
unfolding expected_machine_error
add_expected_machine none f = (f, err invalid_argument)
add_expected_machine (some req) f = elim (expected_machine_error req) [
  | some msg ↦ (f, err invalid_argument)
  | none ↦ (record f { em = put (value req.id) req f.em }, ok tt)
]

unfoldable pub update_expected_machine : Option ExpectedMachine → Handler Unit
unfolding expected_machine_error
update_expected_machine none f = (f, err invalid_argument)
update_expected_machine (some req) f = elim (expected_machine_error req) [
  | some msg ↦ (f, err invalid_argument)
  | none ↦
      if has (value req.id) f.em
      then (record f { em = put (value req.id) req f.em }, ok tt)
      else (f, err not_found)
]

unfoldable pub delete_expected_machine : Option (Option String) → Handler Unit
delete_expected_machine none f = (f, err invalid_argument)
delete_expected_machine (some id) f =
    if given id
    then (if has (value id) f.em
        then (record f { em = delete (value id) f.em }, ok tt)
        else (f, err not_found))
    else (f, err invalid_argument)
