-- ===== src/Forge/Expect/Batch.antt =====
-- Expected machines in batches: CreateExpectedMachines and UpdateExpectedMachines of
-- internal/server/forge_server.go. A bad entry is reported in the results and is no error of the
-- call.
pub mod Sequence
use nico_core_mock.Env.{Env}
use nico_core_mock.Forge.Expect.Machine.{expected_machine_error}
use nico_core_mock.GoMap.{GoMap, has, put}
use nico_core_mock.Message.Expected.{ExpectedMachine, ExpectedMachineOperationResult}
use nico_core_mock.Prelude.{
  List, Option, String, [], false, if◌then◌else◌, none, some, true, value, ◌∷◌,
}
use nico_core_mock.Reply.{err, invalid_argument, ok}
use nico_core_mock.Server.{Handler}

abbrev pub nil_result : ExpectedMachineOperationResult
nil_result = record {
  id = none;
  success = false;
  error_message = some "nil expected machine entry";
  expected_machine = none;
}

abbrev pub failed_result : ExpectedMachine → String → ExpectedMachineOperationResult
failed_result em msg = record {
  id = em.id;
  success = false;
  error_message = some msg;
  expected_machine = none;
}

abbrev pub stored_result : ExpectedMachine → ExpectedMachineOperationResult
stored_result em = record {
  id = em.id;
  success = true;
  error_message = none;
  expected_machine = some em;
}

-- The message of an entry that is not stored. An update also wants the id to be there.
unfoldable pub create_entry_error : ExpectedMachine → GoMap ExpectedMachine → Option String
unfolding expected_machine_error
create_entry_error em m = expected_machine_error em

unfoldable pub update_entry_error : Env → ExpectedMachine → GoMap ExpectedMachine → Option String
unfolding expected_machine_error
update_entry_error e em m = elim (expected_machine_error em) [
  | some msg ↦ some msg
  | none ↦ if has (value em.id) m then none else some (e.not_found_text (value em.id))
]

-- The loop that both handlers make, over the test of an entry.
module _ (entry_error : ExpectedMachine → GoMap ExpectedMachine → Option String) where
  unfoldable pub batch_entry :
      Option ExpectedMachine
      → GoMap ExpectedMachine
      → GoMap ExpectedMachine × ExpectedMachineOperationResult
  batch_entry none m = (m, nil_result)
  batch_entry (some em) m = elim (entry_error em m) [
    | some msg ↦ (m, failed_result em msg)
    | none ↦ (put (value em.id) em m, stored_result em)
  ]

  unfoldable pub batch :
      List (Option ExpectedMachine)
      → GoMap ExpectedMachine
      → GoMap ExpectedMachine × List ExpectedMachineOperationResult
  unfolding batch_entry
  batch [] m = (m, [])
  batch (x ∷ xs) m = let (m', r) = batch_entry x m in let (m'', rs) = batch xs m' in (m'', r ∷ rs)

-- The list message in the request may be nil.
unfoldable pub create_expected_machines :
    Option (List (Option ExpectedMachine)) → Handler (List ExpectedMachineOperationResult)
unfolding batch create_entry_error
create_expected_machines none f = (f, err invalid_argument)
create_expected_machines (some ems) f =
    let (m, results) = batch create_entry_error ems f.em in (record f { em = m }, ok results)

unfoldable pub update_expected_machines :
    Env → Option (List (Option ExpectedMachine)) → Handler (List ExpectedMachineOperationResult)
unfolding batch update_entry_error
update_expected_machines e none f = (f, err invalid_argument)
update_expected_machines e (some ems) f =
    let (m, results) = batch (update_entry_error e) ems f.em in (record f { em = m }, ok results)
