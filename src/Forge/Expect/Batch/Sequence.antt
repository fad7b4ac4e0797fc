-- ===== src/Forge/Expect/Batch/Sequence.antt =====
-- CreateExpectedMachines and UpdateExpectedMachines of internal/server/forge_server.go against the
-- handlers of a single expected machine.
use nico_core_mock.Env.{Env}
use nico_core_mock.Forge.Expect.Batch.{
  batch, batch_entry, create_entry_error, create_expected_machines, update_entry_error,
  update_expected_machines,
}
use nico_core_mock.Forge.Expect.Machine.{add_expected_machine, update_expected_machine}
use nico_core_mock.GoMap.{GoMap}
use nico_core_mock.Message.Expected.{ExpectedMachine, ExpectedMachineOperationResult}
use nico_core_mock.Prelude.{
  Bool, List, Option, String, [], arith, false, map, none, refl, some, true, ◌∷◌, ◌≡◌,
}
use nico_core_mock.Reply.{Reply, ok}
use nico_core_mock.Server.{Handler, Server}

abbrev pub is_ok : {A : Type 0} → Reply A → Bool
is_ok (ok a) = true
is_ok _ = false

abbrev pub was_stored : ExpectedMachineOperationResult → Bool
was_stored r = r.success

-- The calls of a handler for each entry, in order, and which of them succeeded.
unfoldable pub one_by_one :
    (Option ExpectedMachine → Handler Unit)
    → List (Option ExpectedMachine)
    → Server
    → Server × List Bool
one_by_one call [] f = (f, [])
one_by_one call (x ∷ xs) f =
    let (f', r) = call x f in let (f'', rs) = one_by_one call xs f' in (f'', is_ok r ∷ rs)

module _ (entry_error : ExpectedMachine → GoMap ExpectedMachine → Option String)
    (call : Option ExpectedMachine → Handler Unit)
    (same_map : (x : Option ExpectedMachine) (f : Server)
      → (call x f).0 ≡ record f { em = (batch_entry entry_error x f.em).0 })
    (same_flag : (x : Option ExpectedMachine) (f : Server)
      → is_ok (call x f).1 ≡ was_stored (batch_entry entry_error x f.em).1) where
  batch-one_by_one :
      (ems : List (Option ExpectedMachine)) (f : Server)
      → one_by_one call ems f ≡ (
        record f { em = (batch entry_error ems f.em).0 },
        map was_stored (batch entry_error ems f.em).1,
      )
  unfolding batch one_by_one
  batch-one_by_one [] f = refl
  batch-one_by_one (x ∷ xs) f =
      rw (same_map x f, same_flag x f)
        (rw (batch-one_by_one xs (record f { em = (batch_entry entry_error x f.em).0 })) refl)

-- CreateExpectedMachines never refuses a list. It leaves the server as AddExpectedMachine does when it
-- is called for each entry in order, and its results say of each entry whether that call succeeds.
pub create_expected_machines-one_by_one :
    (ems : List (Option ExpectedMachine)) (f : Server)
    → (rs : List ExpectedMachineOperationResult) × ((create_expected_machines (some ems) f).1
        ≡ ok rs)
      × (one_by_one add_expected_machine ems f
          ≡ ((create_expected_machines (some ems) f).0, map was_stored rs))
unfolding create_expected_machines add_expected_machine batch_entry create_entry_error
create_expected_machines-one_by_one ems f = (
  (batch create_entry_error ems f.em).1,
  refl,
  batch-one_by_one create_entry_error add_expected_machine same_map same_flag ems f,
)
  where
    same_map :
        (x : Option ExpectedMachine) (g : Server)
        → (add_expected_machine x g).0 ≡ record g { em = (batch_entry create_entry_error x g.em).0 }
    same_map none g = refl
    same_map (some x) g = ground arith

    same_flag :
        (x : Option ExpectedMachine) (g : Server)
        → is_ok (add_expected_machine x g).1 ≡ was_stored (batch_entry create_entry_error x g.em).1
    same_flag none g = refl
    same_flag (some x) g = ground arith

-- UpdateExpectedMachines never refuses a list. It leaves the server as UpdateExpectedMachine does when
-- it is called for each entry in order, and its results say of each entry whether that call succeeds.
pub update_expected_machines-one_by_one :
    (e : Env) (ems : List (Option ExpectedMachine)) (f : Server)
    → (rs : List ExpectedMachineOperationResult) × ((update_expected_machines e (some ems) f).1
        ≡ ok rs)
      × (one_by_one update_expected_machine ems f
          ≡ ((update_expected_machines e (some ems) f).0, map was_stored rs))
unfolding update_expected_machines update_expected_machine batch_entry update_entry_error
update_expected_machines-one_by_one e ems f = (
  (batch (update_entry_error e) ems f.em).1,
  refl,
  batch-one_by_one (update_entry_error e) update_expected_machine same_map same_flag ems f,
)
  where
    same_map :
        (x : Option ExpectedMachine) (g : Server)
        → (update_expected_machine x g).0
          ≡ record g { em = (batch_entry (update_entry_error e) x g.em).0 }
    same_map none g = refl
    same_map (some x) g = ground arith

    same_flag :
        (x : Option ExpectedMachine) (g : Server)
        → is_ok (update_expected_machine x g).1
          ≡ was_stored (batch_entry (update_entry_error e) x g.em).1
    same_flag none g = refl
    same_flag (some x) g = ground arith
