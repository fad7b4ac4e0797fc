-- ===== src/Config/Load.antt =====
-- Load of internal/config/config.go. An error is `none`.
use nico_core_mock.Config.{ExpectedMachineSpec, File, ListedMachine, MachineSpec, Sources}
use nico_core_mock.Config.Machines.{expected_to_proto, machine_to_proto}
use nico_core_mock.Config.Path.{dir_of}
use nico_core_mock.GoMap.{GoMap, get, put}
use nico_core_mock.Message.{Payload}
use nico_core_mock.Message.Expected.{ExpectedMachine, LinkedExpectedMachine}
use nico_core_mock.Prelude.{List, Option, String, [], none, some, suc, value, ℕ, ◌∷◌}

-- `Inventory`
pub record LoadedInventory : Type 0 where
  pub machines : GoMap ListedMachine
  pub expected_machines : List ExpectedMachine
  pub linked_expected_machines : List LinkedExpectedMachine

module _ (fs : Sources) where
  -- The loop over the machines, from an index on. A second machine of an id is an error.
  unfoldable pub load_machines :
      String → ℕ → List MachineSpec → GoMap ListedMachine → Option (GoMap ListedMachine)
  unfolding machine_to_proto
  load_machines base_dir i [] m = some m
  load_machines base_dir i (spec ∷ specs) m = elim (machine_to_proto fs base_dir i spec) [
    | none ↦ none
    | some machine ↦
        let id = value machine.id in
        elim (get id m) [
          | some _ ↦ none
          | none ↦ load_machines base_dir (suc i) specs (put id machine m)
        ]
  ]

  -- The loop over the expected machines.
  unfoldable pub load_expected :
      ℕ → List ExpectedMachineSpec → Option (List ExpectedMachine × List LinkedExpectedMachine)
  unfolding expected_to_proto
  load_expected i [] = some ([], [])
  load_expected i (spec ∷ specs) =
      let rest = load_expected (suc i) specs in
      elim (expected_to_proto fs i spec) [
        | none ↦ none
        | some (em, linked) ↦ elim rest [
          | none ↦ none
          | some (ems, links) ↦ some (em ∷ ems, linked ∷ links)
        ]
      ]

  -- The plain shape, or the wrapped one where the plain one has no machine.
  unfoldable pub parse_config : Payload → Option File
  parse_config doc = elim (fs.parse_plain doc) [
    | none ↦ none
    | some file ↦ elim file.machines [ [] ↦ fs.parse_wrapped doc | _ ∷ _ ↦ some file ]
  ]

  unfoldable pub inventory_of : String → File → Option LoadedInventory
  unfolding load_machines load_expected
  inventory_of base_dir file = elim (load_machines base_dir 0 file.machines []) [
    | none ↦ none
    | some machines ↦ elim (load_expected 0 file.expected_machines) [
      | none ↦ none
      | some (ems, links) ↦ some (record {
        machines = machines;
        expected_machines = ems;
        linked_expected_machines = links;
      })
    ]
  ]

  unfoldable pub load_config : String → Option LoadedInventory
  unfolding parse_config inventory_of dir_of
  load_config path = elim (fs.read_file path) [
    | none ↦ none
    | some doc ↦ elim (parse_config doc) [
      | none ↦ none
      | some file ↦ elim file.machines [ [] ↦ none | _ ∷ _ ↦ inventory_of (dir_of path) file ]
    ]
  ]
