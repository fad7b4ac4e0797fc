-- ===== src/Forge/Expect/Linked.antt =====
-- GetAllExpectedMachinesLinked and loadFromInventory of internal/server/forge_server.go.
pub mod Merged
use nico_core_mock.Env.{Env}
use nico_core_mock.Forge.Machines.{machine_id_by_mac}
use nico_core_mock.GoMap.{GoMap, get, put, range_keys}
use nico_core_mock.GoMap.Load.{load}
use nico_core_mock.Message.Compute.{Machine}
use nico_core_mock.Message.Expected.{ExpectedMachine, LinkedExpectedMachine}
use nico_core_mock.Prelude.{
  List, Option, String, [], contains, empty_text, if◌then◌else◌, none, some, value, ◌++◌, ◌∷◌,
}
use nico_core_mock.Server.{Server}

unfoldable pub seeded_ids : List LinkedExpectedMachine → List String
seeded_ids [] = []
seeded_ids (le ∷ les) = value le.expected_machine_id ∷ seeded_ids les

-- The link of an expected machine that was added at run time.
unfoldable pub linked_machine : Env → GoMap Machine → ExpectedMachine → LinkedExpectedMachine
linked_machine e m em =
    let mid = machine_id_by_mac e em.bmc_mac_address m in
    record {
      chassis_serial_number = em.chassis_serial_number;
      bmc_mac_address = em.bmc_mac_address;
      expected_machine_id = em.id;
      machine_id = if empty_text mid then none else some mid;
    }

-- The loop over the keys of `f.em`.
unfoldable pub unseeded_links :
    Env
    → GoMap Machine
    → List String
    → List String
    → GoMap ExpectedMachine
    → List LinkedExpectedMachine
unfolding linked_machine
unseeded_links e m seeded [] ems = []
unseeded_links e m seeded (id ∷ ids) ems =
    let rest = unseeded_links e m seeded ids ems in
    elim (get id ems) [
      | none ↦ rest
      | some em ↦ if contains id seeded then rest else linked_machine e m em ∷ rest
    ]

unfoldable pub get_all_expected_machines_linked : Env → Server → List LinkedExpectedMachine
unfolding seeded_ids unseeded_links
get_all_expected_machines_linked e f =
    let res = f.linked_expected_machines in
    res ++ unseeded_links e f.m (seeded_ids res) (range_keys e.go f.em) f.em

-- `for id, machine := range inv.Machines`
unfoldable pub seed_machines : Env → List String → GoMap Machine → GoMap Machine → GoMap Machine
seed_machines e [] inv m = m
seed_machines e (id ∷ ids) inv m =
    let skipped = seed_machines e ids inv m in
    elim (get id inv) [
      | none ↦ skipped
      | some x ↦ seed_machines e ids inv (put id (e.ensure_discovery x) m)
    ]

-- What `config.Load` hands over.
pub record Inventory : Type 0 where
  pub machines : GoMap Machine
  pub expected_machines : List ExpectedMachine
  pub linked_expected_machines : List LinkedExpectedMachine

unfoldable pub load_from_inventory : Env → Option Inventory → Server → Server
unfolding seed_machines
load_from_inventory e none f = f
load_from_inventory e (some inv) f = record f {
  m = seed_machines e (range_keys e.go inv.machines) inv.machines f.m;
  em = load (λ em. em.id) inv.expected_machines f.em;
  linked_expected_machines = inv.linked_expected_machines;
}
