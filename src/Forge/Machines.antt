-- ===== src/Forge/Machines.antt =====
-- Machines: visibleMachineIDs, machineIDByMAC, FindMachineIds, FindMachinesByIds,
-- AssociateMachinesWithInstanceType and RemoveMachineInstanceTypeAssociation of
-- internal/server/forge_server.go.
pub mod Association
pub mod Visible
use nico_core_mock.Env.{Env}
use nico_core_mock.GoMap.{GoMap, get, has, put, range_keys, values_at}
use nico_core_mock.Message.{Payload}
use nico_core_mock.Message.Compute.{AssociateRequest, Machine}
use nico_core_mock.Prelude.{
  Bool, List, Option, String, [], empty_text, false, given, if◌then◌else◌, map, none, not, some,
  true, value, ◌&&◌, ◌==◌, ◌||◌, ◌∷◌,
}
use nico_core_mock.Reply.{Code, Reply, already_exists, answer, err, invalid_argument, not_found, ok}
use nico_core_mock.Server.{Handler, Server}

unfoldable pub powered : Env → List String → List String
powered e [] = []
powered e (id ∷ ids) = let rest = powered e ids in if e.is_powered_on id then id ∷ rest else rest

unfoldable pub visible_machine_ids : Env → GoMap Machine → List String
unfolding powered
visible_machine_ids e m = e.go.sort (powered e (range_keys e.go m))

unfoldable pub any_mac : Env → String → List String → Bool
any_mac e mac [] = false
any_mac e mac (x ∷ xs) = e.equal_fold x mac || any_mac e mac xs

unfoldable pub first_with_mac : Env → String → List String → GoMap Machine → String
unfolding any_mac
first_with_mac e mac [] m = ""
first_with_mac e mac (id ∷ ids) m =
    let rest = first_with_mac e mac ids m in
    elim (get id m) [ none ↦ rest | some x ↦ if any_mac e mac x.interfaces then id else rest ]

unfoldable pub machine_id_by_mac : Env → String → GoMap Machine → String
unfolding visible_machine_ids first_with_mac
machine_id_by_mac e mac m =
    if empty_text mac then "" else first_with_mac e mac (visible_machine_ids e m) m

unfoldable pub find_machine_ids : Env → Option Payload → Server → Reply (List String)
unfolding visible_machine_ids
find_machine_ids e req f = answer req (λ _. visible_machine_ids e f.m)

-- The loop completes the discovery information of each machine that it returns.
unfoldable pub ensure_all : Env → List String → GoMap Machine → GoMap Machine
ensure_all e [] m = m
ensure_all e (id ∷ ids) m =
    let skipped = ensure_all e ids m in
    elim (get id m) [ none ↦ skipped | some x ↦ ensure_all e ids (put id (e.ensure_discovery x) m) ]

unfoldable pub find_machines_by_ids : Env → Option (List (Option String)) → Handler (List Machine)
unfolding powered ensure_all
find_machines_by_ids e none f = (f, err invalid_argument)
find_machines_by_ids e (some ids) f =
    let shown = powered e (map value ids) in
    let m = ensure_all e shown f.m in (record f { m = m }, ok (values_at shown m))

-- The first loop: every machine is there and of no other type.
unfoldable pub check_machines : String → List String → GoMap Machine → Option Code
check_machines type_id [] m = none
check_machines type_id (mid ∷ mids) m =
    let rest = check_machines type_id mids m in
    elim (get mid m) [
      | none ↦ some not_found
      | some x ↦
          if given x.instance_type_id && not (value x.instance_type_id == type_id)
          then some already_exists
          else rest
    ]

-- The second loop. It writes through `f.m[mid]`, which the first loop found.
unfoldable pub set_types : String → List String → GoMap Machine → GoMap Machine
set_types type_id [] m = m
set_types type_id (mid ∷ mids) m =
    let skipped = set_types type_id mids m in
    elim (get mid m) [
      | none ↦ skipped
      | some x ↦ set_types type_id mids (put mid (record x { instance_type_id = some type_id }) m)
    ]

abbrev pub no_ids : List String → Bool
no_ids [] = true
no_ids (id ∷ ids) = false

unfoldable pub associate_machines : Option AssociateRequest → Handler Unit
unfolding check_machines set_types
associate_machines none f = (f, err invalid_argument)
associate_machines (some req) f =
    if empty_text req.instance_type_id
    then (f, err invalid_argument)
    else if not (has req.instance_type_id f.it)
    then (f, err not_found)
    else if no_ids req.machine_ids
    then (f, err invalid_argument)
    else elim (check_machines req.instance_type_id req.machine_ids f.m) [
      | some c ↦ (f, err c)
      | none ↦ (record f { m = set_types req.instance_type_id req.machine_ids f.m }, ok tt)
    ]

-- A machine that is not there is no error.
unfoldable pub remove_association : Option String → Handler Unit
remove_association none f = (f, err invalid_argument)
remove_association (some mid) f =
    if empty_text mid then (f, err invalid_argument) else elim (get mid f.m) [
      | none ↦ (f, ok tt)
      | some x ↦ (record f { m = put mid (record x { instance_type_id = none }) f.m }, ok tt)
    ]
