-- ===== src/Example/Listed.antt =====
-- An inventory in a file, and a server that starts from it.
use nico_core_mock.Config.{CapabilitySpec, File, MachineSpec, Sources}
use nico_core_mock.Config.Capabilities.{add_capabilities, empty_set, machine_capabilities_to_proto}
use nico_core_mock.Config.Grouped.{add_capabilities-grouped, grouped}
use nico_core_mock.Config.Load.{
  LoadedInventory, inventory_of, load_config, load_expected, load_machines, parse_config,
}
use nico_core_mock.Config.Loaded.{HasIds, ListsMachines, listed_id, load_config-ListsMachines}
use nico_core_mock.Config.Machines.{
  default_interface, interfaces_to_proto, load_discovery_info, machine_interfaces, machine_to_proto,
}
use nico_core_mock.Config.Path.{before_last_slash, dir_of}
use nico_core_mock.Example.Disk.{codecs, file_system, service}
use nico_core_mock.Example.Runs.{calls, request-IsSound}
use nico_core_mock.Example.World.{env, env-IsFresh}
use nico_core_mock.Forge.Expect.Linked.{load_from_inventory}
use nico_core_mock.GoMap.{delete, get, put}
use nico_core_mock.GoMap.Load.{IsKeyed}
use nico_core_mock.Message.{Payload}
use nico_core_mock.Persist.{persisted}
use nico_core_mock.Persist.Recovery.{IsConsistent, fresh_server}
use nico_core_mock.Prelude.{String, [], if◌then◌else◌, none, refl, some, true, ◌==◌, ◌∷◌, ◌≡◌, ◌≢◌}
use nico_core_mock.Serve.{load_persisted_state, serve, start, with_types}
use nico_core_mock.Serve.Started.{AreSane, load_config-serve, served}
use nico_core_mock.Server.{Server}

-- One machine by name with an interface, and one for which all is made up.
abbrev spec_1 : MachineSpec
spec_1 = record {
  id = "machine-1";
  state = "";
  interfaces =
      record {
        id = "";
        hostname = "host-1";
        mac_address = "02:00:00:00:00:aa";
        addresses = [];
        segment_id = "";
        primary_interface = none;
        attached_dpu_machine_id = "";
      }
      ∷ [];
  discovery_info = none;
  discovery_info_file = "";
  attached_dpu_machine_id = "dpu-1";
  machine_capabilities = [];
}

abbrev spec_2 : MachineSpec
spec_2 = record spec_1 { id = ""; interfaces = [] }

abbrev file : File
file = record { machines = spec_1 ∷ spec_2 ∷ []; expected_machines = [] }

abbrev sources : Sources
sources = record {
  read_file = λ p. if p == "/etc/nico/machines.yaml" then some "machines" else none;
  parse_plain = λ d. some file;
  parse_wrapped = λ d. none;
  marshal_inline = λ d. some d;
  parse_discovery = λ d. some d;
  decimal = λ n. "1";
  hex2 = λ n. "00";
  machine_uuid = λ i. "uuid";
  interface_uuid = λ i j. "interface";
  expected_uuid = λ i. "expected";
  expected_others = λ a b c d. a;
}

sources-HasIds : HasIds sources
sources-HasIds i = refl

abbrev inventory_path : String
inventory_path = "/etc/nico/machines.yaml"

-- The machines that the file lists, in the map.
abbrev listed : LoadedInventory
unfolding inventory_of
listed = elim (inventory_of sources "/etc/nico" file) [
  | some inv ↦ inv
  | none ↦ record { machines = []; expected_machines = []; linked_expected_machines = [] }
]

listed-loaded : load_config sources inventory_path ≡ some listed
unfolding load_config inventory_of parse_config dir_of before_last_slash load_machines load_expected
    machine_to_proto machine_interfaces default_interface interfaces_to_proto load_discovery_info
    machine_capabilities_to_proto get put delete
listed-loaded = refl

load_config-ListsMachines_example :
    IsKeyed listed_id listed.machines
    × ((doc : Payload) × (f : File) × (sources.read_file inventory_path ≡ some doc)
        × (parse_config sources doc ≡ some f)
        × (f.machines ≢ [])
        × ListsMachines sources inventory_path f.machines listed.machines)
load_config-ListsMachines_example =
    load_config-ListsMachines sources inventory_path listed sources-HasIds listed-loaded

abbrev started : Server
unfolding load_from_inventory with_types
started =
    let seeded = load_from_inventory env (some (served listed)) (fresh_server true) in
    with_types env seeded.it seeded

started-start :
    start file_system codecs "" service env (some (served listed)) true [] ≡ some started
unfolding start load_persisted_state started load_from_inventory
started-start = refl

calls-AreSane : AreSane file_system codecs "" service calls
calls-AreSane =
    (env-IsFresh, tt, (env-IsFresh, tt, (env-IsFresh, tt, (env-IsFresh, request-IsSound, tt))))

load_config-serve_example :
    IsConsistent (persisted (serve file_system codecs "" service calls started []).0)
load_config-serve_example =
    load_config-serve file_system codecs "" service sources inventory_path listed env true []
      started calls sources-HasIds env-IsFresh calls-AreSane listed-loaded started-start

abbrev capability : String → CapabilitySpec
capability kind = record {
  kind = kind;
  name = "x";
  vendor = "";
  count = 2;
  frequency = "";
  capacity = "";
  cores = 8;
  threads = 0;
  device_type = "";
  inactive_devices = [];
}

add_capabilities-grouped_example :
    add_capabilities (capability "GPU" ∷ capability "CPU" ∷ capability "GPU" ∷ []) empty_set
    ≡ grouped empty_set (capability "GPU" ∷ capability "CPU" ∷ capability "GPU" ∷ [])
add_capabilities-grouped_example =
    add_capabilities-grouped (capability "GPU" ∷ capability "CPU" ∷ capability "GPU" ∷ []) empty_set
