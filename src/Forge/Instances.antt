-- ===== src/Forge/Instances.antt =====
-- Instances: AllocateInstance, ReleaseInstance, UpdateInstanceConfig, FindInstanceIds,
-- FindInstancesByIds and InvokeInstancePower of internal/server/forge_server.go.
pub mod Address
pub mod Jobs
pub mod Lifecycle
pub mod Bounds
pub mod Allocate
use nico_core_mock.Env.{Env}
use nico_core_mock.Forge.Instances.Address.{
  panicked, drawn, generate_ip_address_in_cidr, prefix_of, undrawable,
}
use nico_core_mock.Forge.Instances.Jobs.{schedule_libvirt_provision, schedule_libvirt_release}
use nico_core_mock.GoMap.{GoMap, delete, get, has, put, range_keys, values_at}
use nico_core_mock.Message.{Payload}
use nico_core_mock.Message.Compute.{
  FunctionType, Instance, InstanceAllocationRequest, InstanceConfig, InstanceConfigUpdateRequest,
  InstancePowerRequest, InstanceStatus, InterfaceConfig, InterfaceStatus, Machine, NetworkConfig,
  TenantState, configuring, other_operation, physical_function, power_reset, provisioning, ready,
  virtual_function,
}
use nico_core_mock.Message.Network.{VpcPrefix}
use nico_core_mock.Prelude.{
  List, Option, String, [], empty_text, given, if◌then◌else◌, map, none, not, or_else, some, suc,
  value, ℕ, ◌&&◌, ◌∷◌,
}
use nico_core_mock.Reply.{
  Reply, answer, err, internal, invalid_argument, not_found, ok, panic, ◌>>=◌,
}
use nico_core_mock.Server.{Handler, Server}

-- The address of an interface: the requested one, or one in the prefix, or a random one.
unfoldable pub interface_address : Env → GoMap VpcPrefix → ℕ → InterfaceConfig → Reply String
unfolding generate_ip_address_in_cidr prefix_of
interface_address e vp i ifc =
    if not (empty_text ifc.ip_address)
    then ok ifc.ip_address
    else elim (prefix_of ifc.vpc_prefix_id vp) [
      | none ↦ ok (e.random_ip i)
      | some cidr ↦ elim (generate_ip_address_in_cidr e i cidr) [
        | drawn a ↦ ok (if empty_text a then e.random_ip i else a)
        | undrawable ↦ ok (e.random_ip i)
        | panicked ↦ panic
      ]
    ]

unfoldable pub interface_status : Env → ℕ → FunctionType → String → InterfaceStatus
interface_status e i kind addr = record {
  mac_address = some (e.random_mac i);
  addresses = addr ∷ [];
  virtual_function_id = elim kind [
    | virtual_function ↦ some (e.random_vf i)
    | physical_function ↦ none
  ];
}

-- The loop over the requested interfaces, from the i-th on.
unfoldable pub interface_statuses :
    Env → GoMap VpcPrefix → ℕ → List InterfaceConfig → Reply (List InterfaceStatus)
unfolding interface_address interface_status
interface_statuses e vp i [] = ok []
interface_statuses e vp i (ifc ∷ ifcs) = do
  addr ← interface_address e vp i ifc
  rest ← interface_statuses e vp (suc i) ifcs
  ok (interface_status e i ifc.function_type addr ∷ rest)

unfoldable pub new_instance : String → InstanceAllocationRequest → List InterfaceStatus → Instance
new_instance nid req ifcsts = record {
  id = some nid;
  machine_id = req.machine_id;
  config = req.config;
  status = some (record { tenant = some provisioning; interfaces = ifcsts });
  metadata = none;
  config_version = "";
}

-- The machine of a new instance: made up, or the stored one with its discovery information.
unfoldable pub instance_machine : Env → String → Option Machine → Machine
instance_machine e mid (some old) = e.ensure_discovery old
instance_machine e mid none = record {
  id = some mid;
  state = "Ready";
  interfaces = [];
  discovery_info = e.host_discovery mid;
  instance_type_id = none;
}

-- From the write of the instance on; a missing machine id is a nil dereference after that write.
unfoldable pub store_instance :
    Env → InstanceAllocationRequest → String → List InterfaceStatus → Handler Instance
unfolding new_instance instance_machine schedule_libvirt_provision
store_instance e req nid ifcsts f =
    let nins = new_instance nid req ifcsts in
    let f' = record f { ins = put nid nins f.ins } in
    elim req.machine_id [
      | none ↦ (f', panic)
      | some mid ↦
          let stored = record f' { m = put mid (instance_machine e mid (get mid f.m)) f.m } in
          (schedule_libvirt_provision e req stored, ok nins)
    ]

-- `req.Config.Network.Interfaces`: a nil configuration or network is a nil dereference.
unfoldable pub requested_interfaces : Option InstanceConfig → Reply (List InterfaceConfig)
requested_interfaces none = panic
requested_interfaces (some c) = elim c.network [ none ↦ panic | some n ↦ ok n.interfaces ]

abbrev pub allocated_id : Env → Option String → String
allocated_id e none = e.uuid
allocated_id e (some id) = id

-- The rest of the handler, once the loop over the interfaces has ended.
unfoldable pub allocate_with :
    Env → InstanceAllocationRequest → String → Reply (List InterfaceStatus) → Handler Instance
unfolding store_instance
allocate_with e req nid (ok sts) f = store_instance e req nid sts f
allocate_with e req nid (err c) f = (f, err c)
allocate_with e req nid panic f = (f, panic)

unfoldable pub allocate_instance : Env → Option InstanceAllocationRequest → Handler Instance
unfolding interface_statuses allocate_with requested_interfaces
allocate_instance e none f = (f, err invalid_argument)
allocate_instance e (some req) f =
    let nid = allocated_id e req.instance_id in
    let ifcsts = requested_interfaces req.config >>= interface_statuses e f.vp 0 in
    if has nid f.ins then (f, err internal) else allocate_with e req nid ifcsts f

unfoldable pub release_instance : Option (Option String) → Handler Unit
unfolding schedule_libvirt_release
release_instance (some (some id)) f = elim (get id f.ins) [
  | none ↦ (f, err not_found)
  | some ins ↦ (schedule_libvirt_release ins (record f { ins = delete id f.ins }), ok tt)
]
release_instance _ f = (f, err invalid_argument)

abbrev pub config_network : Option InstanceConfig → Option NetworkConfig
config_network none = none
config_network (some c) = c.network

-- The configuration is replaced as a whole, but for the network.
unfoldable pub replaced_config :
    Option InstanceConfig → Option InstanceConfig → Option InstanceConfig
replaced_config none old = old
replaced_config (some c) old = some (record c { network = config_network old })

unfoldable pub reconfigured : Env → InstanceConfigUpdateRequest → Instance → Instance
unfolding replaced_config
reconfigured e req ins = record ins {
  config = replaced_config req.config ins.config;
  metadata = or_else req.metadata ins.metadata;
  config_version = e.uuid;
}

unfoldable pub update_instance_config : Env → Option InstanceConfigUpdateRequest → Handler Instance
unfolding reconfigured
update_instance_config e none f = (f, err invalid_argument)
update_instance_config e (some req) f =
    let id = value req.instance_id in
    if given req.instance_id
    then (elim (get id f.ins) [
      | none ↦ (f, err not_found)
      | some ins ↦
          (record f { ins = put id (reconfigured e req ins) f.ins }, ok (reconfigured e req ins))
    ])
    else (f, err invalid_argument)

unfoldable pub find_instance_ids : Env → Option Payload → Server → Reply (List String)
find_instance_ids e req f = answer req (λ _. range_keys e.go f.ins)

-- One step of the mocked lifecycle.
unfoldable pub advance_state : TenantState → TenantState
advance_state provisioning = configuring
advance_state configuring = ready
advance_state s = s

unfoldable pub advance_status : InstanceStatus → InstanceStatus
unfolding advance_state
advance_status s = record s {
  tenant = elim s.tenant [ none ↦ none | some t ↦ some (advance_state t) ];
}

unfoldable pub advance_instance : Instance → Instance
unfolding advance_status
advance_instance i = record i {
  status = elim i.status [ none ↦ none | some s ↦ some (advance_status s) ];
}

-- The loop over the ids advances the stored instance at each occurrence of its id.
unfoldable pub advance_all : List String → GoMap Instance → GoMap Instance
unfolding advance_instance
advance_all [] ins = ins
advance_all (id ∷ ids) ins =
    let missing = advance_all ids ins in
    elim (get id ins) [
      | none ↦ missing
      | some i ↦ advance_all ids (put id (advance_instance i) ins)
    ]

-- The response holds pointers into the map, so an instance that is named twice is sent twice as it
-- is after both steps.
unfoldable pub find_instances_by_ids : Option (List (Option String)) → Handler (List Instance)
unfolding advance_all
find_instances_by_ids none f = (f, err invalid_argument)
find_instances_by_ids (some ids) f =
    let ins = advance_all (map value ids) f.ins in
    (record f { ins = ins }, ok (values_at (map value ids) ins))

-- A missing machine id is a nil dereference. Only a reset is a valid operation.
unfoldable pub invoke_instance_power : Env → Option InstancePowerRequest → Server → Reply (Unit {0})
invoke_instance_power e none f = err invalid_argument
invoke_instance_power e (some req) f = elim req.machine_id [
  | none ↦ panic
  | some mid ↦
      if has mid f.m && e.is_powered_on mid
      then elim req.operation [ power_reset ↦ ok tt | other_operation ↦ err invalid_argument ]
      else err not_found
]
