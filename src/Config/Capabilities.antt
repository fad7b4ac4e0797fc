-- ===== src/Config/Capabilities.antt =====
-- machineCapabilitiesToProto and deviceTypeToProto of internal/config/config.go.
use nico_core_mock.Config.{CapabilitiesSet, Capability, CapabilitySpec}
use nico_core_mock.Config.Path.{str_ptr}
use nico_core_mock.Prelude.{
  List, Option, String, [], empty_text, if◌then◌else◌, nat_eq, none, some, ℕ, ◌++◌, ◌==◌, ◌∷◌,
}

-- The enumeration, by its names.
unfoldable pub device_type_to_proto : String → String
device_type_to_proto s = if s == "DPU" then "DPU" else if s == "NVLink" then "NVLINK" else "UNKNOWN"

abbrev pub device_type_of : String → Option String
device_type_of s = if empty_text s then none else some (device_type_to_proto s)

abbrev pub num_ptr : ℕ → Option ℕ
num_ptr n = if nat_eq n 0 then none else some n

-- The fields that every kind has, and nothing else.
abbrev pub bare : CapabilitySpec → Capability
bare s = record {
  name = s.name;
  count = s.count;
  vendor = none;
  frequency = none;
  capacity = none;
  cores = none;
  threads = none;
  device_type = none;
  inactive_devices = [];
}

abbrev pub vended : CapabilitySpec → Capability
vended s = record (bare s) { vendor = str_ptr s.vendor }

abbrev pub cpu_of : CapabilitySpec → Capability
cpu_of s = record (vended s) { cores = num_ptr s.cores; threads = num_ptr s.threads }

unfoldable pub gpu_of : CapabilitySpec → Capability
unfolding device_type_to_proto
gpu_of s = record (vended s) {
  frequency = str_ptr s.frequency;
  capacity = str_ptr s.capacity;
  device_type = device_type_of s.device_type;
}

abbrev pub sized_of : CapabilitySpec → Capability
sized_of s = record (vended s) { capacity = str_ptr s.capacity }

unfoldable pub network_of : CapabilitySpec → Capability
unfolding device_type_to_proto
network_of s = record (vended s) { device_type = device_type_of s.device_type }

abbrev pub infiniband_of : CapabilitySpec → Capability
infiniband_of s = record (vended s) { inactive_devices = s.inactive_devices }

abbrev pub empty_set : CapabilitiesSet
empty_set = record {
  cpu = [];
  gpu = [];
  memory = [];
  storage = [];
  network = [];
  infiniband = [];
  dpu = [];
}

-- The switch on the type; another type adds nothing.
unfoldable pub add_capability : CapabilitySpec → CapabilitiesSet → CapabilitiesSet
unfolding gpu_of network_of
add_capability s set =
    if s.kind == "CPU"
    then record set { cpu = set.cpu ++ (cpu_of s ∷ []) }
    else if s.kind == "GPU"
    then record set { gpu = set.gpu ++ (gpu_of s ∷ []) }
    else if s.kind == "Memory"
    then record set { memory = set.memory ++ (sized_of s ∷ []) }
    else if s.kind == "Storage"
    then record set { storage = set.storage ++ (sized_of s ∷ []) }
    else if s.kind == "Network"
    then record set { network = set.network ++ (network_of s ∷ []) }
    else if s.kind == "InfiniBand"
    then record set { infiniband = set.infiniband ++ (infiniband_of s ∷ []) }
    else if s.kind == "DPU"
    then record set { dpu = set.dpu ++ (bare s ∷ []) }
    else set

-- The loop.
unfoldable pub add_capabilities : List CapabilitySpec → CapabilitiesSet → CapabilitiesSet
unfolding add_capability
add_capabilities [] set = set
add_capabilities (s ∷ specs) set = add_capabilities specs (add_capability s set)

unfoldable pub machine_capabilities_to_proto : List CapabilitySpec → Option CapabilitiesSet
unfolding add_capabilities
machine_capabilities_to_proto [] = none
machine_capabilities_to_proto (s ∷ specs) = some (add_capabilities (s ∷ specs) empty_set)
