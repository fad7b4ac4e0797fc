-- ===== src/Env.antt =====
-- What one call of a handler is given by code outside this repository: random ids and addresses,
-- the clock, the libvirt lookup, the `mockdata` package, `net` and `strings`.
use nico_core_mock.GoMap.{Runtime}
use nico_core_mock.Message.{Payload}
use nico_core_mock.Message.Compute.{Machine}
use nico_core_mock.Prelude.{Bool, Option, String, ℕ}

-- `net.ParseCIDR` and `To4`: an error, a network that is not IPv4, or the network's address as a
-- 32-bit number with the length of its mask.
pub data Cidr : Type 0 where
  malformed not_ipv4 : Cidr
  ipv4 : ℕ → ℕ → Cidr

pub record Env : Type 0 where
  pub go : Runtime
  -- `uuid.NewString()`
  pub uuid : String
  -- `time.Now()`, formatted
  pub now : String
  -- `time.Now().UnixNano()`, formatted
  pub nanos : String
  -- `strings.TrimSpace`
  pub trim_space : String → String
  -- `strings.EqualFold`
  pub equal_fold : String → String → Bool
  -- `powerChecker.IsPoweredOn`
  pub is_powered_on : String → Bool
  -- `mockdata.EnsureMachineDiscoveryInfo`
  pub ensure_discovery : Machine → Machine
  -- `mockdata.MachineDiscoveryInfoForHost(mockdata.HostIDFromMachineID(id))`
  pub host_discovery : String → Option Payload
  pub parse_cidr : String → Cidr
  -- `net.IP.String` of a 32-bit number
  pub show_ip : ℕ → String
  -- the random values for the n-th interface of an instance: `generateMacAddress`,
  -- `generateIPAddress`, `mrand.Uint32` and `generateInteger(16)`
  pub random_mac : ℕ → String
  pub random_ip : ℕ → String
  pub random_uint32 : ℕ → ℕ
  pub random_vf : ℕ → ℕ
  -- `fmt.Sprintf("ExpectedMachine with ID %q not found", id)`
  pub not_found_text : String → String
