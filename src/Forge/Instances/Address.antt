-- ===== src/Forge/Instances/Address.antt =====
-- Random addresses: generateIPAddressInCIDR of internal/server/utils.go, and its call in
-- AllocateInstance.
use nico_core_mock.Env.{Env, ipv4, malformed, not_ipv4}
use nico_core_mock.Forge.Prefix.{config_prefix}
use nico_core_mock.GoMap.{GoMap, get}
use nico_core_mock.Message.Network.{VpcPrefix}
use nico_core_mock.Prelude.{
  Option, String, empty_text, given, if◌then◌else◌, ltb, nat_eq, none, some, value, ℕ, ◌%◌, ◌+◌,
  ◌-◌, ◌^◌,
}

-- The host part of the function: 32-bit arithmetic on the network's address, the length of the
-- mask and a random word. `none` is a panic: the division by zero at a mask of 31 bits, or the shift
-- by a negative number at a mask of more than 32 bits, which the CIDR of an IPv4-mapped IPv6 address
-- has.
unfoldable pub host_address : ℕ → ℕ → ℕ → Option ℕ
host_address base ones word =
    let host_bits = 32 - ones in
    let max_host = if ltb host_bits 32 then 2 ^ host_bits - 2 else 2 ^ 32 - 1 - 2 in
    if nat_eq ones 32
    then some base
    else if ltb 32 ones
    then none
    else if nat_eq max_host 0
    then none
    else some ((base + (word % max_host + 1)) % 2 ^ 32)

pub data Drawn : Type 0 where
  drawn : String → Drawn
  undrawable panicked : Drawn

-- `undrawable` is a returned error.
unfoldable pub generate_ip_address_in_cidr : Env → ℕ → String → Drawn
unfolding host_address
generate_ip_address_in_cidr e i cidr = elim (e.parse_cidr cidr) [
  | malformed ↦ undrawable
  | not_ipv4 ↦ undrawable
  | ipv4 base ones ↦ elim (host_address base ones (e.random_uint32 i)) [
    | none ↦ panicked
    | some a ↦ drawn (e.show_ip a)
  ]
]

-- The CIDR of the prefix that an interface names, where it is stored and not "".
unfoldable pub prefix_of : Option String → GoMap VpcPrefix → Option String
prefix_of pid vp =
    let stored : Option VpcPrefix = if given pid then get (value pid) vp else none in
    elim stored [
      | none ↦ none
      | some p ↦ if empty_text (config_prefix p.config) then none else some (config_prefix p.config)
    ]
