-- ===== src/Forge/Instances/Bounds.antt =====
-- The range of the addresses that generateIPAddressInCIDR of internal/server/utils.go draws.
use native.Mathlib.Decide.{dec_lt}
use mathlib.Core.Logic.{◌↔◌}
use native.Mathlib.Nat.{mod-lt, pow-suc}
use nico_core_mock.Forge.Instances.Address.{host_address}
use nico_core_mock.Prelude.{
  arith, none, refl, some, suc, zero, ℕ, ◌%◌, ◌+◌, ◌-◌, ◌<◌, ◌^◌, ◌≡◌, ◌≤◌,
}

four-le-pow : (n : ℕ) → 4 ≤ 2 ^ suc (suc n)
four-le-pow zero = omega arith
four-le-pow (suc n) = rw (pow-suc 2 (suc (suc n))) (omega (arith, four-le-pow n))

drawn_below :
    (base ones word size : ℕ)
    → size ≡ 2 ^ (32 - ones)
    → 1 ≤ ones
    → ones ≤ 30
    → 4 ≤ size
    → base + size ≤ 2 ^ 32
    → word % (size - 2) < size - 2
    → host_address base ones word ≡ some (base + (word % (size - 2) + 1))
unfolding host_address
drawn_below base ones word size s lo hi big fits r = rw (← s) (ground arith)

-- Where the mask has between 1 and 30 bits, the address that is drawn lies in the network, and is
-- neither its first, which is the network's own, nor its last, which is the broadcast address. The
-- network is taken to end within 32 bits.
pub host_address_bounds :
    (base ones word : ℕ)
    → 1 ≤ ones
    → ones ≤ 30
    → base + 2 ^ (32 - ones) ≤ 2 ^ 32
    → (a : ℕ) × (host_address base ones word ≡ some a)
      × (base < a)
      × (a + 1 < base + 2 ^ (32 - ones))
host_address_bounds base ones word lo hi fits =
    let size : ℕ = 2 ^ (32 - ones) in
    let shape : 32 - ones ≡ suc (suc (30 - ones)) = omega arith in
    let big : 4 ≤ size = rw shape (four-le-pow (30 - ones)) in
    let r : word % (size - 2) < size - 2 = mod-lt word (omega arith) in
    (
      base + (word % (size - 2) + 1),
      drawn_below base ones word size refl lo hi big fits r,
      omega arith,
      omega (arith, r, big),
    )

wide_draws :
    (base ones word : ℕ) → ones ≤ 30 → 4 ≤ 2 ^ (32 - ones) → host_address base ones word ≡ none → ⊥
unfolding host_address
wide_draws base ones word hi big h = ground arith

narrow_draws :
    (base ones word : ℕ) → ones ≤ 32 → 31 ≤ ones → host_address base ones word ≡ none → ones ≡ 31
unfolding host_address
narrow_draws base ones word hi lo h = ground arith

-- Of the masks of at most 32 bits exactly those of 31 bits leave nothing to draw: there the modulus
-- is 0, and the division panics, whatever the network and the random word.
pub host_address-none :
    (base ones word : ℕ) → ones ≤ 32 → (host_address base ones word ≡ none) ↔ (ones ≡ 31)
unfolding host_address
host_address-none base ones word hi = (
  λ h. elim (dec_lt ones 31) [
    | yes lt ↦
        let shape : 32 - ones ≡ suc (suc (30 - ones)) = omega arith in
        absurd (wide_draws base ones word (omega arith) (rw shape (four-le-pow (30 - ones))) h)
    | no ge ↦ narrow_draws base ones word hi (omega arith) h
  ],
  λ e. rw e refl,
)
