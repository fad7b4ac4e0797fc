-- ===== src/Identity/Slots/Laws.antt =====
-- What each step on the key slots in internal/server/forge_server.go leaves of the slots.
use nico_core_mock.Identity.Crypto.{KeyMaterial}
use nico_core_mock.Identity.Slots.{
  OrgState, active_key, clear_inactive_slot, first_keys, gc_expired, inactive_key, inactive_slot,
  rotate, set_slot,
}
use nico_core_mock.Message.Identity.{IdentityResponse}
use nico_core_mock.Prelude.{
  Bool, Bool-cases, Option, arith, false, if◌then◌else◌, inl, inr, ltb, nat_eq, none, not, refl,
  some, ℕ, ◌≡◌, ◌⊎◌,
}

-- The active key, the inactive first, the time of its expiry and the configuration.
abbrev pub Shows :
    OrgState → Option KeyMaterial → Option KeyMaterial → Option ℕ → Option IdentityResponse → Type 0
Shows s active inactive expires cfg =
    (active_key s ≡ active)
    × (inactive_key s ≡ inactive)
    × (s.non_active_slot_expires ≡ expires)
    × (s.cfg ≡ cfg)

pub clear_inactive_slot_lem :
    (s : OrgState) → Shows (clear_inactive_slot s) (active_key s) none none s.cfg
unfolding clear_inactive_slot active_key inactive_key
clear_inactive_slot_lem s = ground arith

pub first_keys_lem :
    (key : KeyMaterial) (s : OrgState) → Shows (first_keys key s) (some key) none none s.cfg
unfolding first_keys active_key inactive_key
first_keys_lem key s = ground arith

pub rotate_lem :
    (key : KeyMaterial) (t : ℕ) (s : OrgState)
    → Shows (rotate key t s) (some key) (active_key s) (some t) s.cfg
unfolding rotate clear_inactive_slot set_slot inactive_slot active_key inactive_key
rotate_lem key t s = ground arith

-- Collecting expired keys clears the inactive slot or does nothing.
pub gc_expired-cases :
    (now : ℕ) (s : OrgState) → (gc_expired now s ≡ s) ⊎ (gc_expired now s ≡ clear_inactive_slot s)
unfolding gc_expired
gc_expired-cases now s = ground arith

-- The time of an expiry has come.
abbrev pub expired : ℕ → Option ℕ → Bool
expired now none = false
expired now (some e) = not (ltb now e)

pub gc_expired_lem :
    (now : ℕ) (s : OrgState)
    → (active_key (gc_expired now s) ≡ active_key s)
      × (inactive_key (gc_expired now s)
          ≡ (if expired now s.non_active_slot_expires then none else inactive_key s))
unfolding gc_expired clear_inactive_slot active_key inactive_key
gc_expired_lem now s = elim (Bool-cases (nat_eq s.current_slot 1)) [
  | inl first ↦ (ground (arith, first), ground (arith, first))
  | inr other ↦ (ground (arith, other), ground (arith, other))
]

-- The current slot is first of the two.
abbrev pub OnSlot : OrgState → Type 0
OnSlot s = (s.current_slot ≡ 1) ⊎ (s.current_slot ≡ 2)

pub OnSlot-clear_inactive_slot : (s : OrgState) → OnSlot s → OnSlot (clear_inactive_slot s)
unfolding clear_inactive_slot
OnSlot-clear_inactive_slot s h = ground arith

pub OnSlot-first_keys : (key : KeyMaterial) (s : OrgState) → OnSlot (first_keys key s)
unfolding first_keys
OnSlot-first_keys key s = inl refl

pub OnSlot-rotate : (key : KeyMaterial) (t : ℕ) (s : OrgState) → OnSlot (rotate key t s)
unfolding rotate clear_inactive_slot set_slot inactive_slot
OnSlot-rotate key t s = ground arith
