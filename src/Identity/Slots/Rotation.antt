-- ===== src/Identity/Slots/Rotation.antt =====
-- Which keys of an organization sign and are shown after a rotation in
-- internal/server/forge_server.go.
use nico_core_mock.Identity.Crypto.{KeyMaterial}
use nico_core_mock.Identity.Slots.{
  OrgState, active_key, clear_inactive_slot, gc_expired, inactive_key, inactive_slot, rotate,
  set_slot,
}
use nico_core_mock.Prelude.{
  Bool-cases, arith, if◌then◌else◌, inl, inr, ltb, nat_eq, none, some, ℕ, ◌≡◌,
}

-- The key that a rotation brings in is the active one from then on, also once expired keys are
-- collected; the key that was active before stays as the inactive one while the time of its expiry
-- has not come, and is gone from then on.
pub gc_expired-rotate :
    (key : KeyMaterial) (t now : ℕ) (s : OrgState)
    → (active_key (gc_expired now (rotate key t s)) ≡ some key)
      × (inactive_key (gc_expired now (rotate key t s))
          ≡ (if ltb now t then active_key s else none))
unfolding active_key inactive_key gc_expired rotate set_slot inactive_slot clear_inactive_slot
gc_expired-rotate key t now s = elim (Bool-cases (nat_eq s.current_slot 1)) [
  | inl one ↦ (ground (arith, one), ground (arith, one))
  | inr other ↦ (ground (arith, other), ground (arith, other))
]
