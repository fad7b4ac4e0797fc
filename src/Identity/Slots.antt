-- ===== src/Identity/Slots.antt =====
-- The two slots in which identityOrgState of internal/server/forge_server.go keeps the signing keys of
-- an organization, and the steps that SetTenantIdentityConfiguration and
-- gcExpiredNonActiveSigningKey make on them.
pub mod Rotation
pub mod Laws
use Prim.Native.String.{compare}
use text.Mathlib.Text.{is_lt}
use nico_core_mock.Identity.Crypto.{KeyMaterial}
use nico_core_mock.Message.Identity.{IdentityResponse, SigningKey}
use nico_core_mock.Prelude.{
  Bool, List, Option, String, [], false, if◌then◌else◌, ltb, map_option, nat_eq, none, not, some,
  true, ℕ, ◌∷◌,
}

-- A time is a number of nanoseconds.
pub record OrgState : Type 0 where
  pub cfg : Option IdentityResponse
  pub slot1 : Option KeyMaterial
  pub slot2 : Option KeyMaterial
  pub current_slot : ℕ
  pub non_active_slot_expires : Option ℕ

-- `&identityOrgState{}`
abbrev pub blank_state : OrgState
blank_state = record {
  cfg = none;
  slot1 = none;
  slot2 = none;
  current_slot = 0;
  non_active_slot_expires = none;
}

unfoldable pub inactive_slot : OrgState → ℕ
inactive_slot s = if nat_eq s.current_slot 1 then 2 else 1

unfoldable pub active_key : OrgState → Option KeyMaterial
active_key s = if nat_eq s.current_slot 1 then s.slot1 else s.slot2

unfoldable pub inactive_key : OrgState → Option KeyMaterial
inactive_key s = if nat_eq s.current_slot 1 then s.slot2 else s.slot1

unfoldable pub set_slot : ℕ → Option KeyMaterial → OrgState → OrgState
set_slot n km s = if nat_eq n 1 then record s { slot1 = km } else record s { slot2 = km }

unfoldable pub clear_inactive_slot : OrgState → OrgState
clear_inactive_slot s =
    if nat_eq s.current_slot 1
    then record s { slot2 = none; non_active_slot_expires = none }
    else record s { slot1 = none; non_active_slot_expires = none }

-- What is done to an organization that is there, given the time.
unfoldable pub gc_expired : ℕ → OrgState → OrgState
unfolding clear_inactive_slot
gc_expired now s = elim s.non_active_slot_expires [
  | none ↦ s
  | some t ↦ if not (ltb now t) then clear_inactive_slot s else s
]

-- The keys of an organization that is set up for the first time.
unfoldable pub first_keys : KeyMaterial → OrgState → OrgState
first_keys key s = record s {
  slot1 = some key;
  slot2 = none;
  current_slot = 1;
  non_active_slot_expires = none;
}

-- A rotation to a new key; the old one expires at the time `t`.
unfoldable pub rotate : KeyMaterial → ℕ → OrgState → OrgState
unfolding clear_inactive_slot inactive_slot set_slot
rotate key t s =
    let cleared = clear_inactive_slot s in
    let filled = set_slot (inactive_slot cleared) (some key) cleared in
    record filled { current_slot = inactive_slot filled; non_active_slot_expires = some t }

-- Go's `<` on texts.
abbrev pub text_before : String → String → Bool
text_before a b = is_lt (compare a b)

-- `sort.SliceStable` by the key id, on a list that has an id in each element.
module _ {A : Type 0} (kid : A → String) where
  unfoldable pub insert_by_kid : A → List A → List A
  insert_by_kid x [] = x ∷ []
  insert_by_kid x (y ∷ ys) =
      let rest = insert_by_kid x ys in if text_before (kid y) (kid x) then y ∷ rest else x ∷ y ∷ ys

  unfoldable pub sort_by_kid : List A → List A
  unfolding insert_by_kid
  sort_by_kid [] = []
  sort_by_kid (x ∷ xs) = insert_by_kid x (sort_by_kid xs)

-- The list with what is not nil in front.
abbrev pub cons_some {ℓ} : {A : Type ℓ} → Option A → List A → List A
cons_some none xs = xs
cons_some (some x) xs = x ∷ xs

abbrev pub shown_active : KeyMaterial → SigningKey
shown_active km = record { kid = km.kid; alg = "ES256"; current_signer = true; expire_at = none }

abbrev pub shown_inactive : Option ℕ → KeyMaterial → SigningKey
shown_inactive t km = record { kid = km.kid; alg = "ES256"; current_signer = false; expire_at = t }

unfoldable pub signing_keys_response : OrgState → List SigningKey
unfolding active_key inactive_key sort_by_kid
signing_keys_response s =
    sort_by_kid (λ k. k.kid)
      (cons_some (map_option shown_active (active_key s))
        (cons_some (map_option (shown_inactive s.non_active_slot_expires) (inactive_key s)) []))
