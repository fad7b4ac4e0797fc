-- ===== src/Identity/Sound/Steps.antt =====
-- Soundness and the steps of internal/server/forge_server.go on one organization.
use nico_core_mock.Identity.Config.{blank, checked, normalize_allowed_audiences}
use nico_core_mock.Identity.Crypto.{Call, KeyMaterial, Tools, generate_key_material}
use nico_core_mock.Identity.Slots.{
  OrgState, active_key, clear_inactive_slot, first_keys, gc_expired, inactive_key, rotate,
}
use nico_core_mock.Identity.Slots.Laws.{
  OnSlot-clear_inactive_slot, OnSlot-first_keys, OnSlot-rotate, clear_inactive_slot_lem,
  first_keys_lem, gc_expired-cases, rotate_lem,
}
use nico_core_mock.Identity.Sound.{Configured, Genuine, KeysSound, Sound}
use nico_core_mock.Message.Identity.{IdentityConfig, IdentityResponse}
use nico_core_mock.Prelude.{
  List, Option, Option-cases, String, [], arith, contains, eq_refl, false, inl, inr, nat_eq, some,
  subst, sym, true, ℕ, ◌∙◌, ◌∷◌, ◌≡◌,
}

module _ (t : Tools) where
  pub generate_key_material-Genuine :
      (c : Call) (km : KeyMaterial) → generate_key_material t c ≡ some km → Genuine t km
  unfolding generate_key_material
  generate_key_material-Genuine c km h = elim (Option-cases c.generate_key) [
    | inl none_made ↦ absurd (ground (arith, none_made, h))
    | inr (priv, made) ↦ elim (Option-cases (t.marshal_spki priv)) [
      | inl unmade ↦ absurd (ground (arith, made, unmade, h))
      | inr (spki, marshalled) ↦ record {
        priv = priv;
        spki = spki;
        marshalled = marshalled;
        made = ground (arith, made, marshalled, h);
      }
    ]
  ]

  pub KeysSound-clear_inactive_slot :
      (s : OrgState) → KeysSound t s → KeysSound t (clear_inactive_slot s)
  KeysSound-clear_inactive_slot s h = record {
    on_slot = OnSlot-clear_inactive_slot s h.on_slot;
    key = h.key;
    active = (clear_inactive_slot_lem s).0 ∙ h.active;
    genuine = h.genuine;
    retired = inl ((clear_inactive_slot_lem s).1, (clear_inactive_slot_lem s).2);
  }

  pub KeysSound-rotate :
      (key : KeyMaterial) (e : ℕ) (s : OrgState)
      → Genuine t key
      → KeysSound t s
      → KeysSound t (rotate key e s)
  KeysSound-rotate key e s g h = record {
    on_slot = OnSlot-rotate key e s;
    key = key;
    active = (rotate_lem key e s).0;
    genuine = g;
    retired = inr (h.key, e, (rotate_lem key e s).1 ∙ h.active, h.genuine, (rotate_lem key e s).2);
  }

  pub KeysSound-first_keys :
      (key : KeyMaterial) (s : OrgState) → Genuine t key → KeysSound t (first_keys key s)
  KeysSound-first_keys key s g = record {
    on_slot = OnSlot-first_keys key s;
    key = key;
    active = (first_keys_lem key s).0;
    genuine = g;
    retired = inl ((first_keys_lem key s).1, (first_keys_lem key s).2);
  }

  -- The configuration plays no part.
  pub KeysSound-cfg :
      (s : OrgState) (o : Option IdentityResponse)
      → KeysSound t s
      → KeysSound t (record s { cfg = o })
  unfolding active_key inactive_key
  KeysSound-cfg s o h = record {
    on_slot = h.on_slot;
    key = h.key;
    active = h.active;
    genuine = h.genuine;
    retired = h.retired;
  }

  pub Configured-cfg : (s r : OrgState) → r.cfg ≡ s.cfg → Configured t s → Configured t r
  Configured-cfg s r e h = record {
    resp = h.resp;
    cfg = h.cfg;
    stored = e ∙ h.stored;
    config = h.config;
    issuer = h.issuer;
    audience = h.audience;
    ttl = h.ttl;
  }

  pub Sound-gc_expired : (now : ℕ) (s : OrgState) → Sound t s → Sound t (gc_expired now s)
  Sound-gc_expired now s h = elim (gc_expired-cases now s) [
    | inl e ↦ subst (Sound t) (sym e) h
    | inr e ↦ subst (Sound t) (sym e) (record {
      keys_sound = KeysSound-clear_inactive_slot s h.keys_sound;
      configured =
          Configured-cfg s (clear_inactive_slot s) (clear_inactive_slot_lem s).3 h.configured;
    })
  ]

  pub normalize_allowed_audiences_lem :
      (a : String) (asked allowed : List String)
      → normalize_allowed_audiences a asked ≡ some allowed
      → contains a allowed ≡ true
  unfolding normalize_allowed_audiences contains
  normalize_allowed_audiences_lem a [] allowed h = ground (arith, eq_refl a)
  normalize_allowed_audiences_lem a (x ∷ xs) allowed h = ground arith

  -- The audiences of a configuration that is accepted are those it stores.
  pub checked_lem :
      (input : IdentityConfig) (allowed : List String)
      → checked t input ≡ some allowed
      → (blank t input.issuer ≡ false)
        × (contains input.default_audience allowed ≡ true)
        × (nat_eq input.token_ttl_sec 0 ≡ false)
  unfolding checked
  checked_lem input allowed h =
      elim (Option-cases
        (normalize_allowed_audiences input.default_audience input.allowed_audiences)) [
          | inl n ↦ ground (arith, n, h)
          | inr (xs, n) ↦ ground (
            arith,
            n,
            h,
            normalize_allowed_audiences_lem input.default_audience input.allowed_audiences xs n,
          )
        ]
