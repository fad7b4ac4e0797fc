-- ===== src/Identity/Sound/Runs.antt =====
-- Soundness of organizations and the requests of tenant identity in
-- internal/server/forge_server.go.
use nico_core_mock.GoMap.{get}
use nico_core_mock.GoMap.Each.{Each, Each-delete, Each-put}
use nico_core_mock.Identity.{Identities, gc_expired_key}
use nico_core_mock.Identity.Calls.{
  IdentityRequest, delete_configuration, delete_delegation, get_configuration, get_delegation,
  identity_run, identity_step, jwks_of_org, open_id_of_org, set_configuration, set_delegation, sign,
}
use nico_core_mock.Identity.Config.{
  checked, configure, configure_again, configure_new, identity_response, store_response,
}
use nico_core_mock.Identity.Crypto.{Call, KeyMaterial, Tools, generate_key_material}
use nico_core_mock.Identity.Maps.{
  Collects, delete_configuration-cases, delete_token_delegation-cases, get_configuration-Collects,
  get_jwks-Collects, get_open_id-Collects, set_configuration-Configures, set_token_delegation-cases,
}
use nico_core_mock.Identity.Slots.{OrgState, blank_state}
use nico_core_mock.Identity.Sound.{KeysSound, Sound}
use nico_core_mock.Identity.Sound.Steps.{
  KeysSound-cfg, KeysSound-first_keys, KeysSound-rotate, Sound-gc_expired, checked_lem,
  generate_key_material-Genuine,
}
use nico_core_mock.Message.Identity.{IdentityConfig}
use nico_core_mock.Prelude.{
  Bool-cases, List, Option, Option-cases, String, [], inl, inr, refl, some, subst, sym, ℕ, ◌∷◌, ◌≡◌,
}

module _ (t : Tools) where
  -- Each organization in the map is sound.
  abbrev pub AllSound : Identities → Type 0
  AllSound f = Each (Sound t) f.identity_state

  -- `generateES256KeyMaterial` does not fail.
  abbrev pub Generates : Call → Type 0
  Generates c = (km : KeyMaterial) × (generate_key_material t c ≡ some km)

  pub AllSound-gc_expired_key :
      (now : ℕ) (org : String) (f : Identities) → AllSound f → AllSound (gc_expired_key now org f)
  unfolding gc_expired_key
  AllSound-gc_expired_key now org f h = elim (Option-cases (get org f.identity_state)) [
    | inl e ↦ rw (e, gc_expired_key) h
    | inr (st, e) ↦
        rw (e, gc_expired_key)
          (Each-put (Sound t) org _ _ (Sound-gc_expired t now st (h.at org st e)) h)
  ]

  AllSound-Collects : (c : Call) (f g : Identities) → AllSound f → Collects t c f g → AllSound g
  AllSound-Collects c f g h (inl e) = subst AllSound (sym e) h
  AllSound-Collects c f g h (inr (org, e)) =
      subst AllSound (sym e) (AllSound-gc_expired_key c.gc_time org f h)

  AllSound-store_response :
      (c : Call) (org : String) (input : IdentityConfig) (allowed : List String) (o : Option ℕ)
      (st : OrgState) (f : Identities)
      → checked t input ≡ some allowed
      → KeysSound t st
      → AllSound f
      → AllSound (store_response t c org input allowed o st f).0
  unfolding store_response identity_response
  AllSound-store_response c org input allowed o st f e k h =
      Each-put (Sound t) org _ _
        (record {
          keys_sound = KeysSound-cfg t st _ k;
          configured = record {
            resp = identity_response t c.now org input allowed o st;
            cfg = _;
            stored = refl;
            config = refl;
            issuer = (checked_lem t input allowed e).0;
            audience = (checked_lem t input allowed e).1;
            ttl = (checked_lem t input allowed e).2;
          };
        })
        h

  AllSound-configure :
      (c : Call) (org : String) (input : IdentityConfig) (allowed : List String) (f : Identities)
      → Generates c
      → checked t input ≡ some allowed
      → AllSound f
      → AllSound (configure t c org input allowed f).0
  unfolding configure configure_new configure_again
  AllSound-configure c org input allowed f (km, g) e h =
      let made = generate_key_material-Genuine t c km g in
      elim (Option-cases (get org f.identity_state)) [
        | inl n ↦
            rw (n, g, configure, configure_new)
              (AllSound-store_response c org input allowed _ _ f e
                (KeysSound-first_keys t km blank_state made) h)
        | inr (st, n) ↦
            let keys_sound = (h.at org st n).keys_sound in
            elim (Bool-cases input.rotate_key) [
              | inl r ↦
                  rw (n, r, g, configure, configure_again)
                    (AllSound-store_response c org input allowed _ _ f e
                      (KeysSound-rotate t km _ st made keys_sound) h)
              | inr r ↦
                  rw (n, r, configure, configure_again)
                    (AllSound-store_response c org input allowed _ st f e keys_sound h)
            ]
      ]

  pub AllSound-identity_step :
      (c : Call) (q : IdentityRequest) (f : Identities)
      → Generates c
      → AllSound f
      → AllSound (identity_step t c q f)
  unfolding identity_step
  AllSound-identity_step c (set_configuration q) f g h =
      elim (set_configuration-Configures t c q f) [
        | inl e ↦ subst AllSound (sym e) h
        | inr (org, input, allowed, r, e) ↦ subst AllSound (sym e) (
            AllSound-configure c org input allowed _ g r
              (AllSound-gc_expired_key c.gc_time org f h))
      ]
  AllSound-identity_step c (get_configuration q) f g h =
      AllSound-Collects c f _ h (get_configuration-Collects t c q f)
  AllSound-identity_step c (delete_configuration q) f g h =
      elim (delete_configuration-cases t q f) [
        | inl e ↦ subst AllSound (sym e) h
        | inr (org, e) ↦ subst AllSound (sym e) (Each-delete (Sound t) org _ h)
      ]
  AllSound-identity_step c (set_delegation q) f g h = elim (set_token_delegation-cases t c q f) [
    | inl e ↦ subst AllSound (sym e) h
    | inr (org, td, k, e) ↦ subst AllSound (sym e) h
  ]
  AllSound-identity_step c (get_delegation q) f g h = h
  AllSound-identity_step c (delete_delegation q) f g h =
      elim (delete_token_delegation-cases t q f) [
        | inl e ↦ subst AllSound (sym e) h
        | inr (org, e) ↦ subst AllSound (sym e) h
      ]
  AllSound-identity_step c (jwks_of_org q) f g h =
      AllSound-Collects c f _ h (get_jwks-Collects t c q f)
  AllSound-identity_step c (open_id_of_org q) f g h =
      AllSound-Collects c f _ h (get_open_id-Collects t c q f)
  AllSound-identity_step c (sign q) f g h = h

  -- The calls of a run generate a key where they need one.
  abbrev pub EachGenerates : List (Call × IdentityRequest) → Type 0
  EachGenerates [] = Unit
  EachGenerates ((c, q) ∷ calls) = Generates c × EachGenerates calls

  -- Every organization that a run of the methods of tenant identity leaves is sound: its current
  -- slot is 1 or 2, that slot holds a key pair whose id is the digest of its public key, the other
  -- slot holds such a key exactly where a time of expiry is set, and its configuration has passed
  -- the checks of SetTenantIdentityConfiguration. This is so where it holds before the run and no
  -- call of the run fails to generate a key.
  pub AllSound-identity_run :
      (calls : List (Call × IdentityRequest)) (f : Identities)
      → EachGenerates calls
      → AllSound f
      → AllSound (identity_run t calls f)
  unfolding identity_run
  AllSound-identity_run [] f g h = h
  AllSound-identity_run ((c, q) ∷ calls) f g h =
      AllSound-identity_run calls _ g.1 (AllSound-identity_step c q f g.0 h)
