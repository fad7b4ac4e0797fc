-- ===== src/Identity/Published/Overlap.antt =====
-- Tokens and the rotation of signing keys in internal/server/forge_server.go.
use mathlib.Core.List.{Memᴰ}
use nico_core_mock.GoMap.{get, put}
use nico_core_mock.GoMap.Laws.{get-put_same}
use nico_core_mock.Identity.{Identities, gc_expired_key}
use nico_core_mock.Identity.Config.{
  checked, configure, configure_again, identity_response, seconds,
  set_tenant_identity_configuration, store_response,
}
use nico_core_mock.Identity.Crypto.{
  Call, Jwk, KeyMaterial, PrivateKey, Tools, generate_key_material, jwk_of, sign_es256_jwt,
}
use nico_core_mock.Identity.Publish.{get_jwks}
use nico_core_mock.Identity.Published.{document_reply, get_jwks-unexpired, unexpired_keys}
use nico_core_mock.Identity.Sign.{claims_of, resolve_signing_org, sign_machine_identity, token_ttl}
use nico_core_mock.Identity.Signed.{asked_for, sign_machine_identity-Answers}
use nico_core_mock.Identity.Slots.{OrgState, active_key, gc_expired, inactive_key, rotate}
use nico_core_mock.Identity.Slots.Laws.{gc_expired-cases, gc_expired_lem, rotate_lem}
use nico_core_mock.Identity.Sound.{Genuine, KeysSound, Sound}
use nico_core_mock.Identity.Sound.Runs.{Generates}
use nico_core_mock.Identity.Sound.Steps.{
  KeysSound-cfg, KeysSound-clear_inactive_slot, KeysSound-rotate, generate_key_material-Genuine,
}
use nico_core_mock.Message.Identity.{IdentityConfig, MachineIdentityResponse}
use nico_core_mock.Reply.{ok}
use nico_core_mock.Prelude.{
  Bool, List, Option, String, [], arith, empty_text, false, if◌then◌else◌, inl, inr, ltb, none,
  refl, some, subst, sym, true, ℕ, ◌*◌, ◌+◌, ◌/◌, ◌<◌, ◌∙◌, ◌∷◌, ◌≡◌, ◌≤◌,
}

in_overlap_lt :
    (signed turned now ttl overlap : ℕ)
    → signed ≤ turned
    → ttl ≤ overlap
    → now < (signed / 1000000000 + ttl) * 1000000000
    → now < turned + overlap * 1000000000
in_overlap_lt signed turned now ttl overlap a b c = omega arith

-- The expiry of a token, in whole seconds, is within the overlap.
in_overlap :
    (signed turned now ttl overlap : ℕ)
    → signed ≤ turned
    → ttl ≤ overlap
    → now < (signed / 1000000000 + ttl) * 1000000000
    → ltb now (turned + overlap * 1000000000) ≡ true
in_overlap signed turned now ttl overlap a b c =
    ground (arith, in_overlap_lt signed turned now ttl overlap a b c)

module _ (t : Tools) where
  -- The state that a rotation stores.
  rotated : Call → String → IdentityConfig → List String → KeyMaterial → OrgState → OrgState
  rotated c org input allowed km st =
      let created : Option ℕ = elim st.cfg [ none ↦ none | some resp ↦ resp.created_at ] in
      let turned = rotate km (c.now + seconds input.signing_key_overlap_sec) st in
      record turned { cfg = some (identity_response t c.now org input allowed created turned) }

  configure-rotated :
      (c : Call) (org : String) (input : IdentityConfig) (allowed : List String) (km : KeyMaterial)
      (f : Identities) (st : OrgState)
      → get org f.identity_state ≡ some st
      → input.rotate_key ≡ true
      → generate_key_material t c ≡ some km
      → (configure t c org input allowed f).0
        ≡ record f { identity_state = put org (rotated c org input allowed km st) f.identity_state }
  unfolding configure configure_again store_response rotated
  configure-rotated c org input allowed km f st g r m = ground (arith, g, r, m)

  gc_expired_key-stored :
      (now : ℕ) (org : String) (f : Identities) (st : OrgState)
      → get org f.identity_state ≡ some st
      → get org (gc_expired_key now org f).identity_state ≡ some (gc_expired now st)
  unfolding gc_expired_key
  gc_expired_key-stored now org f st g =
      rw (g, gc_expired_key) (get-put_same org (gc_expired now st) f.identity_state)

  set_configuration-rotated :
      (c : Call) (org : String) (input : IdentityConfig) (allowed : List String) (km : KeyMaterial)
      (f : Identities) (st : OrgState)
      → empty_text org ≡ false
      → get org f.identity_state ≡ some st
      → checked t input ≡ some allowed
      → input.rotate_key ≡ true
      → generate_key_material t c ≡ some km
      → get org
          (set_tenant_identity_configuration t c
            (some (record { organization_id = org; config = some input }))
            f).0.identity_state
        ≡ some (rotated c org input allowed km (gc_expired c.gc_time st))
  unfolding set_tenant_identity_configuration
  set_configuration-rotated c org input allowed km f st e g k r m =
      let g1 = gc_expired_key c.gc_time org f in
      let kept = gc_expired c.gc_time st in
      let stored = gc_expired_key-stored c.gc_time org f st g in
      rw
        (
          e,
          k,
          set_tenant_identity_configuration,
          configure-rotated c org input allowed km g1 kept stored r m,
        )
        (get-put_same org (rotated c org input allowed km kept) g1.identity_state)

  rotated-unexpired :
      (now : ℕ) (c : Call) (org : String) (input : IdentityConfig) (allowed : List String)
      (km old : KeyMaterial) (st : OrgState)
      → active_key st ≡ some old
      → ltb now (c.now + seconds input.signing_key_overlap_sec) ≡ true
      → unexpired_keys now (rotated c org input allowed km st) ≡ km ∷ old ∷ []
  unfolding unexpired_keys rotated active_key inactive_key
  rotated-unexpired now c org input allowed km old st a b =
      let shows = rotate_lem km (c.now + seconds input.signing_key_overlap_sec) st in
      ground (arith, shows, a, b)

  KeysSound-rotated :
      (c : Call) (org : String) (input : IdentityConfig) (allowed : List String) (km : KeyMaterial)
      (st : OrgState)
      → Genuine t km
      → KeysSound t st
      → KeysSound t (rotated c org input allowed km st)
  unfolding rotated
  KeysSound-rotated c org input allowed km st g h =
      KeysSound-cfg t _ _ (KeysSound-rotate t km _ st g h)

  KeysSound-gc_expired :
      (now : ℕ) (st : OrgState) → KeysSound t st → KeysSound t (gc_expired now st)
  KeysSound-gc_expired now st h = elim (gc_expired-cases now st) [
    | inl e ↦ subst (KeysSound t) (sym e) h
    | inr e ↦ subst (KeysSound t) (sym e) (KeysSound-clear_inactive_slot t st h)
  ]

  -- The token that SignMachineIdentity has returned to a request.
  signed_token :
      (s : Call) (audience : List String) (f : Identities) (org : String) (st : OrgState)
      (resp : MachineIdentityResponse)
      → resolve_signing_org f ≡ org
      → empty_text org ≡ false
      → get org f.identity_state ≡ some st
      → (h : Sound t st) → sign_machine_identity t s (some audience) f ≡ ok resp
      → sign_es256_jwt t s h.keys_sound.key.private_key h.keys_sound.key.kid
          (claims_of s h.configured.cfg (asked_for h.configured.cfg audience))
        ≡ ok resp.access_token
  signed_token s audience f org st resp one e g h returned =
      elim (sign_machine_identity-Answers t s audience f org st one e g h) [
        | inl (a, asked, barred, reply) ↦ absurd (ground (arith, reply, returned))
        | inr (inl (all, failed, reply)) ↦ absurd (ground (arith, reply, returned))
        | inr (inr (all, (token, signed, reply))) ↦ ground (arith, signed, reply, returned)
      ]

  -- A token that SignMachineIdentity returns can be checked until it expires, also when the next
  -- call that changes the identities rotates the signing key: the token is signed, for the audiences
  -- asked for or the default one, with a key whose entry is in the document that GetJWKS then answers
  -- with, and its reply is an error only where that document cannot be marshalled. This is so for the
  -- one organization that has an identity, where it is sound, where the rotation succeeds in its
  -- checks and in making a key, is not before the signing, and has an overlap of at least the
  -- lifetime of the token.
  pub set_configuration-get_jwks :
      (s w r : Call) (org : String) (input : IdentityConfig) (allowed audience : List String)
      (overlap : ℕ) (spiffe : Bool) (f : Identities) (st : OrgState)
      (resp : MachineIdentityResponse)
      → resolve_signing_org f ≡ org
      → empty_text org ≡ false
      → get org f.identity_state ≡ some st
      → (h : Sound t st) → sign_machine_identity t s (some audience) f ≡ ok resp
      → checked t input ≡ some allowed
      → input.rotate_key ≡ true
      → input.signing_key_overlap_sec ≡ some overlap
      → Generates t w
      → s.now ≤ w.now
      → token_ttl h.configured.cfg ≤ overlap
      → r.gc_time
        < (claims_of s h.configured.cfg (asked_for h.configured.cfg audience)).exp * 1000000000
      → (js : List Jwk) × (km : KeyMaterial) × (priv : PrivateKey) × (km.private_key ≡ some priv)
        × (sign_es256_jwt t s km.private_key km.kid
              (claims_of s h.configured.cfg (asked_for h.configured.cfg audience))
            ≡ ok resp.access_token)
        × ((get_jwks t r
              (some (record { organization_id = org; spiffe = spiffe }))
              (set_tenant_identity_configuration t w
                (some (record { organization_id = org; config = some input }))
                f).0).1
            ≡ document_reply t (t.marshal_jwks js))
        × Memᴰ (jwk_of t (if spiffe then "jwt-svid" else "sig") km priv) js
  unfolding claims_of
  set_configuration-get_jwks s w r org input allowed audience overlap spiffe f st resp one e g h
        returned k turn o (km, made) later ttl live =
      let keys = h.keys_sound in
      let kept = gc_expired w.gc_time st in
      let stored = rotated w org input allowed km kept in
      let sound =
        KeysSound-rotated w org input allowed km kept (generate_key_material-Genuine t w km made)
          (KeysSound-gc_expired w.gc_time st keys) in
      let active = (gc_expired_lem w.gc_time st).0 ∙ keys.active in
      let before : ltb r.gc_time (w.now + seconds input.signing_key_overlap_sec) ≡ true =
        rw (o, seconds)
          (in_overlap s.now w.now r.gc_time (token_ttl h.configured.cfg) overlap later ttl live) in
      let (js, reply, shown) =
        get_jwks-unexpired t r org spiffe _ stored e
          (set_configuration-rotated w org input allowed km f st e g k turn made) sound in
      let old =
        subst (Memᴰ keys.key)
          (sym (rotated-unexpired r.gc_time w org input allowed km keys.key kept active before))
          (Memᴰ.tail (Memᴰ.head refl)) in
      let (priv, p, entry) = shown.1 keys.key old in
      (
        js,
        keys.key,
        priv,
        p,
        signed_token s audience f org st resp one e g h returned,
        reply,
        entry,
      )
