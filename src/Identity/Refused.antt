-- ===== src/Identity/Refused.antt =====
-- What the methods of tenant identity in internal/server/forge_server.go leave behind when they
-- refuse a call.
use nico_core_mock.GoMap.{get}
use nico_core_mock.GoMap.Laws.{get-put}
use nico_core_mock.Identity.{Identities, gc_expired_key}
use nico_core_mock.Identity.Calls.{
  IdentityRequest, delete_configuration, delete_delegation, get_configuration, get_delegation,
  identity_ending, identity_step, jwks_of_org, named_org, open_id_of_org, set_configuration,
  set_delegation, sign,
}
use nico_core_mock.Identity.Config.{
  checked, configure, configure_again, configure_new, delete_tenant_identity_configuration,
  get_tenant_identity_configuration, set_tenant_identity_configuration, store_response,
}
use nico_core_mock.Identity.Crypto.{Call, Tools, generate_key_material}
use nico_core_mock.Identity.Delegate.{
  delegate, delete_token_delegation, set_token_delegation, store_delegation,
}
use nico_core_mock.Identity.Publish.{get_jwks, get_open_id_configuration}
use nico_core_mock.Identity.Slots.{blank_state, clear_inactive_slot, gc_expired}
use nico_core_mock.Message.Identity.{
  DelegationRequest, IdentityConfig, JwksRequest, SetIdentityRequest,
}
use nico_core_mock.Prelude.{
  Bool-cases, List, Option, Option-cases, String, arith, empty_text, eq_iff, inl, inr, none, refl,
  some, ℕ, ◌∙◌, ◌≡◌, ◌≢◌, ◌⊎◌,
}
use nico_core_mock.Reply.{Code, ending, internal, refused}

-- At most the expired key of the organization is collected.
abbrev pub Collected : Call → String → Identities → Identities → Type 0
Collected c org f g = (g ≡ f) ⊎ (g ≡ gc_expired_key c.gc_time org f)

gc_expired_key-others :
    (now : ℕ) (org k : String) (f : Identities)
    → org ≢ k
    → get k (gc_expired_key now org f).identity_state ≡ get k f.identity_state
unfolding gc_expired_key
gc_expired_key-others now org k f ne = elim (Option-cases (get org f.identity_state)) [
  | inl n ↦ ground (arith, n)
  | inr (st, n) ↦
      ground (arith, n, get-put org k (gc_expired now st) f.identity_state, eq_iff org k, ne)
]

gc_expired_key-delegations :
    (now : ℕ) (org : String) (f : Identities)
    → (gc_expired_key now org f).token_delegations ≡ f.token_delegations
unfolding gc_expired_key
gc_expired_key-delegations now org f = elim (Option-cases (get org f.identity_state)) [
  | inl n ↦ ground (arith, n)
  | inr (st, n) ↦ ground (arith, n)
]

-- The methods that read an organization collect its expired key, whatever they answer.
get_configuration-Collected :
    (c : Call) (org : String) (f : Identities)
    → Collected c org f (get_tenant_identity_configuration c (some org) f).0
unfolding get_tenant_identity_configuration
get_configuration-Collected c org f = elim (Bool-cases (empty_text org)) [
  | inl e ↦ inl (ground (arith, e))
  | inr e ↦ inr (ground (arith, e))
]

get_jwks-Collected :
    (t : Tools) (c : Call) (req : JwksRequest) (f : Identities)
    → Collected c req.organization_id f (get_jwks t c (some req) f).0
unfolding get_jwks
get_jwks-Collected t c req f = elim (Bool-cases (empty_text req.organization_id)) [
  | inl e ↦ inl (ground (arith, e))
  | inr e ↦ inr (ground (arith, e))
]

get_open_id-Collected :
    (t : Tools) (c : Call) (org : String) (f : Identities)
    → Collected c org f (get_open_id_configuration t c (some org) f).0
unfolding get_open_id_configuration
get_open_id-Collected t c org f = elim (Bool-cases (empty_text org)) [
  | inl e ↦ inl (ground (arith, e))
  | inr e ↦ inr (ground (arith, e))
]

-- A refused deletion deletes nothing.
delete_configuration-refused :
    (q : Option String) (code : Code) (f : Identities)
    → ending (delete_tenant_identity_configuration q f).1 ≡ refused code
    → (delete_tenant_identity_configuration q f).0 ≡ f
unfolding delete_tenant_identity_configuration
delete_configuration-refused none code f h = refl
delete_configuration-refused (some org) code f h = ground (arith, h)

delete_delegation-refused :
    (q : Option String) (code : Code) (f : Identities)
    → ending (delete_token_delegation q f).1 ≡ refused code
    → (delete_token_delegation q f).0 ≡ f
unfolding delete_token_delegation
delete_delegation-refused none code f h = refl
delete_delegation-refused (some org) code f h = ground (arith, h)

module _ (t : Tools) where
  -- The generation of a key has failed, and no more than one organization's identity has changed.
  abbrev pub HalfSet : Call → String → Code → Identities → Identities → Type 0
  HalfSet c org code f g =
      (generate_key_material t c ≡ none)
      × (code ≡ internal)
      × (g.token_delegations ≡ f.token_delegations)
      × ((k : String) → org ≢ k → get k g.identity_state ≡ get k f.identity_state)

  configure-refused :
      (c : Call) (org : String) (input : IdentityConfig) (allowed : List String) (code : Code)
      (f : Identities)
      → ending (configure t c org input allowed f).1 ≡ refused code
      → HalfSet c org code f (configure t c org input allowed f).0
  unfolding configure configure_new configure_again store_response
  configure-refused c org input allowed code f h = elim (Option-cases (generate_key_material t c)) [
    | inr (km, m) ↦ absurd (ground (arith, m, h))
    | inl m ↦ elim (Option-cases (get org f.identity_state)) [
      | inl n ↦ (
        m,
        ground (arith, m, n, h),
        ground (arith, m, n, h),
        λ k ne. ground (arith, m, n, h, get-put org k blank_state f.identity_state, eq_iff org k),
      )
      | inr (st, n) ↦ (
        m,
        ground (arith, m, n, h),
        ground (arith, m, n, h),
        λ k ne.
            ground (
              arith,
              m,
              n,
              h,
              get-put org k (clear_inactive_slot st) f.identity_state,
              eq_iff org k,
            ),
      )
    ]
  ]

  set_configuration-refused :
      (c : Call) (req : SetIdentityRequest) (code : Code) (f : Identities)
      → ending (set_tenant_identity_configuration t c (some req) f).1 ≡ refused code
      → Collected c req.organization_id f (set_tenant_identity_configuration t c (some req) f).0
        ⊎ HalfSet c req.organization_id code f
            (set_tenant_identity_configuration t c (some req) f).0
  unfolding set_tenant_identity_configuration
  set_configuration-refused c req code f h =
      let org = req.organization_id in
      let g = gc_expired_key c.gc_time org f in
      elim (Bool-cases (empty_text org)) [
        | inl e ↦ inl (inl (ground (arith, e)))
        | inr e ↦ elim (Option-cases req.config) [
          | inl n ↦ inl (inl (ground (arith, e, n)))
          | inr (input, n) ↦ elim (Option-cases (checked t input)) [
            | inl k ↦ inl (inl (ground (arith, e, n, k)))
            | inr (allowed, k) ↦
                let (failed, is_internal, same, others) =
                  configure-refused c org input allowed code g (ground (arith, e, n, k, h)) in
                inr (
                  rw (e, n, k, set_tenant_identity_configuration)
                    (
                      failed,
                      is_internal,
                      same ∙ gc_expired_key-delegations c.gc_time org f,
                      λ j ne. others j ne ∙ gc_expired_key-others c.gc_time org j f ne,
                    ))
          ]
        ]
      ]

  set_delegation-refused :
      (c : Call) (q : Option DelegationRequest) (code : Code) (f : Identities)
      → ending (set_token_delegation t c q f).1 ≡ refused code
      → (set_token_delegation t c q f).0 ≡ f
  unfolding set_token_delegation delegate store_delegation
  set_delegation-refused c none code f h = refl
  set_delegation-refused c (some req) code f h = ground (arith, h)

  -- A call of a method of tenant identity that ends with a gRPC status error leaves both maps as they
  -- were, but that the expired key of the organization that it names may be collected. There is one
  -- exception: a configuration that is set while the generation of a key fails ends with Internal and
  -- may leave the identity of that organization changed, but no other and no token delegation.
  pub identity_step-refused :
      (c : Call) (q : IdentityRequest) (f : Identities) (code : Code)
      → identity_ending t c q f ≡ refused code
      → Collected c (named_org q) f (identity_step t c q f)
        ⊎ ((req : SetIdentityRequest) × (q ≡ set_configuration (some req))
            × HalfSet c (named_org q) code f (identity_step t c q f))
  unfolding identity_step identity_ending
  identity_step-refused c (set_configuration none) f code h = inl (inl refl)
  identity_step-refused c (set_configuration (some req)) f code h =
      elim (set_configuration-refused c req code f h) [
        | inl kept ↦ inl kept
        | inr half ↦ inr (req, refl, half)
      ]
  identity_step-refused c (get_configuration none) f code h = inl (inl refl)
  identity_step-refused c (get_configuration (some org)) f code h =
      inl (get_configuration-Collected c org f)
  identity_step-refused c (delete_configuration q) f code h =
      inl (inl (delete_configuration-refused q code f h))
  identity_step-refused c (set_delegation q) f code h =
      inl (inl (set_delegation-refused c q code f h))
  identity_step-refused c (get_delegation q) f code h = inl (inl refl)
  identity_step-refused c (delete_delegation q) f code h =
      inl (inl (delete_delegation-refused q code f h))
  identity_step-refused c (jwks_of_org none) f code h = inl (inl refl)
  identity_step-refused c (jwks_of_org (some req)) f code h = inl (get_jwks-Collected t c req f)
  identity_step-refused c (open_id_of_org none) f code h = inl (inl refl)
  identity_step-refused c (open_id_of_org (some org)) f code h =
      inl (get_open_id-Collected t c org f)
  identity_step-refused c (sign q) f code h = inl (inl refl)
