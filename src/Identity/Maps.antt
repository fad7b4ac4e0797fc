-- ===== src/Identity/Maps.antt =====
-- Which change each handler of tenant identity in internal/server/forge_server.go makes to the maps.
use nico_core_mock.GoMap.{delete, get, has, put}
use nico_core_mock.Identity.{Identities, gc_expired_key}
use nico_core_mock.Identity.Config.{
  blank, checked, configure, configure_again, configure_new, delete_tenant_identity_configuration,
  get_tenant_identity_configuration, set_tenant_identity_configuration, store_response,
}
use nico_core_mock.Identity.Crypto.{Call, Tools, generate_key_material}
use nico_core_mock.Identity.Delegate.{
  auth_method, delegate, delete_token_delegation, set_token_delegation, store_delegation,
}
use nico_core_mock.Identity.Publish.{get_jwks, get_open_id_configuration}
use nico_core_mock.Identity.Slots.{OrgState}
use nico_core_mock.Message.Identity.{
  ClientSecretHash, Delegation, DelegationRequest, DelegationResponse, IdentityConfig, JwksRequest,
  SetIdentityRequest,
}
use nico_core_mock.Prelude.{
  Bool-cases, List, Option, Option-cases, String, arith, empty_text, inl, inr, none, refl, some,
  subst, sym, true, ◌||◌, ◌≡◌, ◌⊎◌,
}

module _ (t : Tools) where
  -- A handler that reads changes nothing or collects an expired key.
  abbrev pub Collects : Call → Identities → Identities → Type 0
  Collects c f g = (g ≡ f) ⊎ ((org : String) × (g ≡ gc_expired_key c.gc_time org f))

  pub get_configuration-Collects :
      (c : Call) (q : Option String) (f : Identities)
      → Collects c f (get_tenant_identity_configuration c q f).0
  unfolding get_tenant_identity_configuration
  get_configuration-Collects c none f = inl refl
  get_configuration-Collects c (some org) f = elim (Bool-cases (empty_text org)) [
    | inl e ↦ inl (ground (arith, e))
    | inr e ↦ inr (org, ground (arith, e))
  ]

  pub get_jwks-Collects :
      (c : Call) (q : Option JwksRequest) (f : Identities) → Collects c f (get_jwks t c q f).0
  unfolding get_jwks
  get_jwks-Collects c none f = inl refl
  get_jwks-Collects c (some q) f = elim (Bool-cases (empty_text q.organization_id)) [
    | inl e ↦ inl (ground (arith, e))
    | inr e ↦ inr (q.organization_id, ground (arith, e))
  ]

  pub get_open_id-Collects :
      (c : Call) (q : Option String) (f : Identities)
      → Collects c f (get_open_id_configuration t c q f).0
  unfolding get_open_id_configuration
  get_open_id-Collects c none f = inl refl
  get_open_id-Collects c (some org) f = elim (Bool-cases (empty_text org)) [
    | inl e ↦ inl (ground (arith, e))
    | inr e ↦ inr (org, ground (arith, e))
  ]

  -- A Set that is refused changes nothing; otherwise its configuration has passed the checks.
  abbrev pub Configures : Call → Identities → Identities → Type 0
  Configures c f g =
      (org : String) × (input : IdentityConfig) × (allowed : List String) × (checked t input
        ≡ some allowed)
      × (g ≡ (configure t c org input allowed (gc_expired_key c.gc_time org f)).0)

  pub set_configuration-Configures :
      (c : Call) (q : Option SetIdentityRequest) (f : Identities)
      → ((set_tenant_identity_configuration t c q f).0 ≡ f)
        ⊎ Configures c f (set_tenant_identity_configuration t c q f).0
  unfolding set_tenant_identity_configuration
  set_configuration-Configures c none f = inl refl
  set_configuration-Configures c (some q) f = elim (Bool-cases (empty_text q.organization_id)) [
    | inl e ↦ inl (ground (arith, e))
    | inr e ↦ elim (Option-cases q.config) [
      | inl n ↦ inl (ground (arith, e, n))
      | inr (input, n) ↦ elim (Option-cases (checked t input)) [
        | inl r ↦ inl (ground (arith, e, n, r))
        | inr (allowed, r) ↦ inr (q.organization_id, input, allowed, r, ground (arith, e, n, r))
      ]
    ]
  ]

  -- Whether the identities change, and how, at the handlers of token delegation and at a Delete.
  pub delete_configuration-cases :
      (q : Option String) (f : Identities)
      → ((delete_tenant_identity_configuration q f).0 ≡ f)
        ⊎ ((org : String) × ((delete_tenant_identity_configuration q f).0 ≡ record {
          identity_state = delete org f.identity_state;
          token_delegations = delete org f.token_delegations;
        }))
  unfolding delete_tenant_identity_configuration
  delete_configuration-cases none f = inl refl
  delete_configuration-cases (some org) f = elim (Bool-cases (empty_text org)) [
    | inl e ↦ inl (ground (arith, e))
    | inr e ↦ elim (Bool-cases (has org f.identity_state)) [
      | inl h ↦ inr (org, ground (arith, e, h))
      | inr h ↦ inl (ground (arith, e, h))
    ]
  ]

  abbrev pub Delegates : Identities → Identities → Type 0
  Delegates f g =
      (org : String) × (td : DelegationResponse) × (has org f.identity_state ≡ true)
      × (g ≡ record f { token_delegations = put org td f.token_delegations })

  store_delegation-Delegates :
      (c : Call) (org : String) (input : Delegation) (auth : Option ClientSecretHash)
      (f : Identities)
      → has org f.identity_state ≡ true
      → Delegates f (store_delegation t c org input auth f).0
  unfolding store_delegation
  store_delegation-Delegates c org input auth f h = (org, _, h, refl)

  delegate-cases :
      (c : Call) (org : String) (input : Delegation) (f : Identities)
      → ((delegate t c org input f).0 ≡ f) ⊎ Delegates f (delegate t c org input f).0
  unfolding delegate
  delegate-cases c org input f =
      elim (Bool-cases (blank t input.token_endpoint || blank t input.subject_token_audience)) [
        | inl b ↦ inl (ground (arith, b))
        | inr b ↦ elim (Option-cases (auth_method t input.client_secret_basic)) [
          | inl a ↦ inl (ground (arith, b, a))
          | inr (auth, a) ↦ elim (Bool-cases (has org f.identity_state)) [
            | inl h ↦ inr (
                subst (Delegates f)
                  (sym (
                    let same : (delegate t c org input f).0
                        ≡ (store_delegation t c org input auth f).0 =
                      ground (arith, b, a, h) in
                    same))
                  (store_delegation-Delegates c org input auth f h))
            | inr h ↦ inl (ground (arith, b, a, h))
          ]
        ]
      ]

  pub set_token_delegation-cases :
      (c : Call) (q : Option DelegationRequest) (f : Identities)
      → ((set_token_delegation t c q f).0 ≡ f) ⊎ Delegates f (set_token_delegation t c q f).0
  unfolding set_token_delegation
  set_token_delegation-cases c none f = inl refl
  set_token_delegation-cases c (some q) f = elim (Bool-cases (empty_text q.organization_id)) [
    | inl e ↦ inl (ground (arith, e))
    | inr e ↦ elim (Option-cases q.config) [
      | inl n ↦ inl (ground (arith, e, n))
      | inr (input, n) ↦
          rw (e, n, set_token_delegation) (delegate-cases c q.organization_id input f)
    ]
  ]

  pub delete_token_delegation-cases :
      (q : Option String) (f : Identities)
      → ((delete_token_delegation q f).0 ≡ f)
        ⊎ ((org : String) × ((delete_token_delegation q f).0
              ≡ record f { token_delegations = delete org f.token_delegations }))
  unfolding delete_token_delegation
  delete_token_delegation-cases none f = inl refl
  delete_token_delegation-cases (some org) f = elim (Bool-cases (empty_text org)) [
    | inl e ↦ inl (ground (arith, e))
    | inr e ↦ inr (org, ground (arith, e))
  ]

  -- What a Set with a passing configuration writes: the state of its organization.
  pub configure-put :
      (c : Call) (org : String) (input : IdentityConfig) (allowed : List String) (f : Identities)
      → (st : OrgState) × ((configure t c org input allowed f).0
          ≡ record f { identity_state = put org st f.identity_state })
  unfolding configure configure_new configure_again store_response
  configure-put c org input allowed f =
      let generated = Option-cases (generate_key_material t c) in
      elim (Option-cases (get org f.identity_state)) [
        | inl n ↦ elim generated [
          | inl g ↦ rw (n, g, configure, configure_new) (_, refl)
          | inr (km, g) ↦ rw (n, g, configure, configure_new, store_response) (_, refl)
        ]
        | inr (st, n) ↦ elim (Bool-cases input.rotate_key) [
          | inl r ↦ elim generated [
            | inl g ↦ rw (n, r, g, configure, configure_again) (_, refl)
            | inr (km, g) ↦ rw (n, r, g, configure, configure_again, store_response) (_, refl)
          ]
          | inr r ↦ rw (n, r, configure, configure_again, store_response) (_, refl)
        ]
      ]
