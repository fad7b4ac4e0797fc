-- ===== src/Identity/Sound/Known.antt =====
-- Token delegations and identities, and the requests of tenant identity in
-- internal/server/forge_server.go.
use nico_core_mock.GoMap.{get, has, put}
use nico_core_mock.GoMap.Laws.{get-delete, get-put}
use nico_core_mock.Identity.{Identities, gc_expired_key}
use nico_core_mock.Identity.Calls.{
  IdentityRequest, delete_configuration, delete_delegation, get_configuration, get_delegation,
  identity_run, identity_step, jwks_of_org, open_id_of_org, set_configuration, set_delegation, sign,
}
use nico_core_mock.Identity.Crypto.{Call, Tools}
use nico_core_mock.Identity.Maps.{
  Collects, configure-put, delete_configuration-cases, delete_token_delegation-cases,
  get_configuration-Collects, get_jwks-Collects, get_open_id-Collects, set_configuration-Configures,
  set_token_delegation-cases,
}
use nico_core_mock.Identity.Slots.{OrgState, gc_expired}
use nico_core_mock.Prelude.{
  List, Option-cases, String, [], arith, eq_iff, inl, inr, subst, sym, true, ℕ, ◌∙◌, ◌∷◌, ◌≡◌,
}

-- Each organization with a token delegation has an identity.
pub record DelegationsKnown (f : Identities) : Type 0 where
  pub known : (org : String) → has org f.token_delegations ≡ true → has org f.identity_state ≡ true

module _ (t : Tools) where
  DelegationsKnown-put :
      (org : String) (st : OrgState) (f : Identities)
      → DelegationsKnown f
      → DelegationsKnown (record f { identity_state = put org st f.identity_state })
  DelegationsKnown-put org st f h = record {
    known = λ k d. ground (arith, get-put org k st f.identity_state, h.known k);
  }

  DelegationsKnown-gc_expired_key :
      (now : ℕ) (org : String) (f : Identities)
      → DelegationsKnown f
      → DelegationsKnown (gc_expired_key now org f)
  unfolding gc_expired_key
  DelegationsKnown-gc_expired_key now org f h = elim (Option-cases (get org f.identity_state)) [
    | inl e ↦ rw (e, gc_expired_key) h
    | inr (st, e) ↦ rw (e, gc_expired_key) (DelegationsKnown-put org (gc_expired now st) f h)
  ]

  DelegationsKnown-Collects :
      (c : Call) (f g : Identities) → DelegationsKnown f → Collects t c f g → DelegationsKnown g
  DelegationsKnown-Collects c f g h (inl e) = subst DelegationsKnown (sym e) h
  DelegationsKnown-Collects c f g h (inr (org, e)) =
      subst DelegationsKnown (sym e) (DelegationsKnown-gc_expired_key c.gc_time org f h)

  pub DelegationsKnown-identity_step :
      (c : Call) (q : IdentityRequest) (f : Identities)
      → DelegationsKnown f
      → DelegationsKnown (identity_step t c q f)
  unfolding identity_step
  DelegationsKnown-identity_step c (set_configuration q) f h =
      elim (set_configuration-Configures t c q f) [
        | inl e ↦ subst DelegationsKnown (sym e) h
        | inr (org, input, allowed, r, e) ↦
            let g = gc_expired_key c.gc_time org f in
            let (st, p) = configure-put t c org input allowed g in
            subst DelegationsKnown (sym (e ∙ p))
              (DelegationsKnown-put org st g (DelegationsKnown-gc_expired_key c.gc_time org f h))
      ]
  DelegationsKnown-identity_step c (get_configuration q) f h =
      DelegationsKnown-Collects c f _ h (get_configuration-Collects t c q f)
  DelegationsKnown-identity_step c (delete_configuration q) f h =
      elim (delete_configuration-cases t q f) [
        | inl e ↦ subst DelegationsKnown (sym e) h
        | inr (org, e) ↦ subst DelegationsKnown (sym e) (record {
          known = λ k d. ground (
            arith,
            get-delete org k f.identity_state,
            get-delete org k f.token_delegations,
            h.known k,
          );
        })
      ]
  DelegationsKnown-identity_step c (set_delegation q) f h =
      elim (set_token_delegation-cases t c q f) [
        | inl e ↦ subst DelegationsKnown (sym e) h
        | inr (org, td, k, e) ↦ subst DelegationsKnown (sym e) (record {
          known =
              λ j d. ground (arith, get-put org j td f.token_delegations, h.known j, eq_iff org j);
        })
      ]
  DelegationsKnown-identity_step c (get_delegation q) f h = h
  DelegationsKnown-identity_step c (delete_delegation q) f h =
      elim (delete_token_delegation-cases t q f) [
        | inl e ↦ subst DelegationsKnown (sym e) h
        | inr (org, e) ↦ subst DelegationsKnown (sym e) (record {
          known = λ j d. ground (arith, get-delete org j f.token_delegations, h.known j);
        })
      ]
  DelegationsKnown-identity_step c (jwks_of_org q) f h =
      DelegationsKnown-Collects c f _ h (get_jwks-Collects t c q f)
  DelegationsKnown-identity_step c (open_id_of_org q) f h =
      DelegationsKnown-Collects c f _ h (get_open_id-Collects t c q f)
  DelegationsKnown-identity_step c (sign q) f h = h

  -- Through any run of the methods of tenant identity, only organizations that have an identity
  -- have a token delegation, if that is so before the run; a deleted identity takes its delegation
  -- with it.
  pub DelegationsKnown-identity_run :
      (calls : List (Call × IdentityRequest)) (f : Identities)
      → DelegationsKnown f
      → DelegationsKnown (identity_run t calls f)
  unfolding identity_run
  DelegationsKnown-identity_run [] f h = h
  DelegationsKnown-identity_run ((c, q) ∷ calls) f h =
      DelegationsKnown-identity_run calls _ (DelegationsKnown-identity_step c q f h)
