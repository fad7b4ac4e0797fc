-- ===== src/Identity/Calls.antt =====
-- The gRPC methods of tenant identity in internal/server/forge_server.go, as requests that come one
-- after another.
use nico_core_mock.Identity.{Identities}
use nico_core_mock.Identity.Config.{
  delete_tenant_identity_configuration, get_tenant_identity_configuration,
  set_tenant_identity_configuration,
}
use nico_core_mock.Identity.Crypto.{Call, Tools}
use nico_core_mock.Identity.Delegate.{
  delete_token_delegation, get_token_delegation, set_token_delegation,
}
use nico_core_mock.Identity.Publish.{get_jwks, get_open_id_configuration}
use nico_core_mock.Identity.Sign.{sign_machine_identity}
use nico_core_mock.Message.Identity.{DelegationRequest, JwksRequest, SetIdentityRequest}
use nico_core_mock.Prelude.{List, Option, String, [], some, ◌∷◌}
use nico_core_mock.Reply.{Ending, ending}

pub data IdentityRequest : Type 0 where
  set_configuration : Option SetIdentityRequest → IdentityRequest
  get_configuration delete_configuration : Option String → IdentityRequest
  set_delegation : Option DelegationRequest → IdentityRequest
  get_delegation delete_delegation : Option String → IdentityRequest
  jwks_of_org : Option JwksRequest → IdentityRequest
  open_id_of_org : Option String → IdentityRequest
  sign : Option (List String) → IdentityRequest

-- The organization that a request names; signing names none.
abbrev pub named_org : IdentityRequest → String
named_org (set_configuration (some req)) = req.organization_id
named_org (get_configuration (some org)) = org
named_org (delete_configuration (some org)) = org
named_org (set_delegation (some req)) = req.organization_id
named_org (get_delegation (some org)) = org
named_org (delete_delegation (some org)) = org
named_org (jwks_of_org (some req)) = req.organization_id
named_org (open_id_of_org (some org)) = org
named_org _ = ""

module _ (t : Tools) where
  -- How a request ends.
  unfoldable pub identity_ending : Call → IdentityRequest → Identities → Ending
  unfolding set_tenant_identity_configuration get_tenant_identity_configuration
      delete_tenant_identity_configuration set_token_delegation get_token_delegation
      delete_token_delegation get_jwks get_open_id_configuration sign_machine_identity
  identity_ending c (set_configuration q) f = ending (set_tenant_identity_configuration t c q f).1
  identity_ending c (get_configuration q) f = ending (get_tenant_identity_configuration c q f).1
  identity_ending c (delete_configuration q) f = ending (delete_tenant_identity_configuration q f).1
  identity_ending c (set_delegation q) f = ending (set_token_delegation t c q f).1
  identity_ending c (get_delegation q) f = ending (get_token_delegation q f)
  identity_ending c (delete_delegation q) f = ending (delete_token_delegation q f).1
  identity_ending c (jwks_of_org q) f = ending (get_jwks t c q f).1
  identity_ending c (open_id_of_org q) f = ending (get_open_id_configuration t c q f).1
  identity_ending c (sign q) f = ending (sign_machine_identity t c q f)

  -- The maps after a request.
  unfoldable pub identity_step : Call → IdentityRequest → Identities → Identities
  unfolding set_tenant_identity_configuration get_tenant_identity_configuration
      delete_tenant_identity_configuration set_token_delegation delete_token_delegation get_jwks
      get_open_id_configuration
  identity_step c (set_configuration q) f = (set_tenant_identity_configuration t c q f).0
  identity_step c (get_configuration q) f = (get_tenant_identity_configuration c q f).0
  identity_step c (delete_configuration q) f = (delete_tenant_identity_configuration q f).0
  identity_step c (set_delegation q) f = (set_token_delegation t c q f).0
  identity_step c (get_delegation q) f = f
  identity_step c (delete_delegation q) f = (delete_token_delegation q f).0
  identity_step c (jwks_of_org q) f = (get_jwks t c q f).0
  identity_step c (open_id_of_org q) f = (get_open_id_configuration t c q f).0
  identity_step c (sign q) f = f

  unfoldable pub identity_run : List (Call × IdentityRequest) → Identities → Identities
  unfolding identity_step
  identity_run [] f = f
  identity_run ((c, q) ∷ calls) f = identity_run calls (identity_step c q f)
