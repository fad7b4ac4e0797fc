-- ===== src/Identity/Delegate.antt =====
-- Token delegation: the Set, Get and Delete handlers of internal/server/forge_server.go.
use nico_core_mock.GoMap.{delete, get, has, put}
use nico_core_mock.Identity.{Identities, IdentityHandler}
use nico_core_mock.Identity.Config.{blank}
use nico_core_mock.Identity.Crypto.{Call, Tools, client_secret_display_hash}
use nico_core_mock.Message.Identity.{
  ClientSecret, ClientSecretHash, Delegation, DelegationRequest, DelegationResponse,
}
use nico_core_mock.Prelude.{Option, String, empty_text, if◌then◌else◌, none, not, some, ℕ}
use nico_core_mock.Reply.{Reply, err, invalid_argument, not_found, ok}

module _ (t : Tools) where
  -- The client id and the secret must not be blank; the response shows a hash of the secret.
  unfoldable pub auth_method : Option ClientSecret → Option (Option ClientSecretHash)
  unfolding client_secret_display_hash
  auth_method none = some none
  auth_method (some basic) =
      if blank t basic.client_id
      then none
      else if blank t basic.client_secret
      then none
      else some (
          some (record {
            client_id = basic.client_id;
            client_secret_hash = client_secret_display_hash t basic.client_secret;
          }))

  -- A delegation that exists keeps its time of creation.
  unfoldable pub store_delegation :
      Call → String → Delegation → Option ClientSecretHash → IdentityHandler DelegationResponse
  store_delegation c org input auth f =
      let created : Option ℕ = elim (get org f.token_delegations) [
        | none ↦ some c.now
        | some existing ↦ existing.created_at
      ] in
      let resp : DelegationResponse = record {
        organization_id = org;
        token_endpoint = input.token_endpoint;
        subject_token_audience = input.subject_token_audience;
        auth_method_config = auth;
        created_at = created;
        updated_at = some c.now;
      } in
      (record f { token_delegations = put org resp f.token_delegations }, ok resp)

  unfoldable pub delegate : Call → String → Delegation → IdentityHandler DelegationResponse
  unfolding auth_method store_delegation
  delegate c org input f =
      if blank t input.token_endpoint
      then (f, err invalid_argument)
      else if blank t input.subject_token_audience
      then (f, err invalid_argument)
      else if not (has org f.identity_state)
      then (f, err not_found)
      else elim (auth_method input.client_secret_basic) [
        | none ↦ (f, err invalid_argument)
        | some auth ↦ store_delegation c org input auth f
      ]

  unfoldable pub set_token_delegation :
      Call → Option DelegationRequest → IdentityHandler DelegationResponse
  unfolding delegate
  set_token_delegation c none f = (f, err invalid_argument)
  set_token_delegation c (some req) f =
      if empty_text req.organization_id then (f, err invalid_argument) else elim req.config [
        | none ↦ (f, err invalid_argument)
        | some input ↦ delegate c req.organization_id input f
      ]

unfoldable pub get_token_delegation : Option String → Identities → Reply DelegationResponse
get_token_delegation none f = err invalid_argument
get_token_delegation (some org) f =
    if empty_text org
    then err invalid_argument
    else elim (get org f.token_delegations) [ none ↦ err not_found | some td ↦ ok td ]

-- A delegation that is missing is deleted without an error.
unfoldable pub delete_token_delegation : Option String → IdentityHandler Unit
delete_token_delegation none f = (f, err invalid_argument)
delete_token_delegation (some org) f =
    if empty_text org
    then (f, err invalid_argument)
    else (record f { token_delegations = delete org f.token_delegations }, ok tt)
