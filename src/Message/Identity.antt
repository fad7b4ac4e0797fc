-- ===== src/Message/Identity.antt =====
-- The gRPC messages of tenant identities, token delegations and machine identities.
use nico_core_mock.Prelude.{Bool, List, Option, String, ℕ}

-- `TenantIdentityConfig`
pub record IdentityConfig : Type 0 where
  pub enabled : Bool
  pub issuer : String
  pub default_audience : String
  pub allowed_audiences : List String
  pub token_ttl_sec : ℕ
  pub subject_prefix : Option String
  pub rotate_key : Bool
  pub signing_key_overlap_sec : Option ℕ

-- `SetTenantIdentityConfigRequest`
pub record SetIdentityRequest : Type 0 where
  pub organization_id : String
  pub config : Option IdentityConfig

-- `TenantIdentitySigningKey`; a time is a number of nanoseconds.
pub record SigningKey : Type 0 where
  pub kid : String
  pub alg : String
  pub current_signer : Bool
  pub expire_at : Option ℕ

-- `TenantIdentityConfigResponse`
pub record IdentityResponse : Type 0 where
  pub organization_id : String
  pub config : Option IdentityConfig
  pub created_at : Option ℕ
  pub updated_at : Option ℕ
  pub signing_keys : List SigningKey

-- `ClientSecretBasic`
pub record ClientSecret : Type 0 where
  pub client_id : String
  pub client_secret : String

-- `TokenDelegation`
pub record Delegation : Type 0 where
  pub token_endpoint : String
  pub subject_token_audience : String
  pub client_secret_basic : Option ClientSecret

-- `TokenDelegationRequest`
pub record DelegationRequest : Type 0 where
  pub organization_id : String
  pub config : Option Delegation

-- `ClientSecretBasicResponse`
pub record ClientSecretHash : Type 0 where
  pub client_id : String
  pub client_secret_hash : String

-- `TokenDelegationResponse`
pub record DelegationResponse : Type 0 where
  pub organization_id : String
  pub token_endpoint : String
  pub subject_token_audience : String
  pub auth_method_config : Option ClientSecretHash
  pub created_at : Option ℕ
  pub updated_at : Option ℕ

-- `JwksRequest`
pub record JwksRequest : Type 0 where
  pub organization_id : String
  -- `Kind == JwksKind_Spiffe`
  pub spiffe : Bool

-- `OpenIdConfiguration`
pub record OpenIdConfiguration : Type 0 where
  pub issuer : String
  pub jwks_uri : String
  pub response_types_supported : List String
  pub subject_types_supported : List String
  pub id_token_signing_alg_values_supported : List String
  pub spiffe_jwks_uri : String

-- `MachineIdentityResponse`
pub record MachineIdentityResponse : Type 0 where
  pub access_token : String
  pub issued_token_type : String
  pub token_type : String
  pub expires_in_sec : ℕ
