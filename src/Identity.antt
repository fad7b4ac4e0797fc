-- ===== src/Identity.antt =====
-- Tenant identity of internal/server/forge_server.go: the two maps of NICoServerImpl that its handlers
-- keep, the identity of each organization and its token delegation.
pub mod Crypto
pub mod Slots
pub mod Config
pub mod Delegate
pub mod Publish
pub mod Sign
pub mod Calls
pub mod Sound
pub mod Maps
pub mod Published
pub mod Signed
pub mod Refused
use nico_core_mock.GoMap.{GoMap, get, put}
use nico_core_mock.Identity.Slots.{OrgState, gc_expired}
use nico_core_mock.Message.Identity.{DelegationResponse, IdentityConfig}
use nico_core_mock.Prelude.{String, [], false, none, some, ℕ}
use nico_core_mock.Reply.{Reply}

pub record Identities : Type 0 where
  pub identity_state : GoMap OrgState
  pub token_delegations : GoMap DelegationResponse

-- A handler, given its request: the maps afterwards and the reply.
abbrev pub IdentityHandler : Type 0 → Type 0
IdentityHandler A = Identities → Identities × Reply A

-- `gcExpiredNonActiveSigningKey`
unfoldable pub gc_expired_key : ℕ → String → Identities → Identities
unfolding gc_expired
gc_expired_key now org f = elim (get org f.identity_state) [
  | none ↦ f
  | some st ↦ record f { identity_state = put org (gc_expired now st) f.identity_state }
]

-- `GetConfig()` of a stored response, with the zero message for nil.
abbrev pub no_settings : IdentityConfig
no_settings = record {
  enabled = false;
  issuer = "";
  default_audience = "";
  allowed_audiences = [];
  token_ttl_sec = 0;
  subject_prefix = none;
  rotate_key = false;
  signing_key_overlap_sec = none;
}

abbrev pub settings : OrgState → IdentityConfig
settings st = elim st.cfg [
  | none ↦ no_settings
  | some resp ↦ elim resp.config [ none ↦ no_settings | some c ↦ c ]
]
