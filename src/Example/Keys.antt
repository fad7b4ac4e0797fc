-- ===== src/Example/Keys.antt =====
-- An organization with its identity, and calls of the methods of tenant identity.
use mathlib.Core.List.{Memᴰ}
use nico_core_mock.GoMap.{delete, get, keys, put}
use nico_core_mock.GoMap.Each.{Each-empty, Each-put}
use nico_core_mock.Identity.{Identities, gc_expired_key}
use nico_core_mock.Identity.Calls.{
  IdentityRequest, delete_configuration, identity_ending, identity_run, identity_step,
  set_configuration,
}
use nico_core_mock.Identity.Config.{
  checked, configure, configure_again, normalize_allowed_audiences, overlap_refused,
  set_tenant_identity_configuration,
}
use nico_core_mock.Identity.Crypto.{
  Call, Jwk, KeyMaterial, PrivateKey, Tools, generate_key_material, jwk_of, material,
  sign_es256_jwt, signing_input,
}
use nico_core_mock.Identity.Publish.{get_jwks, trim_right_slash}
use nico_core_mock.Identity.Published.{
  ShowsKeys, document_reply, get_jwks-unexpired, unexpired_keys,
}
use nico_core_mock.Identity.Published.Overlap.{set_configuration-get_jwks}
use nico_core_mock.Identity.Sign.{
  all_allowed, granted, sign_for, subject, claims_of, resolve_signing_org, sign_machine_identity,
  token_ttl,
}
use nico_core_mock.Identity.Signed.{Answers, asked_for, sign_machine_identity-Answers}
use nico_core_mock.Identity.Slots.{OrgState, active_key, gc_expired, inactive_key, rotate}
use nico_core_mock.Identity.Slots.Rotation.{gc_expired-rotate}
use nico_core_mock.Identity.Sound.{KeysSound, Sound}
use nico_core_mock.Identity.Sound.Known.{DelegationsKnown, DelegationsKnown-identity_run}
use nico_core_mock.Identity.Sound.Runs.{AllSound, AllSound-identity_run, EachGenerates, Generates}
use nico_core_mock.Message.Identity.{
  IdentityConfig, IdentityResponse, MachineIdentityResponse, SetIdentityRequest,
}
use nico_core_mock.Reply.{internal, ok, refused}
use nico_core_mock.Identity.Refused.{Collected, HalfSet, identity_step-refused}
use nico_core_mock.Prelude.{
  List, [], arith, contains, false, if◌then◌else◌, inl, ltb, nat_eq, none, refl, some, true,
  without, ℕ, ◌*◌, ◌<◌, ◌∷◌, ◌≡◌, ◌≤◌, ◌⊎◌,
}

abbrev private_1 : PrivateKey
private_1 = record { x = 1; y = 2; d = 3 }

abbrev private_2 : PrivateKey
private_2 = record { x = 4; y = 5; d = 6 }

-- Digests and encodings that leave a text as it is.
abbrev tools : Tools
tools = record {
  trim_space = λ x. x;
  to_lower = λ x. x;
  hostname = λ x. some "example.org";
  marshal_spki = λ p. some (if nat_eq p.d 3 then "key-1" else "key-2");
  encode_pem = λ x. x;
  sha256 = λ x. x;
  hex = λ x. x;
  base64url = λ x. x;
  fill_bytes = λ n x. "bytes";
  marshal_jwks = λ js. some "document";
  marshal_header = λ h. some h.kid;
  marshal_claims = λ c. some c.sub;
}

abbrev old_key : KeyMaterial
old_key = material tools private_1 "key-1"

abbrev new_key : KeyMaterial
new_key = material tools private_2 "key-2"

-- A call, one second after the other.
abbrev call_at : ℕ → Call
call_at n = record {
  gc_time = n * 1000000000;
  now = n * 1000000000;
  generate_key = some private_2;
  ecdsa_sign = λ p x. some (7, 8);
  subject_uuid = "0a";
  token_uuid = "0b";
}

abbrev config : IdentityConfig
config = record {
  enabled = true;
  issuer = "https://example.org/";
  default_audience = "vault";
  allowed_audiences = "vault" ∷ "openbao" ∷ [];
  token_ttl_sec = 600;
  subject_prefix = none;
  rotate_key = false;
  signing_key_overlap_sec = none;
}

-- The configuration of a rotation.
abbrev rotation : IdentityConfig
rotation = record config { rotate_key = true; signing_key_overlap_sec = some 900 }

abbrev response : IdentityResponse
response = record {
  organization_id = "org-1";
  config = some config;
  created_at = some 0;
  updated_at = some 0;
  signing_keys = [];
}

abbrev org_state : OrgState
org_state = record {
  cfg = some response;
  slot1 = some old_key;
  slot2 = none;
  current_slot = 1;
  non_active_slot_expires = none;
}

abbrev identities : Identities
identities = record { identity_state = ("org-1", org_state) ∷ []; token_delegations = [] }

abbrev calls : List (Call × IdentityRequest)
calls =
    (
      call_at 5,
      set_configuration (some (record { organization_id = "org-1"; config = some rotation })),
    )
    ∷ (
      call_at 6,
      set_configuration (some (record { organization_id = "org-2"; config = some config })),
    )
    ∷ (call_at 7, delete_configuration (some "org-1"))
    ∷ []

org_state-KeysSound : KeysSound tools org_state
unfolding active_key inactive_key
org_state-KeysSound = record {
  on_slot = inl refl;
  key = old_key;
  active = refl;
  genuine = record { priv = private_1; spki = "key-1"; marshalled = refl; made = refl };
  retired = inl (refl, refl);
}

org_state-Sound : Sound tools org_state
unfolding contains
org_state-Sound = record {
  keys_sound = org_state-KeysSound;
  configured = record {
    resp = response;
    cfg = config;
    stored = refl;
    config = refl;
    issuer = refl;
    audience = refl;
    ttl = refl;
  };
}

identities-AllSound : AllSound tools identities
unfolding put
identities-AllSound =
    Each-put (Sound tools) "org-1" org_state [] org_state-Sound (Each-empty (Sound tools))

generates : (n : ℕ) → Generates tools (call_at n)
unfolding generate_key_material
generates n = (new_key, refl)

calls-EachGenerates : EachGenerates tools calls
calls-EachGenerates = (generates 5, (generates 6, (generates 7, tt)))

AllSound-identity_run_example : AllSound tools (identity_run tools calls identities)
AllSound-identity_run_example =
    AllSound-identity_run tools calls identities calls-EachGenerates identities-AllSound

identities-DelegationsKnown : DelegationsKnown identities
unfolding get
identities-DelegationsKnown = record { known = λ org h. ground arith }

DelegationsKnown-identity_run_example : DelegationsKnown (identity_run tools calls identities)
DelegationsKnown-identity_run_example =
    DelegationsKnown-identity_run tools calls identities identities-DelegationsKnown

org_1-stored : get "org-1" identities.identity_state ≡ some org_state
unfolding get
org_1-stored = refl

get_jwks-unexpired_example :
    (js : List Jwk) × ((get_jwks tools
        (call_at 3)
        (some (record { organization_id = "org-1"; spiffe = false }))
        identities).1
      ≡ document_reply tools (tools.marshal_jwks js))
    × ShowsKeys tools "sig" (unexpired_keys 3000000000 org_state) js
get_jwks-unexpired_example =
    get_jwks-unexpired tools (call_at 3) "org-1" false identities org_state refl org_1-stored
      org_state-KeysSound

rotation-checked : checked tools rotation ≡ some ("vault" ∷ "openbao" ∷ [])
unfolding checked normalize_allowed_audiences overlap_refused contains
rotation-checked = refl

in_time : (call_at 3).now ≤ (call_at 5).now
in_time = omega arith

ttl_covered : token_ttl config ≤ 900
unfolding token_ttl
ttl_covered = omega arith

org_1-signs : resolve_signing_org identities ≡ "org-1"
unfolding resolve_signing_org keys without
org_1-signs = refl

-- The response of the third second.
abbrev vault_token : MachineIdentityResponse
vault_token = record {
  access_token = "key-1.https://example.org/machine/0a.bytesbytes";
  issued_token_type = "urn:ietf:params:oauth:token-type:jwt";
  token_type = "Bearer";
  expires_in_sec = 600;
}

org_1-token :
    sign_machine_identity tools (call_at 3) (some ("vault" ∷ [])) identities ≡ ok vault_token
unfolding sign_machine_identity resolve_signing_org keys without get active_key sign_for granted
    all_allowed contains claims_of subject trim_right_slash token_ttl sign_es256_jwt signing_input
org_1-token = refl

token_live :
    (call_at 6).gc_time
    < (claims_of (call_at 3) config (asked_for config ("vault" ∷ []))).exp * 1000000000
unfolding claims_of token_ttl
token_live = omega arith

-- A token of the third second, a rotation in the fifth, and the document of the sixth.
set_configuration-get_jwks_example :
    (js : List Jwk) × (km : KeyMaterial) × (priv : PrivateKey) × (km.private_key ≡ some priv)
    × (sign_es256_jwt tools
          (call_at 3)
          km.private_key
          km.kid
          (claims_of (call_at 3) config (asked_for config ("vault" ∷ [])))
        ≡ ok vault_token.access_token)
    × ((get_jwks tools
          (call_at 6)
          (some (record { organization_id = "org-1"; spiffe = true }))
          (set_tenant_identity_configuration tools
            (call_at 5)
            (some (record { organization_id = "org-1"; config = some rotation }))
            identities).0).1
        ≡ document_reply tools (tools.marshal_jwks js))
    × Memᴰ (jwk_of tools "jwt-svid" km priv) js
unfolding org_state-Sound org_state-KeysSound
set_configuration-get_jwks_example =
    set_configuration-get_jwks tools (call_at 3) (call_at 5) (call_at 6) "org-1" rotation
      ("vault" ∷ "openbao" ∷ []) ("vault" ∷ []) 900 true identities org_state vault_token
      org_1-signs refl org_1-stored org_state-Sound org_1-token rotation-checked refl refl
      (generates 5) in_time ttl_covered token_live

sign_machine_identity-Answers_example :
    Answers tools
      (call_at 3)
      config
      old_key
      ("openbao" ∷ [])
      (sign_machine_identity tools (call_at 3) (some ("openbao" ∷ [])) identities)
unfolding org_state-Sound org_state-KeysSound
sign_machine_identity-Answers_example =
    sign_machine_identity-Answers tools (call_at 3) ("openbao" ∷ []) identities "org-1" org_state
      org_1-signs refl org_1-stored org_state-Sound

-- Before the old key has expired.
gc_expired-rotate_example :
    (active_key (gc_expired 50 (rotate new_key 100 org_state)) ≡ some new_key)
    × (inactive_key (gc_expired 50 (rotate new_key 100 org_state))
        ≡ (if ltb 50 100 then active_key org_state else none))
gc_expired-rotate_example = gc_expired-rotate new_key 100 50 org_state

-- The fifth second, when the machine has no more randomness.
abbrev starved : Call
starved = record (call_at 5) { generate_key = none }

abbrev rotation_request : IdentityRequest
rotation_request =
    set_configuration (some (record { organization_id = "org-1"; config = some rotation }))

rotation-fails : identity_ending tools starved rotation_request identities ≡ refused internal
unfolding identity_ending checked normalize_allowed_audiences overlap_refused contains
    gc_expired_key gc_expired get put delete configure configure_again generate_key_material
rotation-fails = refl

identity_step-refused_example :
    Collected starved "org-1" identities (identity_step tools starved rotation_request identities)
    ⊎ ((req : SetIdentityRequest) × (rotation_request ≡ set_configuration (some req))
        × HalfSet tools starved "org-1" internal identities
            (identity_step tools starved rotation_request identities))
identity_step-refused_example =
    identity_step-refused tools starved rotation_request identities internal rotation-fails
