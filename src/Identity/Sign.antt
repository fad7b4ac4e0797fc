-- ===== src/Identity/Sign.antt =====
-- SignMachineIdentity of internal/server/forge_server.go.
use Prim.Native.String.{◌++◌ as append}
use nico_core_mock.GoMap.{get, keys}
use nico_core_mock.Identity.{Identities, settings}
use nico_core_mock.Identity.Crypto.{
  Audience, Call, Claims, KeyMaterial, Tools, several, sign_es256_jwt, single,
}
use nico_core_mock.Identity.Publish.{trim_right_slash}
use nico_core_mock.Identity.Slots.{active_key}
use nico_core_mock.Message.Identity.{IdentityConfig, MachineIdentityResponse}
use nico_core_mock.Prelude.{
  Bool, List, Option, String, [], contains, empty_text, if◌then◌else◌, nat_eq, none, some, true,
  value, ℕ, ◌%◌, ◌&&◌, ◌+◌, ◌/◌, ◌^◌, ◌∷◌,
}
use nico_core_mock.Reply.{
  Reply, err, internal, invalid_argument, not_found, ok, panic, unauthenticated,
}

abbrev pub only : List String → String
only [] = ""
only (k ∷ []) = k
only (k ∷ j ∷ ks) = ""

-- The one organization that has an identity, and "" if there are none or several.
unfoldable pub resolve_signing_org : Identities → String
resolve_signing_org f = only (keys f.identity_state)

unfoldable pub all_allowed : List String → List String → Bool
all_allowed [] allowed = true
all_allowed (a ∷ audiences) allowed = contains a allowed && all_allowed audiences allowed

-- The audiences that a request gets, if all it asks for are allowed.
unfoldable pub granted : IdentityConfig → List String → Option (List String)
unfolding all_allowed
granted cfg [] = some (cfg.default_audience ∷ [])
granted cfg (a ∷ audiences) =
    if all_allowed (a ∷ audiences) cfg.allowed_audiences then some (a ∷ audiences) else none

abbrev pub aud_claim : List String → Audience
aud_claim [] = several []
aud_claim (a ∷ []) = single a
aud_claim (a ∷ b ∷ audiences) = several (a ∷ b ∷ audiences)

unfoldable pub token_ttl : IdentityConfig → ℕ
token_ttl cfg = if nat_eq cfg.token_ttl_sec 0 then 600 else cfg.token_ttl_sec

unfoldable pub subject : Call → IdentityConfig → String
unfolding trim_right_slash
subject c cfg =
    let prefix = value cfg.subject_prefix in
    let base =
      if empty_text prefix then append (trim_right_slash cfg.issuer) "/machine" else prefix in
    append (trim_right_slash base) (append "/" c.subject_uuid)

unfoldable pub claims_of : Call → IdentityConfig → List String → Claims
unfolding subject token_ttl
claims_of c cfg audiences =
    let now = c.now / 1000000000 in
    record {
      iss = cfg.issuer;
      sub = subject c cfg;
      aud = aud_claim audiences;
      iat = now;
      nbf = now;
      exp = now + token_ttl cfg;
      jti = c.token_uuid;
    }

-- The reply to a request for these audiences, signed with a key of the organization.
unfoldable pub sign_for :
    Tools → Call → IdentityConfig → KeyMaterial → List String → Reply MachineIdentityResponse
unfolding granted claims_of sign_es256_jwt token_ttl
sign_for t c cfg km audience = elim (granted cfg audience) [
  | none ↦ err invalid_argument
  | some audiences ↦ elim (sign_es256_jwt t c km.private_key km.kid (claims_of c cfg audiences)) [
    | ok token ↦ ok (record {
      access_token = token;
      issued_token_type = "urn:ietf:params:oauth:token-type:jwt";
      token_type = "Bearer";
      expires_in_sec = token_ttl cfg % 2 ^ 32;
    })
    | err code ↦ err code
    | panic ↦ panic
  ]
]

unfoldable pub sign_machine_identity :
    Tools → Call → Option (List String) → Identities → Reply MachineIdentityResponse
unfolding resolve_signing_org sign_for active_key
sign_machine_identity t c none f = err invalid_argument
sign_machine_identity t c (some audience) f =
    let org = resolve_signing_org f in
    if empty_text org then err unauthenticated else elim (get org f.identity_state) [
      | none ↦ err not_found
      | some st ↦ elim (active_key st) [
        | none ↦ err internal
        | some km ↦ sign_for t c (settings st) km audience
      ]
    ]
