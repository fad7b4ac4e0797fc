-- ===== src/Identity/Publish.antt =====
-- What internal/server/forge_server.go publishes of an identity: GetJWKS and GetOpenIDConfiguration.
use Prim.Native.Char.{code}
use Prim.Native.String.{◌++◌ as append, [] as no_text, ◌∷◌ as cons}
use nico_core_mock.GoMap.{get}
use nico_core_mock.Identity.{IdentityHandler, gc_expired_key, settings}
use nico_core_mock.Identity.Config.{blank}
use nico_core_mock.Identity.Crypto.{Call, KeyMaterial, Tools, jwks_document_for_keys}
use nico_core_mock.Identity.Slots.{OrgState, active_key, cons_some, inactive_key, sort_by_kid}
use nico_core_mock.Message.Identity.{JwksRequest, OpenIdConfiguration}
use nico_core_mock.Prelude.{
  Bool, List, Option, String, [], empty_text, if◌then◌else◌, nat_eq, none, some, ◌&&◌, ◌∷◌,
}
use nico_core_mock.Reply.{Reply, err, internal, invalid_argument, not_found, ok}

-- `strings.TrimRight(s, "/")`
unfoldable pub trim_right_slash : String → String
trim_right_slash no_text = ""
trim_right_slash (cons c s) =
    let rest = trim_right_slash s in
    if empty_text rest && nat_eq (code c) 47 then "" else cons c rest

-- The keys that a document shows, by key id.
unfoldable pub published_keys : OrgState → List KeyMaterial
unfolding active_key inactive_key sort_by_kid
published_keys st =
    sort_by_kid (λ k. k.kid) (cons_some (active_key st) (cons_some (inactive_key st) []))

unfoldable pub jwks_reply : Tools → Bool → OrgState → Reply String
unfolding published_keys jwks_document_for_keys active_key inactive_key
jwks_reply t spiffe st =
    let document =
      jwks_document_for_keys t (published_keys st) (if spiffe then "jwt-svid" else "sig") in
    elim (cons_some (active_key st) (cons_some (inactive_key st) [])) [
      | [] ↦ err internal
      | _ ∷ _ ↦ elim document [ none ↦ err internal | some doc ↦ ok doc ]
    ]

unfoldable pub get_jwks : Tools → Call → Option JwksRequest → IdentityHandler String
unfolding gc_expired_key jwks_reply
get_jwks t c none f = (f, err invalid_argument)
get_jwks t c (some req) f =
    let g = gc_expired_key c.gc_time req.organization_id f in
    if empty_text req.organization_id
    then (f, err invalid_argument)
    else elim (get req.organization_id g.identity_state) [
      | none ↦ (g, err not_found)
      | some st ↦ (g, jwks_reply t req.spiffe st)
    ]

unfoldable pub open_id_reply : Tools → OrgState → Reply OpenIdConfiguration
unfolding active_key trim_right_slash
open_id_reply t st =
    let iss = (settings st).issuer in
    let base = trim_right_slash iss in
    if blank t iss then err not_found else elim (active_key st) [
      | none ↦ err not_found
      | some _ ↦ ok (record {
        issuer = iss;
        jwks_uri = append base "/.well-known/jwks.json";
        response_types_supported = "token" ∷ [];
        subject_types_supported = "public" ∷ [];
        id_token_signing_alg_values_supported = [];
        spiffe_jwks_uri = append base "/.well-known/spiffe/jwks.json";
      })
    ]

unfoldable pub get_open_id_configuration :
    Tools → Call → Option String → IdentityHandler OpenIdConfiguration
unfolding gc_expired_key open_id_reply
get_open_id_configuration t c none f = (f, err invalid_argument)
get_open_id_configuration t c (some org) f =
    let g = gc_expired_key c.gc_time org f in
    if empty_text org then (f, err invalid_argument) else elim (get org g.identity_state) [
      | none ↦ (g, err not_found)
      | some st ↦ (g, open_id_reply t st)
    ]
