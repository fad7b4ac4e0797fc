-- ===== src/Identity/Config.antt =====
-- The configuration of an organization's identity: the Set, Get and Delete handlers of
-- internal/server/forge_server.go, and the identity that LoadTestIdentity seeds.
use nico_core_mock.GoMap.{delete, get, has, put}
use nico_core_mock.Identity.{Identities, IdentityHandler, gc_expired_key, no_settings}
use nico_core_mock.Identity.Crypto.{Call, Tools, generate_key_material, resolve_subject_prefix}
use nico_core_mock.Identity.Slots.{
  OrgState, blank_state, clear_inactive_slot, first_keys, rotate, signing_keys_response,
}
use nico_core_mock.Message.Identity.{IdentityConfig, IdentityResponse, SetIdentityRequest}
use nico_core_mock.Prelude.{
  Bool, List, Option, String, [], contains, empty_text, false, if◌then◌else◌, is_some, ltb,
  map_option, nat_eq, none, some, true, ℕ, ◌*◌, ◌+◌, ◌∷◌,
}
use nico_core_mock.Reply.{err, internal, invalid_argument, not_found, ok, panic}

-- The default audience has to be among the allowed ones, which are it alone when none are given.
unfoldable pub normalize_allowed_audiences : String → List String → Option (List String)
normalize_allowed_audiences default_aud [] = some (default_aud ∷ [])
normalize_allowed_audiences default_aud (a ∷ allowed) =
    if contains default_aud (a ∷ allowed) then some (a ∷ allowed) else none

-- The checks of `rotate_key` against `signing_key_overlap_sec` and `token_ttl_sec`.
unfoldable pub overlap_refused : Bool → Option ℕ → ℕ → Bool
overlap_refused true none ttl = true
overlap_refused true (some overlap) ttl = ltb overlap ttl
overlap_refused false none ttl = false
overlap_refused false (some overlap) ttl = true

abbrev pub seconds : Option ℕ → ℕ
seconds none = 0
seconds (some n) = n * 1000000000

module _ (t : Tools) where
  abbrev pub blank : String → Bool
  blank x = empty_text (t.trim_space x)

  -- The allowed audiences of a configuration that passes the checks.
  unfoldable pub checked : IdentityConfig → Option (List String)
  unfolding normalize_allowed_audiences overlap_refused
  checked input =
      if blank input.issuer
      then none
      else if blank input.default_audience
      then none
      else if nat_eq input.token_ttl_sec 0
      then none
      else elim (normalize_allowed_audiences input.default_audience input.allowed_audiences) [
        | none ↦ none
        | some allowed ↦
            if overlap_refused input.rotate_key input.signing_key_overlap_sec input.token_ttl_sec
            then none
            else some allowed
      ]

  -- A prefix that is nil or blank is replaced by one from the issuer, if there is one.
  unfoldable pub subject_prefix_of : IdentityConfig → Option String
  unfolding resolve_subject_prefix
  subject_prefix_of input =
      let derived = resolve_subject_prefix t input.issuer in
      let fallback = if empty_text derived then input.subject_prefix else some derived in
      elim input.subject_prefix [
        | none ↦ fallback
        | some prefix ↦ if blank prefix then fallback else some prefix
      ]

  -- The state of an organization with its new configuration, which is also the response.
  unfoldable pub identity_response :
      ℕ → String → IdentityConfig → List String → Option ℕ → OrgState → IdentityResponse
  unfolding subject_prefix_of signing_keys_response
  identity_response now org input allowed created st = record {
    organization_id = org;
    config = some (record {
      enabled = input.enabled;
      issuer = input.issuer;
      default_audience = input.default_audience;
      allowed_audiences = allowed;
      token_ttl_sec = input.token_ttl_sec;
      subject_prefix = subject_prefix_of input;
      rotate_key = is_some st.non_active_slot_expires;
      signing_key_overlap_sec = none;
    });
    created_at = created;
    updated_at = some now;
    signing_keys = signing_keys_response st;
  }

  unfoldable pub store_response :
      Call
      → String
      → IdentityConfig
      → List String
      → Option ℕ
      → OrgState
      → IdentityHandler IdentityResponse
  unfolding identity_response
  store_response c org input allowed created st f =
      let resp = identity_response c.now org input allowed created st in
      let stored = record st { cfg = some resp } in
      (record f { identity_state = put org stored f.identity_state }, ok resp)

  -- A failed key generation leaves what was done to the state before it.
  unfoldable pub configure_new :
      Call → String → IdentityConfig → List String → IdentityHandler IdentityResponse
  unfolding generate_key_material store_response first_keys
  configure_new c org input allowed f = elim (generate_key_material t c) [
    | none ↦ (record f { identity_state = put org blank_state f.identity_state }, err internal)
    | some key ↦ store_response c org input allowed (some c.now) (first_keys key blank_state) f
  ]

  unfoldable pub configure_again :
      Call → String → IdentityConfig → List String → OrgState → IdentityHandler IdentityResponse
  unfolding generate_key_material store_response rotate clear_inactive_slot
  configure_again c org input allowed st f =
      let created : Option ℕ = elim st.cfg [ none ↦ none | some resp ↦ resp.created_at ] in
      if input.rotate_key
      then (elim (generate_key_material t c) [
        | none ↦
            let cleared = clear_inactive_slot st in
            (record f { identity_state = put org cleared f.identity_state }, err internal)
        | some key ↦
            let expire = c.now + seconds input.signing_key_overlap_sec in
            store_response c org input allowed created (rotate key expire st) f
      ])
      else store_response c org input allowed created st f

  unfoldable pub configure :
      Call → String → IdentityConfig → List String → IdentityHandler IdentityResponse
  unfolding configure_new configure_again
  configure c org input allowed f = elim (get org f.identity_state) [
    | none ↦ configure_new c org input allowed f
    | some st ↦ configure_again c org input allowed st f
  ]

  unfoldable pub set_tenant_identity_configuration :
      Call → Option SetIdentityRequest → IdentityHandler IdentityResponse
  unfolding checked configure gc_expired_key
  set_tenant_identity_configuration c none f = (f, err invalid_argument)
  set_tenant_identity_configuration c (some req) f =
      let org = req.organization_id in
      if empty_text org then (f, err invalid_argument) else elim req.config [
        | none ↦ (f, err invalid_argument)
        | some input ↦ elim (checked input) [
          | none ↦ (f, err invalid_argument)
          | some allowed ↦ configure c org input allowed (gc_expired_key c.gc_time org f)
        ]
      ]

-- `cloneTenantIdentityConfigResponse` of a response that is not nil: without the signing keys.
abbrev pub clone_response : IdentityResponse → IdentityResponse
clone_response resp = record resp { signing_keys = [] }

abbrev pub with_flag : Bool → IdentityConfig → IdentityConfig
with_flag b c = record c { rotate_key = b }

-- The copy of the stored response, with the keys and the flag of a rotation as they are now.
unfoldable pub current_response : OrgState → IdentityResponse → IdentityResponse
unfolding signing_keys_response
current_response st resp =
    let out : IdentityResponse = clone_response resp in
    let current : Option IdentityConfig =
      map_option (with_flag (is_some st.non_active_slot_expires)) out.config in
    record out { signing_keys = signing_keys_response st; config = current }

-- A state without a response is a nil dereference.
unfoldable pub get_tenant_identity_configuration :
    Call → Option String → IdentityHandler IdentityResponse
unfolding gc_expired_key current_response
get_tenant_identity_configuration c none f = (f, err invalid_argument)
get_tenant_identity_configuration c (some org) f =
    let g = gc_expired_key c.gc_time org f in
    if empty_text org then (f, err invalid_argument) else elim (get org g.identity_state) [
      | none ↦ (g, err not_found)
      | some st ↦ elim st.cfg [ none ↦ (g, panic) | some resp ↦ (g, ok (current_response st resp)) ]
    ]

unfoldable pub delete_tenant_identity_configuration : Option String → IdentityHandler Unit
delete_tenant_identity_configuration none f = (f, err invalid_argument)
delete_tenant_identity_configuration (some org) f =
    let dropped : Identities = record {
      identity_state = delete org f.identity_state;
      token_delegations = delete org f.token_delegations;
    } in
    if empty_text org
    then (f, err invalid_argument)
    else if has org f.identity_state
    then (dropped, ok tt)
    else (f, err not_found)

-- The state that LoadTestIdentity seeds. Without a key the process ends.
unfoldable pub load_test_identity : Tools → Call → Identities → Option Identities
unfolding generate_key_material first_keys signing_keys_response
load_test_identity t c f = elim (generate_key_material t c) [
  | none ↦ none
  | some key ↦
      let st = first_keys key blank_state in
      let resp : IdentityResponse = record {
        organization_id = "test-org";
        config = some (record no_settings {
          enabled = true;
          issuer = "https://carbide-rest.mock/v2/org/test-org/nico/site/mock-site";
          default_audience = "openbao";
          allowed_audiences = "openbao" ∷ "vault" ∷ [];
          token_ttl_sec = 600;
        });
        created_at = some c.now;
        updated_at = some c.now;
        signing_keys = signing_keys_response st;
      } in
      some (record f {
        identity_state = put "test-org" (record st { cfg = some resp }) f.identity_state;
      })
]
