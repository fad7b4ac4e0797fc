-- ===== src/Identity/Signed.antt =====
-- What SignMachineIdentity of internal/server/forge_server.go answers for an organization in order.
use nico_core_mock.GoMap.{get}
use nico_core_mock.Identity.{Identities}
use nico_core_mock.Identity.Crypto.{Call, Claims, KeyMaterial, Tools, sign_es256_jwt, signing_input}
use nico_core_mock.Identity.Sign.{
  all_allowed, claims_of, granted, resolve_signing_org, sign_for, sign_machine_identity, token_ttl,
}
use nico_core_mock.Identity.Slots.{OrgState}
use nico_core_mock.Identity.Sound.{Genuine, Sound}
use nico_core_mock.Message.Identity.{IdentityConfig, MachineIdentityResponse}
use nico_core_mock.Prelude.{
  Bool-cases, List, Option-cases, String, [], ap, arith, contains, empty_text, false, inl, inr,
  eq_iff, eq_refl, none, refl, some, true, ◌%◌, ◌==◌, ◌^◌, ◌∷◌, ◌≡◌, ◌⊎◌,
}
use nico_core_mock.Reply.{Reply, err, internal, invalid_argument, ok}

-- The audiences of the request, and the default one where it has none.
abbrev pub asked_for : IdentityConfig → List String → List String
asked_for cfg [] = cfg.default_audience ∷ []
asked_for cfg (a ∷ audience) = a ∷ audience

abbrev pub Within : List String → List String → Type 0
Within xs ys = (a : String) → contains a xs ≡ true → contains a ys ≡ true

all_allowed-Within : (xs ys : List String) → all_allowed xs ys ≡ true → Within xs ys
unfolding all_allowed contains
all_allowed-Within [] ys h a m = cc
all_allowed-Within (x ∷ xs) ys h a m = elim (Bool-cases (x == a)) [
  | inl b ↦ ground (arith, b, h, m, eq_iff x a)
  | inr b ↦ all_allowed-Within xs ys (ground (arith, h)) a (ground (arith, b, m))
]

all_allowed-outside :
    (xs ys : List String)
    → all_allowed xs ys ≡ false
    → (a : String) × (contains a xs ≡ true) × (contains a ys ≡ false)
unfolding all_allowed contains
all_allowed-outside [] ys h = absurd (ground (arith, h))
all_allowed-outside (x ∷ xs) ys h = elim (Bool-cases (contains x ys)) [
  | inr b ↦ (x, ground (arith, eq_refl x), b)
  | inl b ↦
      let (a, among, outside) = all_allowed-outside xs ys (ground (arith, b, h)) in
      (a, ground (arith, among), outside)
]

only_allowed :
    (cfg : IdentityConfig)
    → contains cfg.default_audience cfg.allowed_audiences ≡ true
    → all_allowed (cfg.default_audience ∷ []) cfg.allowed_audiences ≡ true
unfolding all_allowed
only_allowed cfg h = ground (arith, h)

module _ (t : Tools) where
  -- The response around a token.
  abbrev pub bearer : IdentityConfig → String → MachineIdentityResponse
  bearer cfg token = record {
    access_token = token;
    issued_token_type = "urn:ietf:params:oauth:token-type:jwt";
    token_type = "Bearer";
    expires_in_sec = token_ttl cfg % 2 ^ 32;
  }

  -- The request is refused for an audience that is not allowed; or all that it gets are allowed,
  -- and either the signing of a token for them fails, or the token is signed with the key.
  abbrev pub Answers :
      Call → IdentityConfig → KeyMaterial → List String → Reply MachineIdentityResponse → Type 0
  Answers c cfg km audience reply =
      let claims = claims_of c cfg (asked_for cfg audience) in
      let signed = sign_es256_jwt t c km.private_key km.kid claims in
      ((a : String) × (contains a audience ≡ true)
        × (contains a cfg.allowed_audiences ≡ false)
        × (reply ≡ err invalid_argument))
      ⊎ (Within (asked_for cfg audience) cfg.allowed_audiences
          × (signed ≡ err internal)
          × (reply ≡ err internal))
      ⊎ (Within (asked_for cfg audience) cfg.allowed_audiences
          × ((token : String) × (signed ≡ ok token) × (reply ≡ ok (bearer cfg token))))

  -- Signing with a whole key pair does not dereference nil.
  sign_es256_jwt-Genuine :
      (c : Call) (km : KeyMaterial) (claims : Claims)
      → Genuine t km
      → (sign_es256_jwt t c km.private_key km.kid claims ≡ err internal)
        ⊎ ((token : String) × (sign_es256_jwt t c km.private_key km.kid claims ≡ ok token))
  unfolding sign_es256_jwt
  sign_es256_jwt-Genuine c km claims h =
      let has_key = ap (λ x. x.private_key) h.made in
      elim (Option-cases (signing_input t km.kid claims)) [
        | inl i ↦ inl (rw (i, sign_es256_jwt) refl)
        | inr (input, i) ↦ elim (Option-cases (c.ecdsa_sign h.priv (t.sha256 input))) [
          | inl s ↦ inl (rw (i, has_key, s, sign_es256_jwt) refl)
          | inr (rs, s) ↦ inr (rw (i, has_key, s, sign_es256_jwt) (_, refl))
        ]
      ]

  granted_lem :
      (cfg : IdentityConfig) (audience : List String)
      → contains cfg.default_audience cfg.allowed_audiences ≡ true
      → ((a : String) × (contains a audience ≡ true)
          × (contains a cfg.allowed_audiences ≡ false)
          × (granted cfg audience ≡ none))
        ⊎ (Within (asked_for cfg audience) cfg.allowed_audiences
            × (granted cfg audience ≡ some (asked_for cfg audience)))
  unfolding granted
  granted_lem cfg [] h = inr (
    all_allowed-Within (cfg.default_audience ∷ []) cfg.allowed_audiences (only_allowed cfg h),
    refl,
  )
  granted_lem cfg (a ∷ audience) h =
      elim (Bool-cases (all_allowed (a ∷ audience) cfg.allowed_audiences)) [
        | inl e ↦ inr (all_allowed-Within (a ∷ audience) cfg.allowed_audiences e, ground (arith, e))
        | inr e ↦
            let (b, asked, barred) = all_allowed-outside (a ∷ audience) cfg.allowed_audiences e in
            inl (b, asked, barred, ground (arith, e))
      ]

  sign_for-Answers :
      (c : Call) (cfg : IdentityConfig) (km : KeyMaterial) (audience : List String)
      → Genuine t km
      → contains cfg.default_audience cfg.allowed_audiences ≡ true
      → Answers c cfg km audience (sign_for t c cfg km audience)
  unfolding sign_for
  sign_for-Answers c cfg km audience h d = elim (granted_lem cfg audience d) [
    | inl (a, asked, barred, g) ↦ inl (a, asked, barred, rw (g, sign_for) refl)
    | inr (all, g) ↦
        elim (sign_es256_jwt-Genuine c km (claims_of c cfg (asked_for cfg audience)) h) [
          | inl s ↦ inr (inl (all, s, rw (g, s, sign_for) refl))
          | inr (token, s) ↦ inr (inr (all, (token, s, rw (g, s, sign_for) refl)))
        ]
  ]

  -- Where one organization alone has an identity, and it is sound, SignMachineIdentity answers a
  -- request in one of three ways. It refuses it as invalid for an audience that it asks for and that
  -- is not allowed. Or all the audiences that it asks for, and the default one where it asks for
  -- none, are allowed; then either it returns a token, signed with the active key of the
  -- organization for just these audiences, with the configured lifetime, or the signing of that
  -- token has failed and it answers so. It does not crash.
  pub sign_machine_identity-Answers :
      (c : Call) (audience : List String) (f : Identities) (org : String) (st : OrgState)
      → resolve_signing_org f ≡ org
      → empty_text org ≡ false
      → get org f.identity_state ≡ some st
      → (h : Sound t st)
      → Answers c h.configured.cfg h.keys_sound.key audience
          (sign_machine_identity t c (some audience) f)
  unfolding sign_machine_identity
  sign_machine_identity-Answers c audience f org st o e g h =
      rw
        (
          o, e, g, h.keys_sound.active, sign_machine_identity, h.configured.stored,
          h.configured.config,
        )
        (sign_for-Answers c h.configured.cfg h.keys_sound.key audience h.keys_sound.genuine
          h.configured.audience)
