-- ===== src/Identity/Crypto.antt =====
-- The keys, key sets and tokens of tenant identities in internal/server/forge_server.go, over Go's
-- crypto, encoding, net/url and strings packages.
use Prim.Native.String.{◌++◌ as append, len, slice}
use nico_core_mock.Prelude.{
  List, Option, String, [], empty_text, if◌then◌else◌, ltb, none, not, some, ℕ, ◌∷◌,
}
use nico_core_mock.Reply.{Reply, err, internal, ok, panic}

-- `ecdsa.PrivateKey`: the point of the public key, and the secret number.
pub record PrivateKey : Type 0 where
  pub x : ℕ
  pub y : ℕ
  pub d : ℕ

-- One entry of a JWKS document.
pub record Jwk : Type 0 where
  pub kty : String
  pub crv : String
  pub alg : String
  pub use_for : String
  pub kid : String
  pub x : String
  pub y : String

pub record JwtHeader : Type 0 where
  pub alg : String
  pub kid : String
  pub typ : String

-- The claim `aud`: one text or a list.
pub data Audience : Type 0 where
  single : String → Audience
  several : List String → Audience

pub record Claims : Type 0 where
  pub iss : String
  pub sub : String
  pub aud : Audience
  pub iat : ℕ
  pub nbf : ℕ
  pub exp : ℕ
  pub jti : String

-- What the Go packages compute. Bytes are texts.
pub record Tools : Type 0 where
  -- `strings.TrimSpace`, `strings.ToLower`
  pub trim_space : String → String
  pub to_lower : String → String
  -- `url.Parse` and `Hostname`; none where the URL is refused
  pub hostname : String → Option String
  -- `x509.MarshalPKIXPublicKey`
  pub marshal_spki : PrivateKey → Option String
  -- `pem.EncodeToMemory` of a public key
  pub encode_pem : String → String
  pub sha256 : String → String
  -- `hex.EncodeToString`, `base64.RawURLEncoding.EncodeToString`
  pub hex : String → String
  pub base64url : String → String
  -- `FillBytes` of a number into so many bytes
  pub fill_bytes : ℕ → ℕ → String
  -- `json.Marshal`
  pub marshal_jwks : List Jwk → Option String
  pub marshal_header : JwtHeader → Option String
  pub marshal_claims : Claims → Option String

-- What one call is given: the times at which it collects expired keys and at which it looks at the
-- clock (nanoseconds), what `ecdsa.GenerateKey` and `ecdsa.Sign` answer, and two random ids.
pub record Call : Type 0 where
  pub gc_time : ℕ
  pub now : ℕ
  pub generate_key : Option PrivateKey
  pub ecdsa_sign : PrivateKey → String → Option (ℕ × ℕ)
  pub subject_uuid : String
  pub token_uuid : String

-- `identityKeyMaterial`
pub record KeyMaterial : Type 0 where
  pub private_key : Option PrivateKey
  pub public_pem : String
  pub kid : String

module _ (t : Tools) where
  -- The key material of a private key, given its SPKI bytes.
  abbrev pub material : PrivateKey → String → KeyMaterial
  material priv spki =
      let public_pem = t.encode_pem spki in
      record { private_key = some priv; public_pem = public_pem; kid = t.hex (t.sha256 public_pem) }

  unfoldable pub generate_key_material : Call → Option KeyMaterial
  generate_key_material c = elim c.generate_key [
    | none ↦ none
    | some priv ↦ elim (t.marshal_spki priv) [ none ↦ none | some spki ↦ some (material priv spki) ]
  ]

  unfoldable pub jwk_of : String → KeyMaterial → PrivateKey → Jwk
  jwk_of use_for km priv = record {
    kty = "EC";
    crv = "P-256";
    alg = "ES256";
    use_for = use_for;
    kid = km.kid;
    x = t.base64url (t.fill_bytes 32 priv.x);
    y = t.base64url (t.fill_bytes 32 priv.y);
  }

  -- A key without its private key is an error.
  unfoldable pub jwks : String → List KeyMaterial → Option (List Jwk)
  jwks use_for [] = some []
  jwks use_for (km ∷ kms) =
      let rest = jwks use_for kms in
      elim km.private_key [
        | none ↦ none
        | some priv ↦ elim rest [ none ↦ none | some js ↦ some (jwk_of use_for km priv ∷ js) ]
      ]

  unfoldable pub jwks_document_for_keys : List KeyMaterial → String → Option String
  unfolding jwks
  jwks_document_for_keys kms use_for = elim (jwks use_for kms) [
    | none ↦ none
    | some js ↦ t.marshal_jwks js
  ]

  -- The header and the claims of a token, encoded.
  unfoldable pub signing_input : String → Claims → Option String
  signing_input kid claims =
      elim (t.marshal_header (record { alg = "ES256"; kid = kid; typ = "JWT" })) [
        | none ↦ none
        | some hb ↦ elim (t.marshal_claims claims) [
          | none ↦ none
          | some cb ↦ some (append (t.base64url hb) (append "." (t.base64url cb)))
        ]
      ]

  -- A nil private key is dereferenced by `ecdsa.Sign`.
  unfoldable pub sign_es256_jwt : Call → Option PrivateKey → String → Claims → Reply String
  unfolding signing_input
  sign_es256_jwt c priv kid claims = elim (signing_input kid claims) [
    | none ↦ err internal
    | some input ↦ elim priv [
      | none ↦ panic
      | some key ↦ elim (c.ecdsa_sign key (t.sha256 input)) [
        | none ↦ err internal
        | some rs ↦
            let sig = append (t.fill_bytes 32 rs.0) (t.fill_bytes 32 rs.1) in
            ok (append input (append "." (t.base64url sig)))
      ]
    ]
  ]

  unfoldable pub client_secret_display_hash : String → String
  client_secret_display_hash secret =
      let full = t.hex (t.sha256 secret) in
      if not (ltb (len full) 8)
      then append "sha256:" (append (slice full 0 8) "..")
      else append "sha256:" full

  -- `spiffe://` and the host of the issuer, or "".
  unfoldable pub resolve_subject_prefix : String → String
  resolve_subject_prefix issuer =
      let stripped = t.trim_space issuer in
      if empty_text stripped then "" else elim (t.hostname stripped) [
        | none ↦ ""
        | some name ↦
            let host = t.to_lower name in if empty_text host then "" else append "spiffe://" host
      ]
