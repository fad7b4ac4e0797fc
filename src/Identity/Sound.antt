-- ===== src/Identity/Sound.antt =====
-- What the maps of tenant identity in internal/server/forge_server.go hold between two calls.
pub mod Steps
pub mod Runs
pub mod Known
use nico_core_mock.Identity.Config.{blank}
use nico_core_mock.Identity.Crypto.{KeyMaterial, PrivateKey, Tools, material}
use nico_core_mock.Identity.Slots.{OrgState, active_key, inactive_key}
use nico_core_mock.Identity.Slots.Laws.{OnSlot}
use nico_core_mock.Message.Identity.{IdentityConfig, IdentityResponse}
use nico_core_mock.Prelude.{String, contains, false, nat_eq, none, some, true, ℕ, ◌≡◌, ◌⊎◌}

module _ (t : Tools) where
  -- A key pair that `generateES256KeyMaterial` made: the id is the digest of the public key.
  pub record Genuine (km : KeyMaterial) : Type 0 where
    pub priv : PrivateKey
    pub spki : String
    pub marshalled : t.marshal_spki priv ≡ some spki
    pub made : km ≡ material t priv spki

  -- No key in the inactive slot, or an old key with the time of its expiry.
  abbrev pub Retired : OrgState → Type 0
  Retired s =
      ((inactive_key s ≡ none) × (s.non_active_slot_expires ≡ none))
      ⊎ ((km : KeyMaterial) × (e : ℕ) × (inactive_key s ≡ some km)
          × Genuine km
          × (s.non_active_slot_expires ≡ some e))

  pub record KeysSound (s : OrgState) : Type 0 where
    pub on_slot : OnSlot s
    pub key : KeyMaterial
    pub active : active_key s ≡ some key
    pub genuine : Genuine key
    pub retired : Retired s

  -- A configuration that has passed the checks of the handler.
  pub record Configured (s : OrgState) : Type 0 where
    pub resp : IdentityResponse
    pub cfg : IdentityConfig
    pub stored : s.cfg ≡ some resp
    pub config : resp.config ≡ some cfg
    pub issuer : blank t cfg.issuer ≡ false
    pub audience : contains cfg.default_audience cfg.allowed_audiences ≡ true
    pub ttl : nat_eq cfg.token_ttl_sec 0 ≡ false

  -- An organization that can sign: keys in its slots and a configuration.
  pub record Sound (s : OrgState) : Type 0 where
    pub keys_sound : KeysSound s
    pub configured : Configured s
