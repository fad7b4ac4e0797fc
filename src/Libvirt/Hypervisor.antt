-- ===== src/Libvirt/Hypervisor.antt =====
-- The libvirt daemon as internal/libvirt calls it through github.com/digitalocean/go-libvirt, and
-- Config, Connect and SanitizeEndpoint of internal/libvirt/client.go.
use nico_core_mock.Message.{Payload}
use nico_core_mock.Prelude.{
  Bool, List, Option, String, empty_text, if◌then◌else◌, nat_eq, not, ℕ, ◌&&◌, ◌*◌, ◌^◌,
}

-- `golibvirt.Domain`: the name and the 16 bytes of the UUID.
pub record Domain : Type 0 where
  pub name : String
  pub uuid : Payload

-- `golibvirt.StoragePool`, `golibvirt.StorageVol`
pub record StoragePool : Type 0 where
  pub name : String

pub record StorageVol : Type 0 where
  pub pool : String
  pub name : String

-- The calls, over the state of the daemon and its host. An error is `none`, or `false`.
pub record Hypervisor (W : Type 0) : Type 0 where
  -- `url.Parse` and `ConnectToURI`
  pub connect : String → W → Bool
  pub domain_lookup_by_name : String → W → Option Domain
  pub list_all_domains : W → Option (List Domain)
  -- `DomainGetState`, whether it is `DomainRunning`
  pub domain_running : Domain → W → Option Bool
  pub domain_destroy : Domain → W → W × Bool
  pub domain_create : Domain → W → W × Bool
  pub storage_pool_lookup_by_name : String → W → Option StoragePool
  pub storage_vol_lookup_by_name : StoragePool → String → W → Option StorageVol
  pub storage_vol_delete : StorageVol → W → W × Bool
  -- `StorageVolCreateXML`
  pub storage_vol_create : StoragePool → String → W → W × Option StorageVol
  pub storage_vol_upload : StorageVol → Payload → W → W × Bool
  -- `StorageVolResize`, with or without `StorageVolResizeAllocate`
  pub storage_vol_resize : StorageVol → ℕ → Bool → W → W × Bool
  -- `strings.TrimSpace`, `strings.ToLower`, `strings.Trim` of both quotes
  pub trim_space : String → String
  pub to_lower : String → String
  pub trim_quotes : String → String
  -- `uuid.FromBytes` and its text
  pub format_uuid : Payload → String
  -- `xml.Marshal` of a volume with this name, capacity and format
  pub volume_xml : String → ℕ → String → Option String

-- `Config`, but for the directory of the image cache
pub record Config : Type 0 where
  pub endpoint : String
  pub storage_pool : String
  pub default_volume_bytes : ℕ

abbrev pub default_volume_bytes : ℕ
default_volume_bytes = 20 * 2 ^ 30

module _ {W : Type 0} (h : Hypervisor W) where
  unfoldable pub sanitize_endpoint : String → String
  sanitize_endpoint endpoint = h.trim_quotes (h.trim_space endpoint)

  -- Whether a connection is made.
  unfoldable pub connects : String → W → Bool
  unfolding sanitize_endpoint
  connects endpoint w = let e = sanitize_endpoint endpoint in not (empty_text e) && h.connect e w

  -- `NewProvisioner`
  unfoldable pub new_provisioner : Config → Config
  unfolding sanitize_endpoint
  new_provisioner cfg = record {
    endpoint = sanitize_endpoint cfg.endpoint;
    storage_pool = if empty_text cfg.storage_pool then "default" else cfg.storage_pool;
    default_volume_bytes =
        if nat_eq cfg.default_volume_bytes 0
        then default_volume_bytes
        else cfg.default_volume_bytes;
  }

  -- `Enabled` of a provisioner that is not nil
  unfoldable pub enabled : Config → Bool
  enabled cfg = not (empty_text cfg.endpoint)
