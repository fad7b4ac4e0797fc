-- ===== src/Libvirt/Volumes.antt =====
-- The volumes of internal/libvirt/provisioner.go and configdrive.go: names, sizes, creation, filling
-- and deletion.
use Prim.Native.String.{◌++◌ as append}
use nico_core_mock.Libvirt.Hypervisor.{Hypervisor, StoragePool, StorageVol, default_volume_bytes}
use nico_core_mock.Message.{Payload}
use nico_core_mock.Prelude.{
  Bool, Option, String, if◌then◌else◌, ltb, nat_eq, none, not, some, true, ℕ, ◌*◌, ◌+◌, ◌-◌, ◌/◌,
  ◌==◌, ◌||◌,
}

abbrev pub volume_name : String → String
volume_name machine_id = append machine_id "-root"

abbrev pub config_drive_volume_name : String → String
config_drive_volume_name machine_id = append machine_id "-config"

-- The larger of two capacities.
abbrev pub larger : ℕ → ℕ → ℕ
larger a capacity = if ltb capacity a then a else capacity

-- An image whose size is not known has none, or 0.
unfoldable pub root_volume_capacity : Option ℕ → ℕ → ℕ → ℕ
root_volume_capacity image_size image_capacity_bytes default_bytes =
    let base = if nat_eq default_bytes 0 then default_volume_bytes else default_bytes in
    let capacity = larger image_capacity_bytes base in
    elim image_size [ none ↦ capacity | some n ↦ larger n capacity ]

-- `isoVolumeCapacity` of a size that is not negative.
unfoldable pub iso_volume_capacity : ℕ → ℕ
iso_volume_capacity size =
    let capacity = (size + 2048 - 1) / 2048 * 2048 in
    if ltb capacity (64 * 1024) then 64 * 1024 else capacity

module _ {W : Type 0} (h : Hypervisor W) where
  unfoldable pub delete_volume_if_exists : StoragePool → String → W → W × Bool
  delete_volume_if_exists pool name w = elim (h.storage_vol_lookup_by_name pool name w) [
    | none ↦ (w, true)
    | some vol ↦ h.storage_vol_delete vol w
  ]

  unfoldable pub create_volume : StoragePool → String → ℕ → String → W → W × Option StorageVol
  create_volume pool name capacity format w = elim (h.volume_xml name capacity format) [
    | none ↦ (w, none)
    | some xml ↦ h.storage_vol_create pool xml w
  ]

  -- Only volumes of the formats qcow2 and raw grow, and only raw ones are allocated.
  unfoldable pub expand_root_volume : StorageVol → ℕ → String → W → W × Bool
  expand_root_volume vol capacity format w =
      if nat_eq capacity 0
      then (w, true)
      else if format == "qcow2" || format == "raw"
      then h.storage_vol_resize vol capacity (format == "raw") w
      else (w, true)

  -- The part of `ProvisionMachine` that makes the root volume and fills it; a volume that cannot be
  -- filled is deleted again.
  unfoldable pub make_root_volume :
      StoragePool → String → ℕ → String → Payload → W → W × Option StorageVol
  unfolding create_volume expand_root_volume
  make_root_volume pool name capacity format body w =
      let (created, made) = create_volume pool name capacity format w in
      elim made [
        | none ↦ (created, none)
        | some vol ↦
            let (filled, uploaded) = h.storage_vol_upload vol body created in
            let (grown, expanded) = expand_root_volume vol capacity format filled in
            if not uploaded
            then ((h.storage_vol_delete vol filled).0, none)
            else if not expanded
            then ((h.storage_vol_delete vol grown).0, none)
            else (grown, some vol)
      ]
