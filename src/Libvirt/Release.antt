-- ===== src/Libvirt/Release.antt =====
-- ReleaseMachine of internal/libvirt/provisioner.go.
pub mod Gone
use nico_core_mock.Libvirt.Domains.{
  canonical_machine_id, lookup_domain_by_machine_id, stop_domain_if_running,
}
use nico_core_mock.Libvirt.Hypervisor.{Config, Hypervisor, StoragePool, connects, enabled}
use nico_core_mock.Libvirt.Volumes.{config_drive_volume_name, delete_volume_if_exists, volume_name}
use nico_core_mock.Prelude.{Bool, String, empty_text, false, if◌then◌else◌, none, not, some, true}

module _ {W : Type 0} (h : Hypervisor W) where
  -- A domain that is found is stopped; a failure is only logged.
  unfoldable pub stop_if_found : String → W → W
  unfolding lookup_domain_by_machine_id stop_domain_if_running
  stop_if_found machine_id w = elim (lookup_domain_by_machine_id h machine_id w) [
    | none ↦ w
    | some domain ↦ (stop_domain_if_running h domain w).0
  ]

  -- The deletion of both volumes of a machine.
  unfoldable pub delete_volumes : StoragePool → String → W → W × Bool
  unfolding delete_volume_if_exists
  delete_volumes pool machine_id w =
      let (w1, rooted) = delete_volume_if_exists h pool (volume_name machine_id) w in
      if rooted
      then delete_volume_if_exists h pool (config_drive_volume_name machine_id) w1
      else (w1, false)

  -- Given whether the context is cancelled.
  unfoldable pub run_release : Config → Bool → String → W → W × Bool
  unfolding enabled canonical_machine_id connects stop_if_found delete_volumes
  run_release cfg cancelled machine_id w =
      let id = canonical_machine_id h machine_id in
      let stopped = stop_if_found id w in
      if not (enabled h cfg)
      then (w, true)
      else if cancelled
      then (w, false)
      else if empty_text id
      then (w, true)
      else if not (connects h cfg.endpoint w)
      then (w, false)
      else elim (h.storage_pool_lookup_by_name cfg.storage_pool stopped) [
        | none ↦ (stopped, false)
        | some pool ↦ delete_volumes pool id stopped
      ]
