-- ===== src/Libvirt/Release/Gone.antt =====
-- What a release in internal/libvirt/provisioner.go leaves of a machine's volumes.
use nico_core_mock.Libvirt.Domains.{canonical_machine_id}
use nico_core_mock.Libvirt.Hypervisor.{
  Config, Hypervisor, StoragePool, StorageVol, connects, enabled,
}
use nico_core_mock.Libvirt.Release.{delete_volumes, run_release, stop_if_found}
use nico_core_mock.Libvirt.Volumes.{config_drive_volume_name, delete_volume_if_exists, volume_name}
use nico_core_mock.Prelude.{
  Bool, Bool-cases, Option-cases, String, ap, arith, empty_text, false, inl, inr, none, refl, some,
  subst, true, ◌∙◌, ◌≡◌,
}

module _ {W : Type 0} (h : Hypervisor W) (holds : StoragePool → String → W → Bool) where
  -- What libvirt documents of volumes, `holds` being whether a pool has a volume of this name: a
  -- volume that is there is found, a deletion that succeeds removes the volume, and no deletion adds
  -- one or touches the pools. The first says that a lookup fails for no other reason than absence.
  pub record Deletes : Type 0 where
    pub found :
        (pool : StoragePool) (name : String) (w : W)
        → h.storage_vol_lookup_by_name pool name w ≡ none
        → holds pool name w ≡ false
    pub gone :
        (pool : StoragePool) (name : String) (vol : StorageVol) (w : W)
        → h.storage_vol_lookup_by_name pool name w ≡ some vol
        → (h.storage_vol_delete vol w).1 ≡ true
        → holds pool name (h.storage_vol_delete vol w).0 ≡ false
    pub others :
        (pool : StoragePool) (name : String) (vol : StorageVol) (w : W)
        → holds pool name w ≡ false
        → holds pool name (h.storage_vol_delete vol w).0 ≡ false
    pub pools :
        (name : String) (vol : StorageVol) (w : W)
        → h.storage_pool_lookup_by_name name (h.storage_vol_delete vol w).0
          ≡ h.storage_pool_lookup_by_name name w

  delete_volume_if_exists-gone :
      (pool : StoragePool) (name : String) (w : W)
      → Deletes
      → (delete_volume_if_exists h pool name w).1 ≡ true
      → holds pool name (delete_volume_if_exists h pool name w).0 ≡ false
  unfolding delete_volume_if_exists
  delete_volume_if_exists-gone pool name w law done =
      elim (Option-cases (h.storage_vol_lookup_by_name pool name w)) [
        | inl n ↦ rw (n, delete_volume_if_exists) (law.found pool name w n)
        | inr (vol, n) ↦
            rw (n, delete_volume_if_exists) (law.gone pool name vol w n (ground (arith, n, done)))
      ]

  delete_volume_if_exists-others :
      (pool : StoragePool) (name other : String) (w : W)
      → Deletes
      → holds pool other w ≡ false
      → holds pool other (delete_volume_if_exists h pool name w).0 ≡ false
  unfolding delete_volume_if_exists
  delete_volume_if_exists-others pool name other w law absent =
      elim (Option-cases (h.storage_vol_lookup_by_name pool name w)) [
        | inl n ↦ rw (n, delete_volume_if_exists) absent
        | inr (vol, n) ↦ rw (n, delete_volume_if_exists) (law.others pool other vol w absent)
      ]

  delete_volume_if_exists-pools :
      (pool : StoragePool) (name other : String) (w : W)
      → Deletes
      → h.storage_pool_lookup_by_name other (delete_volume_if_exists h pool name w).0
        ≡ h.storage_pool_lookup_by_name other w
  unfolding delete_volume_if_exists
  delete_volume_if_exists-pools pool name other w law =
      elim (Option-cases (h.storage_vol_lookup_by_name pool name w)) [
        | inl n ↦ rw (n, delete_volume_if_exists) refl
        | inr (vol, n) ↦ rw (n, delete_volume_if_exists) (law.pools other vol w)
      ]

  -- The pool is there and has neither volume of the machine.
  abbrev pub Released : Config → String → W → Type 0
  Released cfg id w =
      (pool : StoragePool) × (h.storage_pool_lookup_by_name cfg.storage_pool w ≡ some pool)
      × (holds pool (volume_name id) w ≡ false)
      × (holds pool (config_drive_volume_name id) w ≡ false)

  delete_volumes-Released :
      (cfg : Config) (pool : StoragePool) (id : String) (w : W)
      → Deletes
      → h.storage_pool_lookup_by_name cfg.storage_pool w ≡ some pool
      → (delete_volumes h pool id w).1 ≡ true
      → Released cfg id (delete_volumes h pool id w).0
  unfolding delete_volumes
  delete_volumes-Released cfg pool id w law has_pool done =
      let root = volume_name id in
      let config = config_drive_volume_name id in
      let first = delete_volume_if_exists h pool root w in
      elim (Bool-cases first.1) [
        | inr b ↦ absurd (ground (arith, b, done))
        | inl b ↦
            rw (b, delete_volumes)
              (
                pool,
                delete_volume_if_exists-pools pool config cfg.storage_pool first.0 law
                    ∙ delete_volume_if_exists-pools pool root cfg.storage_pool w law
                    ∙ has_pool,
                delete_volume_if_exists-others pool config root first.0 law
                    (delete_volume_if_exists-gone pool root w law b),
                delete_volume_if_exists-gone pool config first.0 law (ground (arith, b, done)),
              )
      ]

  -- After a ReleaseMachine that reports success, of a provisioner that is enabled and for an id that
  -- is not blank, the storage pool is there and holds neither the root volume nor the config drive of
  -- the machine, whether or not its domain was found or could be stopped. The lookup of a volume is
  -- taken to fail only for a volume that is not there, and a deletion that succeeds to remove it.
  pub run_release-Released :
      (cfg : Config) (cancelled : Bool) (machine_id : String) (w : W)
      → Deletes
      → enabled h cfg ≡ true
      → empty_text (canonical_machine_id h machine_id) ≡ false
      → (run_release h cfg cancelled machine_id w).1 ≡ true
      → Released cfg
          (canonical_machine_id h machine_id)
          (run_release h cfg cancelled machine_id w).0
  unfolding run_release
  run_release-Released cfg cancelled machine_id w law on named done =
      let id = canonical_machine_id h machine_id in
      let stopped = stop_if_found h id w in
      elim (Bool-cases cancelled) [
        | inl c ↦ absurd (ground (arith, on, c, done))
        | inr c ↦ elim (Bool-cases (connects h cfg.endpoint w)) [
          | inr k ↦ absurd (ground (arith, on, c, named, k, done))
          | inl k ↦ elim (Option-cases (h.storage_pool_lookup_by_name cfg.storage_pool stopped)) [
            | inl n ↦ absurd (ground (arith, on, c, named, k, n, done))
            | inr (pool, n) ↦
                let same : delete_volumes h pool id stopped
                    ≡ run_release h cfg cancelled machine_id w =
                  ground (arith, on, c, named, k, n) in
                subst (λ r. Released cfg id r.0) {x = delete_volumes h pool id stopped}
                  {y = run_release h cfg cancelled machine_id w} same
                  (delete_volumes-Released cfg pool id stopped law n
                    (ap (λ (r : W × Bool). r.1) same ∙ done))
          ]
        ]
      ]
