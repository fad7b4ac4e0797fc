-- ===== src/Example/Released.antt =====
-- A libvirt daemon whose volumes are a list of names in one pool.
use nico_core_mock.Libvirt.Domains.{
  canonical_machine_id, lookup_domain_by_machine_id, stop_domain_if_running,
}
use nico_core_mock.Libvirt.Hypervisor.{
  Config, Domain, Hypervisor, StoragePool, StorageVol, connects, enabled, sanitize_endpoint,
}
use nico_core_mock.Libvirt.Release.{delete_volumes, run_release, stop_if_found}
use nico_core_mock.Libvirt.Release.Gone.{Deletes, Released, run_release-Released}
use nico_core_mock.Libvirt.Volumes.{delete_volume_if_exists}
use nico_core_mock.Prelude.{
  Bool, Bool-cases, List, String, [], ap, arith, contains, false, if◌then◌else◌, inl, inr, none,
  refl, some, true, without, ◌==◌, ◌∷◌, ◌≡◌,
}

-- The names of the volumes in the pool, and whether the one domain runs.
abbrev Daemon : Type 0
Daemon = List String × Bool

abbrev pool : StoragePool
pool = record { name = "default" }

abbrev guest : Domain
guest = record { name = "machine-1"; uuid = "" }

abbrev hypervisor : Hypervisor Daemon
hypervisor = record {
  connect = λ e w. true;
  domain_lookup_by_name = λ n w. if n == "machine-1" then some guest else none;
  list_all_domains = λ w. some (guest ∷ []);
  domain_running = λ d w. some w.1;
  domain_destroy = λ d w. ((w.0, false), true);
  domain_create = λ d w. ((w.0, true), true);
  storage_pool_lookup_by_name = λ n w. if n == "default" then some pool else none;
  storage_vol_lookup_by_name =
      λ p n w. if contains n w.0 then some (record { pool = p.name; name = n }) else none;
  storage_vol_delete = λ v w. ((without v.name w.0, w.1), true);
  storage_vol_create = λ p x w. ((x ∷ w.0, w.1), some (record { pool = p.name; name = x }));
  storage_vol_upload = λ v b w. (w, true);
  storage_vol_resize = λ v n a w. (w, true);
  trim_space = λ x. x;
  to_lower = λ x. x;
  trim_quotes = λ x. x;
  format_uuid = λ x. x;
  volume_xml = λ n c f. some n;
}

contains-without :
    (k j : String) (xs : List String) → contains j xs ≡ false → contains j (without k xs) ≡ false
unfolding contains without
contains-without k j [] h = refl
contains-without k j (x ∷ xs) h = ground (arith, h, contains-without k j xs)

contains-without_same : (k : String) (xs : List String) → contains k (without k xs) ≡ false
unfolding contains without
contains-without_same k [] = refl
contains-without_same k (x ∷ xs) = ground (arith, contains-without_same k xs)

-- Whether the pool has a volume of this name.
abbrev volume_held : StoragePool → String → Daemon → Bool
volume_held p n w = contains n w.0

hypervisor-Deletes : Deletes hypervisor volume_held
hypervisor-Deletes = record {
  found = λ p n w e. ground (arith, e);
  gone = λ p n v w e d. elim (Bool-cases (contains n w.0)) [
    | inr b ↦ absurd (ground (arith, b, e))
    | inl b ↦
        let same : record { pool = p.name; name = n } ≡ v = ground (arith, b, e) in
        ground (arith, ap (λ (u : StorageVol). u.name) same, contains-without_same n w.0)
  ];
  others = λ p n v w e. ground (arith, e, contains-without v.name n w.0);
  pools = λ n v w. refl;
}

abbrev config : Config
config = record { endpoint = "qemu:///system"; storage_pool = "default"; default_volume_bytes = 0 }

run_release-Released_example :
    Released hypervisor volume_held config "machine-1"
      (run_release hypervisor config false "machine-1" ("machine-1-root" ∷ "disk" ∷ [], true)).0
unfolding run_release enabled canonical_machine_id connects sanitize_endpoint delete_volumes
    delete_volume_if_exists stop_if_found lookup_domain_by_machine_id stop_domain_if_running
    contains without
run_release-Released_example =
    run_release-Released hypervisor volume_held config false "machine-1"
      ("machine-1-root" ∷ "disk" ∷ [], true) hypervisor-Deletes refl refl refl
