-- ===== src/Rpc/Consistent/Machines.antt =====
-- The ids of stored machines.
use nico_core_mock.Persist.Key
use nico_core_mock.Env.{Env}
use nico_core_mock.Forge.Instances.{instance_machine, store_instance}
use nico_core_mock.Forge.Instances.Jobs.{schedule_libvirt_provision}
use nico_core_mock.Forge.Machines.{
  associate_machines, ensure_all, find_machines_by_ids, powered, remove_association, set_types,
}
use nico_core_mock.GoMap.{GoMap, get, put}
use nico_core_mock.GoMap.Keyed.{IsKeyed-put}
use nico_core_mock.GoMap.Laws.{get-put}
use nico_core_mock.GoMap.Load.{IsKeyed}
use nico_core_mock.Message.Compute.{
  AssociateRequest, InstanceAllocationRequest, InterfaceStatus, Machine,
}
use nico_core_mock.Prelude.{
  List, Option, Option-cases, String, [], arith, empty_text, eq_iff, false, inl, inr, map, none,
  refl, some, subst, sym, value, ◌∙◌, ◌∷◌, ◌≡◌, ◌⊎◌,
}
use nico_core_mock.Rpc.Consistent.Fresh.{IsFresh}
use nico_core_mock.Server.{Server}

instance_machine-id :
    (e : Env) (mid : String) (o : Option Machine)
    → IsFresh e
    → ((x : Machine) → o ≡ some x → x.id ≡ some mid)
    → (instance_machine e mid o).id ≡ some mid
unfolding instance_machine
instance_machine-id e mid none fresh h = refl
instance_machine-id e mid (some x) fresh h = fresh.ensured x ∙ h x refl

pub store_instance_machine-IsKeyed :
    (e : Env) (req : InstanceAllocationRequest) (nid : String) (sts : List InterfaceStatus)
    (f : Server)
    → IsFresh e
    → ((mid : String) → req.machine_id ≡ some mid → empty_text mid ≡ false)
    → IsKeyed Key.machine f.m
    → IsKeyed Key.machine (store_instance e req nid sts f).0.m
unfolding store_instance schedule_libvirt_provision
store_instance_machine-IsKeyed e req nid sts f fresh h w = elim (Option-cases req.machine_id) [
  | inl missing ↦ record { at = λ k x p. ground (arith, w.at k x) }
  | inr (mid, given_id) ↦ record {
    at = λ k x p. ground (
      arith,
      get-put mid k (instance_machine e mid (get mid f.m)) f.m,
      w.at k x,
      h mid given_id,
      instance_machine-id e mid (get mid f.m) fresh (λ y found. (w.at mid y found).0),
      eq_iff mid k,
    );
  }
]

ensure_all-IsKeyed :
    (e : Env) (ids : List String) (m : GoMap Machine)
    → IsFresh e
    → IsKeyed Key.machine m
    → IsKeyed Key.machine (ensure_all e ids m)
unfolding ensure_all
ensure_all-IsKeyed e [] m fresh w = w
ensure_all-IsKeyed e (id ∷ ids) m fresh w = elim (Option-cases (get id m)) [
  | inl missing ↦ rw (missing, ensure_all) (ensure_all-IsKeyed e ids m fresh w)
  | inr (x, found) ↦
      rw (found, ensure_all)
        (ensure_all-IsKeyed e ids (put id (e.ensure_discovery x) m) fresh (
          IsKeyed-put id (e.ensure_discovery x) m w (fresh.ensured x ∙ (w.at id x found).0)
            (w.at id x found).1))
]

pub find_machines_by_ids-IsKeyed :
    (e : Env) (q : Option (List (Option String))) (f : Server)
    → IsFresh e
    → IsKeyed Key.machine f.m
    → IsKeyed Key.machine (find_machines_by_ids e q f).0.m
unfolding find_machines_by_ids
find_machines_by_ids-IsKeyed e none f fresh w = w
find_machines_by_ids-IsKeyed e (some ids) f fresh w =
    ensure_all-IsKeyed e (powered e (map value ids)) f.m fresh w

set_types-IsKeyed :
    (type_id : String) (mids : List String) (m : GoMap Machine)
    → IsKeyed Key.machine m
    → IsKeyed Key.machine (set_types type_id mids m)
unfolding set_types
set_types-IsKeyed t [] m w = w
set_types-IsKeyed t (mid ∷ mids) m w = elim (Option-cases (get mid m)) [
  | inl missing ↦ rw (missing, set_types) (set_types-IsKeyed t mids m w)
  | inr (x, found) ↦
      rw (found, set_types)
        (set_types-IsKeyed t mids (put mid (record x { instance_type_id = some t }) m) (
          IsKeyed-put mid (record x { instance_type_id = some t }) m w (w.at mid x found).0
            (w.at mid x found).1))
]

-- On every branch the machines are as before, or as the second loop leaves them.
associate_machines-m :
    (req : AssociateRequest) (f : Server)
    → ((associate_machines (some req) f).0.m ≡ f.m)
      ⊎ ((associate_machines (some req) f).0.m ≡ set_types req.instance_type_id req.machine_ids f.m)
unfolding associate_machines
associate_machines-m req f = ground arith

pub associate_machines-IsKeyed :
    (q : Option AssociateRequest) (f : Server)
    → IsKeyed Key.machine f.m
    → IsKeyed Key.machine (associate_machines q f).0.m
unfolding associate_machines
associate_machines-IsKeyed none f w = w
associate_machines-IsKeyed (some req) f w = elim (associate_machines-m req f) [
  | inl e ↦ subst (λ t. IsKeyed Key.machine t) (sym e) w
  | inr e ↦
      subst (λ t. IsKeyed Key.machine t) (sym e)
        (set_types-IsKeyed req.instance_type_id req.machine_ids f.m w)
]

pub remove_association-IsKeyed :
    (q : Option String) (f : Server)
    → IsKeyed Key.machine f.m
    → IsKeyed Key.machine (remove_association q f).0.m
unfolding remove_association
remove_association-IsKeyed none f w = w
remove_association-IsKeyed (some mid) f w = elim (Option-cases (get mid f.m)) [
  | inl missing ↦ record { at = λ k x p. ground (arith, w.at k x) }
  | inr (old, found) ↦ record {
    at = λ k x p. ground (
      arith,
      get-put mid k (record old { instance_type_id = none }) f.m,
      w.at k x,
      w.at mid old,
      eq_iff mid k,
    );
  }
]
