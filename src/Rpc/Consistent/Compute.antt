-- ===== src/Rpc/Consistent/Compute.antt =====
-- The ids of stored instances, machines and instance types.
use nico_core_mock.Persist.Key
use nico_core_mock.Env.{Env}
use nico_core_mock.Forge.Instances.{
  advance_all, advance_instance, allocate_instance, allocate_with, allocated_id,
  find_instances_by_ids, new_instance, reconfigured, release_instance, store_instance,
  update_instance_config,
}
use nico_core_mock.Forge.Instances.Jobs.{schedule_libvirt_provision, schedule_libvirt_release}
use nico_core_mock.Forge.Types.{create_instance_type, delete_instance_type, new_instance_type}
use nico_core_mock.GoMap.{GoMap, get, has, put}
use nico_core_mock.GoMap.Keyed.{IsKeyed-put}
use nico_core_mock.GoMap.Laws.{get-delete, get-put}
use nico_core_mock.GoMap.Load.{IsKeyed}
use nico_core_mock.Message.Compute.{
  CreateInstanceTypeRequest, Instance, InstanceAllocationRequest, InstanceConfigUpdateRequest,
  InterfaceStatus,
}
use nico_core_mock.Persist.{persisted}
use nico_core_mock.Prelude.{
  Bool-cases, List, Option, Option-cases, String, [], arith, empty_text, eq_iff, false, inl, inr,
  map, none, refl, some, value, ◌∷◌, ◌≡◌,
}
use nico_core_mock.Reply.{Reply, err, ok, panic}
use nico_core_mock.Rpc.Consistent.Fresh.{IsFresh}
use nico_core_mock.Rpc.Consistent.Machines.{store_instance_machine-IsKeyed}
use nico_core_mock.Server.{Server}

store_instance-IsKeyed :
    (e : Env) (req : InstanceAllocationRequest) (nid : String) (sts : List InterfaceStatus)
    (f : Server)
    → empty_text nid ≡ false
    → IsKeyed Key.instance_id f.ins
    → IsKeyed Key.instance_id (store_instance e req nid sts f).0.ins
unfolding store_instance new_instance schedule_libvirt_provision
store_instance-IsKeyed e req nid sts f h w = record {
  at = λ k x p.
      ground (arith, get-put nid k (new_instance nid req sts) f.ins, w.at k x, eq_iff nid k);
}

pub update_instance_config-IsKeyed :
    (e : Env) (q : Option InstanceConfigUpdateRequest) (f : Server)
    → IsKeyed Key.instance_id f.ins
    → IsKeyed Key.instance_id (update_instance_config e q f).0.ins
unfolding update_instance_config reconfigured
update_instance_config-IsKeyed e none f w = w
update_instance_config-IsKeyed e (some req) f w =
    let id = value req.instance_id in
    elim (Option-cases (get id f.ins)) [
      | inl missing ↦ record { at = λ k x p. ground (arith, w.at k x) }
      | inr (old, found) ↦ record {
        at = λ k x p. ground (
          arith,
          get-put id k (reconfigured e req old) f.ins,
          w.at k x,
          w.at id old,
          eq_iff id k,
        );
      }
    ]

pub delete_instance_type-IsKeyed :
    (q : Option String) (f : Server)
    → IsKeyed Key.instance_type f.it
    → IsKeyed Key.instance_type (delete_instance_type q f).0.it
unfolding delete_instance_type
delete_instance_type-IsKeyed none f w = w
delete_instance_type-IsKeyed (some id) f w = record {
  at = λ k x p. ground (arith, get-delete id k f.it, w.at k x);
}

pub create_instance_type-IsKeyed :
    (e : Env) (q : Option CreateInstanceTypeRequest) (f : Server)
    → IsKeyed Key.instance_type f.it
    → IsKeyed Key.instance_type (create_instance_type e q f).0.it
unfolding create_instance_type new_instance_type
create_instance_type-IsKeyed e none f w = w
create_instance_type-IsKeyed e (some req) f w =
    let id = value req.id in
    record {
      at = λ k x p.
          ground (arith, get-put id k (new_instance_type e req) f.it, w.at k x, eq_iff id k);
    }

pub release_instance-IsKeyed :
    (q : Option (Option String)) (f : Server)
    → IsKeyed Key.instance_id f.ins
    → IsKeyed Key.instance_id (release_instance q f).0.ins
unfolding release_instance schedule_libvirt_release
release_instance-IsKeyed none f w = w
release_instance-IsKeyed (some none) f w = w
release_instance-IsKeyed (some (some id)) f w = record {
  at = λ k x p. ground (arith, get-delete id k f.ins, w.at k x);
}

advance_all-IsKeyed :
    (ids : List String) (m : GoMap Instance)
    → IsKeyed Key.instance_id m
    → IsKeyed Key.instance_id (advance_all ids m)
unfolding advance_all advance_instance
advance_all-IsKeyed [] m w = w
advance_all-IsKeyed (id ∷ ids) m w = elim (Option-cases (get id m)) [
  | inl e ↦ rw (e, advance_all) (advance_all-IsKeyed ids m w)
  | inr (i, e) ↦
      rw (e, advance_all)
        (advance_all-IsKeyed ids (put id (advance_instance i) m)
          (IsKeyed-put id (advance_instance i) m w (w.at id i e).0 (w.at id i e).1))
]

pub find_instances_by_ids-IsKeyed :
    (q : Option (List (Option String))) (f : Server)
    → IsKeyed Key.instance_id f.ins
    → IsKeyed Key.instance_id (find_instances_by_ids q f).0.ins
unfolding find_instances_by_ids
find_instances_by_ids-IsKeyed none f w = w
find_instances_by_ids-IsKeyed (some ids) f w = advance_all-IsKeyed (map value ids) f.ins w

-- A request for an instance names a machine, and neither id is "".
pub record IsSound (req : InstanceAllocationRequest) : Type 0 where
  pub instance_id : (id : String) → req.instance_id ≡ some id → empty_text id ≡ false
  pub machine_id : (mid : String) → req.machine_id ≡ some mid → empty_text mid ≡ false

allocated_id-nonempty :
    (e : Env) (o : Option String)
    → IsFresh e
    → ((id : String) → o ≡ some id → empty_text id ≡ false)
    → empty_text (allocated_id e o) ≡ false
allocated_id-nonempty e none fresh h = fresh.uuid
allocated_id-nonempty e (some id) fresh h = h id refl

-- A predicate that holds of the server before, and of what `store_instance` leaves, holds after.
allocate_with-cases {ℓ} :
    (P : Server → Type ℓ) (e : Env) (req : InstanceAllocationRequest) (nid : String)
    (r : Reply (List InterfaceStatus)) (f : Server)
    → P f
    → ((sts : List InterfaceStatus) → P (store_instance e req nid sts f).0)
    → P (allocate_with e req nid r f).0
unfolding allocate_with
allocate_with-cases P e req nid (ok sts) f before stored = stored sts
allocate_with-cases P e req nid (err c) f before stored = before
allocate_with-cases P e req nid panic f before stored = before

allocate_instance-cases {ℓ} :
    (P : Server → Type ℓ) (e : Env) (req : InstanceAllocationRequest) (f : Server)
    → P f
    → ((sts : List InterfaceStatus)
        → P (store_instance e req (allocated_id e req.instance_id) sts f).0)
    → P (allocate_instance e (some req) f).0
unfolding allocate_instance
allocate_instance-cases P e req f before stored =
    elim (Bool-cases (has (allocated_id e req.instance_id) f.ins)) [
      | inl taken ↦ rw (taken, allocate_instance) before
      | inr free ↦ rw (free, allocate_instance) (allocate_with-cases P e req _ _ f before stored)
    ]

abbrev pub IsSoundRequest : Option InstanceAllocationRequest → Type 0
IsSoundRequest none = Unit
IsSoundRequest (some req) = IsSound req

pub allocate_instance-IsKeyed :
    (e : Env) (q : Option InstanceAllocationRequest) (f : Server)
    → IsFresh e
    → IsSoundRequest q
    → IsKeyed Key.instance_id f.ins
    → IsKeyed Key.instance_id (allocate_instance e q f).0.ins
unfolding allocate_instance
allocate_instance-IsKeyed e none f fresh s w = w
allocate_instance-IsKeyed e (some req) f fresh s w =
    allocate_instance-cases (λ g. IsKeyed Key.instance_id g.ins) e req f w
      λ sts.
        store_instance-IsKeyed e req (allocated_id e req.instance_id) sts f
          (allocated_id-nonempty e req.instance_id fresh s.instance_id) w

pub allocate_instance_machine-IsKeyed :
    (e : Env) (q : Option InstanceAllocationRequest) (f : Server)
    → IsFresh e
    → IsSoundRequest q
    → IsKeyed Key.machine f.m
    → IsKeyed Key.machine (allocate_instance e q f).0.m
unfolding allocate_instance
allocate_instance_machine-IsKeyed e none f fresh s w = w
allocate_instance_machine-IsKeyed e (some req) f fresh s w =
    allocate_instance-cases (λ g. IsKeyed Key.machine g.m) e req f w
      λ sts.
        store_instance_machine-IsKeyed e req (allocated_id e req.instance_id) sts f fresh
          s.machine_id w

store_instance-persisted :
    (e : Env) (req : InstanceAllocationRequest) (nid : String) (sts : List InterfaceStatus)
    (f : Server)
    → persisted (store_instance e req nid sts f).0 ≡ record (persisted f) {
      ins = (store_instance e req nid sts f).0.ins;
      m = (store_instance e req nid sts f).0.m;
    }
unfolding store_instance schedule_libvirt_provision
store_instance-persisted e req nid sts f = ground arith

pub persisted-allocate_instance :
    (e : Env) (q : Option InstanceAllocationRequest) (f : Server)
    → persisted (allocate_instance e q f).0 ≡ record (persisted f) {
      ins = (allocate_instance e q f).0.ins;
      m = (allocate_instance e q f).0.m;
    }
unfolding allocate_instance
persisted-allocate_instance e none f = refl
persisted-allocate_instance e (some req) f =
    allocate_instance-cases (λ g. persisted g ≡ record (persisted f) { ins = g.ins; m = g.m }) e req
      f refl λ sts. store_instance-persisted e req (allocated_id e req.instance_id) sts f
