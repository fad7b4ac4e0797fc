-- ===== src/Forge/Instances/Allocate.antt =====
-- The instances after AllocateInstance of internal/server/forge_server.go.
use nico_core_mock.Env.{Env}
use nico_core_mock.Forge.Instances.{
  allocate_instance, allocate_with, allocated_id, config_network, interface_statuses, new_instance,
  requested_interfaces, store_instance,
}
use nico_core_mock.Forge.Instances.Jobs.{schedule_libvirt_provision}
use nico_core_mock.Forge.Instances.Lifecycle.{tenant_state}
use nico_core_mock.GoMap.{GoMap, get, has}
use nico_core_mock.GoMap.Laws.{get-put}
use nico_core_mock.Message.Compute.{
  Instance, InstanceAllocationRequest, InstanceConfig, InterfaceConfig, InterfaceStatus,
  NetworkConfig, provisioning,
}
use nico_core_mock.Message.Network.{VpcPrefix}
use nico_core_mock.Prelude.{
  List, Option, Option-cases, String, [], ap, arith, false, if◌then◌else◌, inl, inr, length, none,
  refl, some, suc, ℕ, ◌==◌, ◌∷◌, ◌≡◌,
}
use nico_core_mock.Reply.{Reply, err, ok, panic, ◌>>=◌}
use nico_core_mock.Server.{Server}

abbrev pub status_interfaces : Instance → List InterfaceStatus
status_interfaces i = elim i.status [ none ↦ [] | some s ↦ s.interfaces ]

interface_statuses-length :
    (e : Env) (vp : GoMap VpcPrefix) (i : ℕ) (ifcs : List InterfaceConfig)
    (sts : List InterfaceStatus)
    → interface_statuses e vp i ifcs ≡ ok sts
    → length sts ≡ length ifcs
unfolding interface_statuses
interface_statuses-length e vp i [] sts h = ground arith
interface_statuses-length e vp i (ifc ∷ ifcs) [] h = absurd (ground arith)
interface_statuses-length e vp i (ifc ∷ ifcs) (st ∷ sts) h =
    ap suc (interface_statuses-length e vp (suc i) ifcs sts (ground arith))

requested_statuses-length :
    (e : Env) (vp : GoMap VpcPrefix) (c : Option InstanceConfig) (sts : List InterfaceStatus)
    → (requested_interfaces c >>= interface_statuses e vp 0) ≡ ok sts
    → (n : NetworkConfig) × (config_network c ≡ some n) × (length sts ≡ length n.interfaces)
unfolding requested_interfaces
requested_statuses-length e vp none sts h = absurd (ground arith)
requested_statuses-length e vp (some c) sts h = elim (Option-cases c.network) [
  | inl e' ↦ absurd (ground arith)
  | inr (n, e') ↦ (n, e', interface_statuses-length e vp 0 n.interfaces sts (ground arith))
]

-- The shape of a success: the id was free, the loop over the interfaces succeeded, and the machine id
-- was there.
allocate_ok :
    (e : Env) (req : InstanceAllocationRequest) (f : Server) (i : Instance)
    → (allocate_instance e (some req) f).1 ≡ ok i
    → (sts : List InterfaceStatus) × ((requested_interfaces req.config
          >>= interface_statuses e f.vp 0)
        ≡ ok sts)
      × (has (allocated_id e req.instance_id) f.ins ≡ false)
      × ((allocate_with e req (allocated_id e req.instance_id) (ok sts) f).1 ≡ ok i)
      × ((allocate_instance e (some req) f).0
          ≡ (allocate_with e req (allocated_id e req.instance_id) (ok sts) f).0)
unfolding allocate_instance
allocate_ok e req f i h =
    by_loop (requested_interfaces req.config >>= interface_statuses e f.vp 0) refl
  where
    nid : String
    nid = allocated_id e req.instance_id

    by_loop :
        (r : Reply (List InterfaceStatus))
        → (requested_interfaces req.config >>= interface_statuses e f.vp 0) ≡ r
        → (sts : List InterfaceStatus) × ((requested_interfaces req.config
              >>= interface_statuses e f.vp 0)
            ≡ ok sts)
          × (has nid f.ins ≡ false)
          × ((allocate_with e req nid (ok sts) f).1 ≡ ok i)
          × ((allocate_instance e (some req) f).0 ≡ (allocate_with e req nid (ok sts) f).0)
    by_loop (ok sts) p = (sts, p, ground arith, ground arith, ground arith)
    by_loop (err c) p = absurd (ground arith)
    by_loop panic p = absurd (ground arith)

stored_ok :
    (e : Env) (req : InstanceAllocationRequest) (nid k : String) (sts : List InterfaceStatus)
    (f : Server) (i : Instance)
    → (store_instance e req nid sts f).1 ≡ ok i
    → (i ≡ new_instance nid req sts)
      × (get k (store_instance e req nid sts f).0.ins ≡ (if nid == k then some i else get k f.ins))
unfolding store_instance schedule_libvirt_provision
stored_ok e req nid k sts f i h =
    let same : i ≡ new_instance nid req sts = ground arith in
    (same, ground (arith, get-put nid k (new_instance nid req sts) f.ins))

-- Where AllocateInstance succeeds, the id of the new instance was free; the instance that is returned
-- is the one that is stored under it, and no other instance changes; it is provisioning, its machine
-- and configuration are those of the request, which names a network, and it has as many interfaces as
-- the network asks for.
pub allocate_instance-stored :
    (e : Env) (req : InstanceAllocationRequest) (f : Server) (i : Instance) (k : String)
    → (allocate_instance e (some req) f).1 ≡ ok i
    → (has (allocated_id e req.instance_id) f.ins ≡ false)
      × (get k (allocate_instance e (some req) f).0.ins
          ≡ (if allocated_id e req.instance_id == k then some i else get k f.ins))
      × (tenant_state i ≡ some provisioning)
      × (i.machine_id ≡ req.machine_id)
      × (i.config ≡ req.config)
      × (n : NetworkConfig) × (config_network req.config ≡ some n)
      × (length (status_interfaces i) ≡ length n.interfaces)
unfolding allocate_with new_instance
allocate_instance-stored e req f i k h =
    let (sts, looped, free, done, after) = allocate_ok e req f i h in
    let nid = allocated_id e req.instance_id in
    let (same, stored) = stored_ok e req nid k sts f i done in
    let (n, network, many) = requested_statuses-length e f.vp req.config sts looped in
    (free, rw after stored, rw same refl, rw same refl, rw same refl, n, network, rw same many)
