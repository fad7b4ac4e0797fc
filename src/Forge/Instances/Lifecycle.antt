-- ===== src/Forge/Instances/Lifecycle.antt =====
-- The mocked lifecycle that FindInstancesByIds of internal/server/forge_server.go moves on.
use nico_core_mock.Forge.Instances.{
  advance_all, advance_instance, find_instances_by_ids, advance_state,
}
use nico_core_mock.GoMap.{GoMap, get, put, values_at}
use nico_core_mock.GoMap.Laws.{get-put}
use nico_core_mock.Message.Compute.{
  Instance, InstanceStatus, TenantState, configuring, other_state, provisioning, ready,
}
use nico_core_mock.Prelude.{
  Bool, List, Option, Option-cases, String, [], ap, arith, count, eq_iff, false, inl, inr, map,
  if◌then◌else◌, map_option, nat_eq, sym, none, refl, some, suc, true, value, ℕ, ◌∷◌, ◌≡◌,
}
use nico_core_mock.Reply.{ok}
use nico_core_mock.Server.{Server}

-- Where the mocked lifecycle is after a number of reads. Provisioning takes two to get ready, by way
-- of configuring, which takes one; a state that is ready or none of these stays.
abbrev pub state_after : ℕ → TenantState → TenantState
state_after n provisioning =
    if nat_eq n 0 then provisioning else if nat_eq n 1 then configuring else ready
state_after n configuring = if nat_eq n 0 then configuring else ready
state_after n ready = ready
state_after n (other_state x) = other_state x

abbrev pub status_after : ℕ → InstanceStatus → InstanceStatus
status_after n s = record s { tenant = map_option (state_after n) s.tenant }

-- The instance with its state moved on, where it has one, and nothing else changed.
abbrev pub after_reads : ℕ → Instance → Instance
after_reads n i = record i { status = map_option (status_after n) i.status }

state_after-zero : (s : TenantState) → state_after 0 s ≡ s
state_after-zero provisioning = refl
state_after-zero configuring = refl
state_after-zero ready = refl
state_after-zero (other_state x) = refl

state_after-suc :
    (n : ℕ) (s : TenantState) → state_after n (advance_state s) ≡ state_after (suc n) s
unfolding advance_state
state_after-suc n provisioning = ground arith
state_after-suc n configuring = ground arith
state_after-suc n ready = refl
state_after-suc n (other_state x) = refl

after_reads-zero : (i : Instance) → after_reads 0 i ≡ i
after_reads-zero i = elim (Option-cases i.status) [
  | inl n ↦ ground (arith, n)
  | inr (s, n) ↦ elim (Option-cases s.tenant) [
    | inl k ↦ ground (arith, n, k)
    | inr (st, k) ↦ ground (arith, n, k, state_after-zero st)
  ]
]

after_reads-suc :
    (n : ℕ) (i : Instance) → after_reads n (advance_instance i) ≡ after_reads (suc n) i
unfolding advance_instance
after_reads-suc n i = elim (Option-cases i.status) [
  | inl e ↦ ground (arith, e)
  | inr (s, e) ↦ elim (Option-cases s.tenant) [
    | inl k ↦ ground (arith, e, k)
    | inr (st, k) ↦ ground (arith, e, k, state_after-suc n st)
  ]
]

get-advance_all :
    (ids : List String) (k : String) (m : GoMap Instance)
    → get k (advance_all ids m) ≡ map_option (after_reads (count k ids)) (get k m)
unfolding advance_all count
get-advance_all [] k m = elim (Option-cases (get k m)) [
  | inl e ↦ rw e refl
  | inr (i, e) ↦ rw e (ap some (sym (after_reads-zero i)))
]
get-advance_all (id ∷ ids) k m = elim (Option-cases (get id m)) [
  | inl e ↦ rw (e, advance_all) (ground (arith, get-advance_all ids k m, eq_iff id k))
  | inr (i, e) ↦
      rw (e, advance_all)
        (ground (
          arith,
          get-advance_all ids k (put id (advance_instance i) m),
          get-put id k (advance_instance i) m,
          after_reads-suc (count k ids) i,
          eq_iff id k,
        ))
]

-- After a read by ids each stored instance is where as many reads as its id was named take it: for a
-- provisioning one, configuring after one and ready from the second on, for a configuring one, ready
-- from the first on, and any other stays. Nothing else of an instance changes, none appears or goes,
-- and the reply has the instances as they are stored afterwards, in the order of the request.
pub find_instances_by_ids-advances :
    (ids : List (Option String)) (f : Server) (k : String)
    → (get k (find_instances_by_ids (some ids) f).0.ins
        ≡ map_option (after_reads (count k (map value ids))) (get k f.ins))
      × ((find_instances_by_ids (some ids) f).1
          ≡ ok (values_at (map value ids) (find_instances_by_ids (some ids) f).0.ins))
unfolding find_instances_by_ids
find_instances_by_ids-advances ids f k = (get-advance_all (map value ids) k f.ins, refl)

abbrev pub tenant_state : Instance → Option TenantState
tenant_state i = elim i.status [ none ↦ none | some s ↦ s.tenant ]

-- The states of the mocked lifecycle.
abbrev pub in_lifecycle : Option TenantState → Bool
in_lifecycle (some provisioning) = true
in_lifecycle (some configuring) = true
in_lifecycle (some ready) = true
in_lifecycle _ = false
