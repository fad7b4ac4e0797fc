-- ===== src/Serve/Started.antt =====
-- The first start of cmd/nico-core-mock: internal/config/config.go reads the inventory, and Run of
-- internal/server/server.go builds the server from it and from the state file.
use nico_core_mock.Persist.Key
use mathlib.Core.Option.{some-injective}
use nico_core_mock.Config.{ListedMachine, MachineInterface, Sources}
use nico_core_mock.Config.Load.{LoadedInventory, load_config}
use nico_core_mock.Config.Loaded.{HasIds, listed_id, load_config-ListsMachines}
use nico_core_mock.Env.{Env}
use nico_core_mock.Example.Runs.{calls}
use nico_core_mock.Forge.Expect.Linked.{Inventory, load_from_inventory, seed_machines}
use nico_core_mock.Forge.Types.{
  add_default_types, load_default_instance_types, new_default_instance_type,
}
use nico_core_mock.GoMap.{GoMap, get, has, put}
use nico_core_mock.GoMap.Keyed.{IsKeyed-empty, IsKeyed-load, IsKeyed-put}
use nico_core_mock.GoMap.Load.{IsKeyed}
use nico_core_mock.Message.Compute.{InstanceType, Machine}
use nico_core_mock.Persist.{Snapshot, apply_snapshot, persisted}
use nico_core_mock.Persist.Recovery.{IsConsistent, fresh_server}
use nico_core_mock.Prelude.{
  Bool, Bool-cases, List, Option-cases, String, [], ap, arith, empty_text, false, if◌then◌else◌,
  inl, inr, map, map_option, none, refl, some, subst, sym, ◌==◌, ◌∙◌, ◌∷◌, ◌≡◌,
}
use nico_core_mock.Reply.{Ending, crashed, refused, returned}
use nico_core_mock.Rpc.Consistent.Fresh.{IsFresh}
use nico_core_mock.Rpc.Consistent.Steps.{IsSoundRpc, step-IsConsistent}
use nico_core_mock.Rpc.Request.{Request}
use nico_core_mock.Rpc.Step.{step}
use nico_core_mock.Serve.{intercept, load_persisted_state, serve, start, with_types}
use nico_core_mock.Server.{Server}
use nico_core_mock.Statestore.Disk.{FileSystem, load_file}
use nico_core_mock.Statestore.Wire.{Codecs}

-- The part of a listed machine that the handlers read.
abbrev pub served_machine : ListedMachine → Machine
served_machine x = record {
  id = x.id;
  state = x.state;
  interfaces = map (λ (i : MachineInterface). i.mac_address) x.interfaces;
  discovery_info = x.discovery_info;
  instance_type_id = none;
}

unfoldable pub served_machines : GoMap ListedMachine → GoMap Machine
served_machines [] = []
served_machines ((k, x) ∷ m) = (k, served_machine x) ∷ served_machines m

abbrev pub served : LoadedInventory → Inventory
served inv = record {
  machines = served_machines inv.machines;
  expected_machines = inv.expected_machines;
  linked_expected_machines = inv.linked_expected_machines;
}

get-served_machines :
    (k : String) (m : GoMap ListedMachine)
    → get k (served_machines m) ≡ map_option served_machine (get k m)
unfolding get served_machines
get-served_machines k [] = refl
get-served_machines k ((j, x) ∷ m) = elim (Bool-cases (j == k)) [
  | inl b ↦ rw (b, get, served_machines) refl
  | inr b ↦ rw (b, get, served_machines) (get-served_machines k m)
]

served_machines-IsKeyed :
    (m : GoMap ListedMachine) → IsKeyed listed_id m → IsKeyed Key.machine (served_machines m)
served_machines-IsKeyed m w = record {
  at = λ k y g. elim (Option-cases (get k m)) [
    | inl n ↦ absurd (ground (arith, get-served_machines k m, n, g))
    | inr (x, found) ↦
        let e : some (served_machine x) ≡ some y =
          sym (ap (map_option served_machine) found) ∙ sym (get-served_machines k m) ∙ g in
        (
          ap (λ (z : Machine). z.id) (sym (some-injective (served_machine x) y e))
              ∙ (w.at k x found).0,
          (w.at k x found).1,
        )
  ];
}

seed_machines-IsKeyed :
    (e : Env) (ids : List String) (inv m : GoMap Machine)
    → IsFresh e
    → IsKeyed Key.machine inv
    → IsKeyed Key.machine m
    → IsKeyed Key.machine (seed_machines e ids inv m)
unfolding seed_machines
seed_machines-IsKeyed e [] inv m fresh i w = w
seed_machines-IsKeyed e (id ∷ ids) inv m fresh i w = elim (Option-cases (get id inv)) [
  | inl n ↦ rw (n, seed_machines) (seed_machines-IsKeyed e ids inv m fresh i w)
  | inr (x, found) ↦
      rw (found, seed_machines)
        (seed_machines-IsKeyed e ids inv (put id (e.ensure_discovery x) m) fresh i (
          IsKeyed-put id (e.ensure_discovery x) m w (fresh.ensured x ∙ (i.at id x found).0)
            (i.at id x found).1))
]

load_from_inventory-IsConsistent :
    (e : Env) (inv : Inventory) (enabled : Bool)
    → IsFresh e
    → IsKeyed Key.machine inv.machines
    → IsConsistent (persisted (load_from_inventory e (some inv) (fresh_server enabled)))
unfolding load_from_inventory
load_from_inventory-IsConsistent e inv enabled fresh i = record {
  v = IsKeyed-empty;
  ns = IsKeyed-empty;
  ins = IsKeyed-empty;
  m = seed_machines-IsKeyed e _ inv.machines [] fresh i IsKeyed-empty;
  vp = IsKeyed-empty;
  vpp = IsKeyed-empty;
  osi = IsKeyed-empty;
  oss = IsKeyed-empty;
  it = IsKeyed-empty;
}

-- Whatever the snapshot holds.
apply_snapshot-IsConsistent :
    (snap : Snapshot) (f : Server)
    → IsConsistent (persisted f)
    → IsConsistent (persisted (apply_snapshot (some snap) f))
unfolding apply_snapshot
apply_snapshot-IsConsistent snap f c = record {
  v = IsKeyed-load snap.vpcs f.v c.v;
  ns = IsKeyed-load snap.network_segments f.ns c.ns;
  ins = IsKeyed-load snap.instances f.ins c.ins;
  m = IsKeyed-load snap.machines f.m c.m;
  vp = IsKeyed-load snap.vpc_prefixes f.vp c.vp;
  vpp = IsKeyed-load snap.vpc_peerings f.vpp c.vpp;
  osi = IsKeyed-load snap.os_images f.osi c.osi;
  oss = IsKeyed-load snap.operating_systems f.oss c.oss;
  it = IsKeyed-load snap.instance_types f.it c.it;
}

default_type-IsKeyed :
    (e : Env) (id : String) (it : GoMap InstanceType)
    → empty_text id ≡ false
    → IsKeyed Key.instance_type it
    → IsKeyed Key.instance_type
        (if has id it then it else put id (new_default_instance_type e id) it)
unfolding new_default_instance_type
default_type-IsKeyed e id it h w = elim (Bool-cases (has id it)) [
  | inl b ↦ rw b w
  | inr b ↦ rw b (IsKeyed-put id (new_default_instance_type e id) it w refl h)
]

with_types-IsConsistent :
    (e : Env) (t : GoMap InstanceType) (f : Server)
    → IsConsistent (persisted f)
    → IsConsistent (persisted (with_types e t f))
unfolding with_types load_default_instance_types add_default_types
with_types-IsConsistent e (t ∷ ts) f c = c
with_types-IsConsistent e [] f c = record {
  v = c.v;
  ns = c.ns;
  ins = c.ins;
  m = c.m;
  vp = c.vp;
  vpp = c.vpp;
  osi = c.osi;
  oss = c.oss;
  it = default_type-IsKeyed e "hgx-h100-8x" _ refl (
      default_type-IsKeyed e "dgx-h100-4x" _ refl
        (default_type-IsKeyed e "dgx-h100-8x" f.it refl c.it));
}

module _ {D Raw Doc : Type 0} (fs : FileSystem D Doc) (cs : Codecs Raw Doc)
    (state_file service : String) where
  load_persisted_state-IsConsistent :
      (d : D) (f g : Server)
      → IsConsistent (persisted f)
      → load_persisted_state fs cs state_file service d f ≡ some g
      → IsConsistent (persisted g)
  unfolding load_persisted_state
  load_persisted_state-IsConsistent d f g c h = elim (Bool-cases (empty_text state_file)) [
    | inl b ↦ subst (λ s. IsConsistent (persisted s)) {x = f} {y = g} (ground (arith, b, h)) c
    | inr b ↦ elim (Option-cases (load_file fs cs state_file d)) [
      | inl n ↦ absurd (ground (arith, b, n, h))
      | inr (snap, n) ↦
          subst (λ s. IsConsistent (persisted s)) {x = apply_snapshot (some snap) f} {y = g}
            (ground (arith, b, n, h)) (apply_snapshot-IsConsistent snap f c)
    ]
  ]

  start-IsConsistent :
      (e : Env) (inv : Inventory) (enabled : Bool) (d : D) (f : Server)
      → IsFresh e
      → IsKeyed Key.machine inv.machines
      → start fs cs state_file service e (some inv) enabled d ≡ some f
      → IsConsistent (persisted f)
  unfolding start
  start-IsConsistent e inv enabled d f fresh i h =
      let seeded = load_from_inventory e (some inv) (fresh_server enabled) in
      elim (Option-cases (load_persisted_state fs cs state_file service d seeded)) [
        | inl n ↦ absurd (ground (arith, n, h))
        | inr (g, n) ↦
            subst (λ s. IsConsistent (persisted s)) {x = with_types e g.it g} {y = f}
              (ground (arith, n, h))
              (with_types-IsConsistent e g.it g (
                load_persisted_state-IsConsistent d seeded g
                  (load_from_inventory-IsConsistent e inv enabled fresh i) n))
      ]

  -- The calls of a run, as far as what they rely on goes.
  abbrev pub AreSane : List (Env × Request) → Type 0
  AreSane [] = Unit
  AreSane ((e, r) ∷ calls) = IsFresh e × IsSoundRpc r × AreSane calls

  serve-IsConsistent :
      (calls : List (Env × Request)) (f : Server) (d : D)
      → AreSane calls
      → IsConsistent (persisted f)
      → IsConsistent (persisted (serve fs cs state_file service calls f d).0)
  unfolding serve intercept
  serve-IsConsistent [] f d sane c = c
  serve-IsConsistent ((e, r) ∷ calls) f d (fresh, sound, rest) c =
      by_ending (step e r f).1 refl
        (λ file. serve-IsConsistent calls _ file rest (step-IsConsistent e r f fresh sound c))
    where
      by_ending :
          (how : Ending)
          → (step e r f).1 ≡ how
          → ((file : D)
              → IsConsistent
                  (persisted (serve fs cs state_file service calls (step e r f).0 file).0))
          → IsConsistent (persisted (serve fs cs state_file service ((e, r) ∷ calls) f d).0)
      by_ending returned ended ih = rw (ended, serve) (ih _)
      by_ending (refused code) ended ih = rw (ended, serve) (ih _)
      by_ending crashed ended ih = rw (ended, serve) c

  -- A server that starts from an inventory that Load has read, over whatever the state file holds,
  -- has every persisted message stored under its own id, which is not empty, and so it is after any
  -- sequence of calls in which no allocation asks for an empty instance id or names an empty machine
  -- id. Uuids and the random ids of Load are taken not to be empty, and completing the discovery
  -- information of a machine to keep its id.
  pub load_config-serve :
      (src : Sources) (path : String) (inv : LoadedInventory) (e : Env) (enabled : Bool) (d : D)
      (f : Server) (calls : List (Env × Request))
      → HasIds src
      → IsFresh e
      → AreSane calls
      → load_config src path ≡ some inv
      → start fs cs state_file service e (some (served inv)) enabled d ≡ some f
      → IsConsistent (persisted (serve fs cs state_file service calls f d).0)
  load_config-serve src path inv e enabled d f calls ids fresh sane loaded started =
      let keyed = (load_config-ListsMachines src path inv ids loaded).0 in
      serve-IsConsistent calls f d sane (
        start-IsConsistent e (served inv) enabled d f fresh
          (served_machines-IsKeyed inv.machines keyed) started)
