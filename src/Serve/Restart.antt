-- ===== src/Serve/Restart.antt =====
-- The start-up of internal/server/server.go after earlier calls.
use nico_core_mock.Persist.Key
use nico_core_mock.Env.{Env}
use nico_core_mock.Forge.Expect.Linked.{Inventory, load_from_inventory}
use nico_core_mock.Forge.Types.{load_default_instance_types}
use nico_core_mock.GoMap.{GoMap, Runtime, get}
use nico_core_mock.GoMap.Load.{get-load-range_values}
use nico_core_mock.Message.Compute.{InstanceType, Machine}
use nico_core_mock.Persist.{Persisted, Snapshot, apply_snapshot, export_snapshot, persisted}
use nico_core_mock.Persist.Recovery.{IsConsistent, fresh_server}
use nico_core_mock.Prelude.{
  Bool, List, Option, String, [], ap, arith, empty_text, false, none, refl, some, true, ◌∷◌, ◌≡◌,
}
use nico_core_mock.Rpc.Request.{Request}
use nico_core_mock.Rpc.Step.{reads}
use nico_core_mock.Serve.{load_persisted_state, serve, start, with_types}
use nico_core_mock.Serve.Durable.{AreSound, IsDurable, IsWorking, serve-IsDurable}
use nico_core_mock.Server.{Server}
use nico_core_mock.Statestore.Disk.{FileSystem, load_file}
use nico_core_mock.Statestore.Wire.{Codecs}

-- `g` has every entry of the persisted maps of `f`, and in seven of them no other. Machines of the
-- inventory may be there besides, and so may default instance types.
pub record Restored (f g : Server) : Type 0 where
  pub v : (k : String) → get k g.v ≡ get k f.v
  pub ns : (k : String) → get k g.ns ≡ get k f.ns
  pub ins : (k : String) → get k g.ins ≡ get k f.ins
  pub vp : (k : String) → get k g.vp ≡ get k f.vp
  pub vpp : (k : String) → get k g.vpp ≡ get k f.vpp
  pub osi : (k : String) → get k g.osi ≡ get k f.osi
  pub oss : (k : String) → get k g.oss ≡ get k f.oss
  pub m : (k : String) (x : Machine) → get k f.m ≡ some x → get k g.m ≡ some x
  pub it : (k : String) (x : InstanceType) → get k f.it ≡ some x → get k g.it ≡ some x

-- The inventory fills none of the persisted maps but that of the machines.
load_from_inventory-persisted :
    (e : Env) (inv : Option Inventory) (enabled : Bool)
    → persisted (load_from_inventory e inv (fresh_server enabled))
      ≡ record (persisted (fresh_server enabled)) {
        m = (load_from_inventory e inv (fresh_server enabled)).m;
      }
unfolding load_from_inventory
load_from_inventory-persisted e none enabled = refl
load_from_inventory-persisted e (some inv) enabled = refl

-- A snapshot laid over a server that has machines only.
abbrev laid_over : Runtime → Persisted → Server → Server
laid_over go p f = apply_snapshot (some (export_snapshot go p)) f

laid_over-Restored :
    (go : Runtime) (f g : Server)
    → IsConsistent (persisted f)
    → persisted g ≡ record (persisted (fresh_server true)) { m = g.m }
    → Restored f (laid_over go (persisted f) g)
unfolding apply_snapshot export_snapshot get
laid_over-Restored go f g c blank = record {
  v = λ k. ground (
    arith,
    ap (λ (p : Persisted). get k p.v) blank,
    get-load-range_values Key.vpc go k f.v g.v c.v,
  );
  ns = λ k. ground (
    arith,
    ap (λ (p : Persisted). get k p.ns) blank,
    get-load-range_values Key.segment go k f.ns g.ns c.ns,
  );
  ins = λ k. ground (
    arith,
    ap (λ (p : Persisted). get k p.ins) blank,
    get-load-range_values Key.instance_id go k f.ins g.ins c.ins,
  );
  vp = λ k. ground (
    arith,
    ap (λ (p : Persisted). get k p.vp) blank,
    get-load-range_values Key.prefix_id go k f.vp g.vp c.vp,
  );
  vpp = λ k. ground (
    arith,
    ap (λ (p : Persisted). get k p.vpp) blank,
    get-load-range_values Key.peering go k f.vpp g.vpp c.vpp,
  );
  osi = λ k. ground (
    arith,
    ap (λ (p : Persisted). get k p.osi) blank,
    get-load-range_values Key.image go k f.osi g.osi c.osi,
  );
  oss = λ k. ground (
    arith,
    ap (λ (p : Persisted). get k p.oss) blank,
    get-load-range_values Key.system go k f.oss g.oss c.oss,
  );
  m = λ k x p. ground (arith, get-load-range_values Key.machine go k f.m g.m c.m);
  it = λ k x p. ground (arith, get-load-range_values Key.instance_type go k f.it g.it c.it);
}

-- The default types are added where no type was stored.
with_types-Restored :
    (e : Env) (f g : Server) (t : GoMap InstanceType)
    → g.it ≡ t
    → Restored f g
    → Restored f (with_types e t g)
unfolding with_types load_default_instance_types get
with_types-Restored e f g (t ∷ ts) same r = r
with_types-Restored e f g [] same r = record {
  v = r.v;
  ns = r.ns;
  ins = r.ins;
  vp = r.vp;
  vpp = r.vpp;
  osi = r.osi;
  oss = r.oss;
  m = r.m;
  it = λ k x p. ground (arith, r.it k x p, ap (get k) same);
}

module _ {D Raw Doc : Type 0} (fs : FileSystem D Doc) (cs : Codecs Raw Doc)
    (state_file service : String) where
  start-eq :
      (e : Env) (inv : Option Inventory) (enabled : Bool) (d : D) (snap : Snapshot)
      → empty_text state_file ≡ false
      → load_file fs cs state_file d ≡ some snap
      → (let g = apply_snapshot (some snap) (load_from_inventory e inv (fresh_server enabled)) in
          start fs cs state_file service e inv enabled d ≡ some (with_types e g.it g))
  unfolding start load_persisted_state
  start-eq e inv enabled d snap named reads = ground arith

  -- After calls from a server whose state file is up to date, of which the last may be a crash, a
  -- restart succeeds, whatever the inventory, and the restarted server has every entry that the
  -- persisted maps had: VPCs, segments, instances, prefixes, peerings, OS images and operating systems
  -- exactly, and machines and instance types at least. Before the calls every persisted message is
  -- under its own id. The state file has a name and saves succeed. No call is FindMachinesByIds, and
  -- no allocation asks for an empty instance id or names an empty machine id. Uuids are not empty,
  -- and completing the discovery information of a machine keeps its id.
  pub restart-Restored :
      (calls : List (Env × Request)) (f : Server) (d : D) (e : Env) (inv : Option Inventory)
      (enabled : Bool)
      → empty_text state_file ≡ false
      → IsWorking fs cs state_file service
      → AreSound fs cs state_file service calls
      → IsDurable fs cs state_file service (f, d)
      → (g : Server) × (start fs cs state_file service e inv enabled
            (serve fs cs state_file service calls f d).1
          ≡ some g)
        × Restored (serve fs cs state_file service calls f d).0 g
  restart-Restored calls f d e inv enabled named works sound s =
      let after = serve-IsDurable fs cs state_file service calls f d named works sound s in
      let last = serve fs cs state_file service calls f d in
      let blank = load_from_inventory e inv (fresh_server enabled) in
      let g = laid_over after.saved.go (persisted last.0) blank in
      (
        with_types e g.it g,
        start-eq e inv enabled last.1 _ named after.saved.reads_back,
        with_types-Restored e last.0 g g.it refl (
            laid_over-Restored after.saved.go last.0 blank after.consistent
              (load_from_inventory-persisted e inv enabled)),
      )
