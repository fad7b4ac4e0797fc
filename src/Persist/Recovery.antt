-- ===== src/Persist/Recovery.antt =====
-- applySnapshot of internal/server/persist.go on what exportSnapshot has made.
use nico_core_mock.Persist.Key
use nico_core_mock.GoMap.{Runtime, get}
use nico_core_mock.GoMap.Load.{IsKeyed, get-load-range_values_empty}
use nico_core_mock.Persist.{Persisted, apply_snapshot, export_snapshot, persisted}
use nico_core_mock.Prelude.{Bool, String, [], some, ◌≡◌}
use nico_core_mock.Server.{Server}

-- Every persisted map stores its messages under their own ids, and none under "".
pub record IsConsistent (f : Persisted) : Type 0 where
  pub v : IsKeyed Key.vpc f.v
  pub ns : IsKeyed Key.segment f.ns
  pub ins : IsKeyed Key.instance_id f.ins
  pub m : IsKeyed Key.machine f.m
  pub vp : IsKeyed Key.prefix_id f.vp
  pub vpp : IsKeyed Key.peering f.vpp
  pub osi : IsKeyed Key.image f.osi
  pub oss : IsKeyed Key.system f.oss
  pub it : IsKeyed Key.instance_type f.it

-- The persisted maps of two servers have the same entries.
pub record SamePersisted (f g : Persisted) : Type 0 where
  pub v : (k : String) → get k f.v ≡ get k g.v
  pub ns : (k : String) → get k f.ns ≡ get k g.ns
  pub ins : (k : String) → get k f.ins ≡ get k g.ins
  pub m : (k : String) → get k f.m ≡ get k g.m
  pub vp : (k : String) → get k f.vp ≡ get k g.vp
  pub vpp : (k : String) → get k f.vpp ≡ get k g.vpp
  pub osi : (k : String) → get k f.osi ≡ get k g.osi
  pub oss : (k : String) → get k f.oss ≡ get k g.oss
  pub it : (k : String) → get k f.it ≡ get k g.it

abbrev pub fresh_server : Bool → Server
fresh_server enabled = record {
  v = [];
  ns = [];
  ins = [];
  m = [];
  tk = [];
  ibp = [];
  nvlp = [];
  em = [];
  eps = [];
  es = [];
  er = [];
  tt = [];
  vp = [];
  vpp = [];
  osi = [];
  oss = [];
  it = [];
  nsg = [];
  linked_expected_machines = [];
  provisioner = enabled;
  jobs = [];
}

-- For a server whose persisted maps hold their messages under their own ids, the exported snapshot
-- applied to a fresh server gives the same entries in each of the nine maps, whatever the order in
-- which the maps were visited.
pub apply_snapshot-export_snapshot :
    (go : Runtime) (f : Persisted) (enabled : Bool)
    → IsConsistent f
    → SamePersisted
        (persisted (apply_snapshot (some (export_snapshot go f)) (fresh_server enabled)))
        f
unfolding apply_snapshot export_snapshot
apply_snapshot-export_snapshot go f enabled c = record {
  v = λ k. get-load-range_values_empty Key.vpc go k f.v c.v;
  ns = λ k. get-load-range_values_empty Key.segment go k f.ns c.ns;
  ins = λ k. get-load-range_values_empty Key.instance_id go k f.ins c.ins;
  m = λ k. get-load-range_values_empty Key.machine go k f.m c.m;
  vp = λ k. get-load-range_values_empty Key.prefix_id go k f.vp c.vp;
  vpp = λ k. get-load-range_values_empty Key.peering go k f.vpp c.vpp;
  osi = λ k. get-load-range_values_empty Key.image go k f.osi c.osi;
  oss = λ k. get-load-range_values_empty Key.system go k f.oss c.oss;
  it = λ k. get-load-range_values_empty Key.instance_type go k f.it c.it;
}
