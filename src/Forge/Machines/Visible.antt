-- ===== src/Forge/Machines/Visible.antt =====
-- FindMachineIds of internal/server/forge_server.go.
use nico_core_mock.Env.{Env}
use nico_core_mock.Forge.Machines.{find_machine_ids, powered, visible_machine_ids}
use nico_core_mock.GoMap.{has, range_keys}
use nico_core_mock.GoMap.Laws.{count-range_keys}
use nico_core_mock.Message.{Payload}
use nico_core_mock.Prelude.{
  List, String, [], ap, arith, count, eq_iff, if◌then◌else◌, some, ◌&&◌, ◌∷◌, ◌≡◌,
}
use nico_core_mock.Reply.{ok}
use nico_core_mock.Server.{Server}

count-powered :
    (e : Env) (k : String) (ids : List String)
    → count k (powered e ids) ≡ (if e.is_powered_on k then count k ids else 0)
unfolding powered count
count-powered e k [] = ground arith
count-powered e k (id ∷ ids) =
    ground (arith, count-powered e k ids, eq_iff id k, ap e.is_powered_on)

-- FindMachineIds answers with each stored machine that libvirt knows once, and with no other id.
pub find_machine_ids-count :
    (e : Env) (req : Payload) (f : Server) (k : String) (ids : List String)
    → find_machine_ids e (some req) f ≡ ok ids
    → count k ids ≡ (if has k f.m && e.is_powered_on k then 1 else 0)
unfolding find_machine_ids visible_machine_ids
find_machine_ids-count e req f k ids h = ground (
  arith,
  e.go.sort-count k (powered e (range_keys e.go f.m)),
  count-powered e k (range_keys e.go f.m),
  count-range_keys e.go k f.m,
  visible-eq ids h,
)
  where
    visible-eq :
        (xs : List String)
        → find_machine_ids e (some req) f ≡ ok xs
        → count k xs ≡ count k (e.go.sort (powered e (range_keys e.go f.m)))
    visible-eq xs p = cc
