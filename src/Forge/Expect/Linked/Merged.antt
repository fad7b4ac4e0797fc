-- ===== src/Forge/Expect/Linked/Merged.antt =====
-- The ids that GetAllExpectedMachinesLinked of internal/server/forge_server.go links.
use nico_core_mock.Env.{Env}
use nico_core_mock.Forge.Expect.Linked.{
  get_all_expected_machines_linked, linked_machine, seeded_ids, unseeded_links,
}
use nico_core_mock.GoMap.{GoMap, get, has, range_keys}
use nico_core_mock.GoMap.Laws.{count-range_keys}
use nico_core_mock.GoMap.Load.{IsKeyed}
use nico_core_mock.Message.Compute.{Machine}
use nico_core_mock.Message.Expected.{ExpectedMachine, LinkedExpectedMachine}
use nico_core_mock.Prelude.{
  List, Option, Option-cases, String, [], arith, contains, count, eq_iff, if◌then◌else◌, inl, inr,
  not, ◌&&◌, ◌++◌, ◌+◌, ◌∷◌, ◌≡◌,
}
use nico_core_mock.Server.{Server}

abbrev pub own_id : ExpectedMachine → Option String
own_id em = em.id

seeded_ids-append :
    (k : String) (xs ys : List LinkedExpectedMachine)
    → count k (seeded_ids (xs ++ ys)) ≡ count k (seeded_ids xs) + count k (seeded_ids ys)
unfolding seeded_ids count
seeded_ids-append k [] ys = ground arith
seeded_ids-append k (x ∷ xs) ys = ground (arith, seeded_ids-append k xs ys)

-- The loop links each visited machine whose id is not seeded.
unseeded_links-count :
    (e : Env) (m : GoMap Machine) (seeded : List String) (ids : List String)
    (ems : GoMap ExpectedMachine) (k : String)
    → IsKeyed own_id ems
    → count k (seeded_ids (unseeded_links e m seeded ids ems))
      ≡ (if has k ems && not (contains k seeded) then count k ids else 0)
unfolding unseeded_links seeded_ids count linked_machine
unseeded_links-count e m seeded [] ems k w = ground arith
unseeded_links-count e m seeded (id ∷ ids) ems k w = elim (Option-cases (get id ems)) [
  | inl missing ↦
      rw (missing, unseeded_links)
        (ground (arith, unseeded_links-count e m seeded ids ems k w, eq_iff id k))
  | inr (em, found) ↦
      rw (found, unseeded_links)
        (ground (arith, unseeded_links-count e m seeded ids ems k w, w.at id em found, eq_iff id k))
]

-- Where each expected machine is stored under its own id, the answer links the id of each stored
-- machine that the inventory does not link once, besides the links of the inventory, and no other id.
pub get_all_expected_machines_linked-count :
    (e : Env) (f : Server) (k : String)
    → IsKeyed own_id f.em
    → count k (seeded_ids (get_all_expected_machines_linked e f))
      ≡ count k (seeded_ids f.linked_expected_machines)
        + (if has k f.em && not (contains k (seeded_ids f.linked_expected_machines)) then 1 else 0)
unfolding get_all_expected_machines_linked
get_all_expected_machines_linked-count e f k w = ground (
  arith,
  seeded_ids-append k f.linked_expected_machines
      (unseeded_links e f.m (seeded_ids f.linked_expected_machines) (range_keys e.go f.em) f.em),
  unseeded_links-count e f.m (seeded_ids f.linked_expected_machines) (range_keys e.go f.em) f.em k
      w,
  count-range_keys e.go k f.em,
)
