-- ===== src/Forge/Expect/Rack/Replaced.antt =====
-- The racks after ReplaceAllExpectedRacks of internal/server/forge_server.go.
use nico_core_mock.Forge.Expect.Rack.{all_complete, put_racks, replace_all_expected_racks}
use nico_core_mock.GoMap.{GoMap, get, put}
use nico_core_mock.GoMap.Laws.{get-empty, get-put}
use nico_core_mock.Message.Expected.{ExpectedRack}
use nico_core_mock.Prelude.{
  Bool-cases, List, Option, String, [], ap, arith, if◌then◌else◌, inl, inr, none, refl, some, value,
  ◌==◌, ◌∙◌, ◌∷◌, ◌≡◌,
}
use nico_core_mock.Reply.{ok}
use nico_core_mock.Server.{Server}

-- The last rack of the list with this id, or else what is given.
unfoldable pub last_named :
    String → List (Option ExpectedRack) → Option ExpectedRack → Option ExpectedRack
last_named k [] o = o
last_named k (none ∷ xs) o = last_named k xs o
last_named k (some x ∷ xs) o = last_named k xs (if value x.rack_id == k then some x else o)

get-put_racks :
    (k : String) (xs : List (Option ExpectedRack)) (er : GoMap ExpectedRack)
    → get k (put_racks xs er) ≡ last_named k xs (get k er)
unfolding put_racks last_named
get-put_racks k [] er = refl
get-put_racks k (none ∷ xs) er = get-put_racks k xs er
get-put_racks k (some x ∷ xs) er =
    get-put_racks k xs (put (value x.rack_id) x er)
    ∙ ap (last_named k xs) (get-put (value x.rack_id) k x er)

-- Where ReplaceAllExpectedRacks succeeds, the racks are those of the request and no others: under
-- each id the last rack of the list that has it.
pub replace_all_expected_racks-content :
    (xs : List (Option ExpectedRack)) (f : Server) (k : String)
    → (replace_all_expected_racks (some xs) f).1 ≡ ok tt
    → get k (replace_all_expected_racks (some xs) f).0.er ≡ last_named k xs none
unfolding replace_all_expected_racks
replace_all_expected_racks-content xs f k done = elim (Bool-cases (all_complete xs)) [
  | inr bad ↦ absurd (ground arith)
  | inl good ↦
      rw (good, replace_all_expected_racks)
        (get-put_racks k xs [] ∙ ap (last_named k xs) (get-empty k))
]
