-- ===== src/Forge/Expect/Rack.antt =====
-- Expected racks of internal/server/forge_server.go.
pub mod Replaced
use nico_core_mock.Env.{Env}
use nico_core_mock.GoMap.{GoMap, delete, get, has, put, range_values}
use nico_core_mock.Message.Expected.{ExpectedRack}
use nico_core_mock.Prelude.{
  Bool, List, Option, String, [], empty_text, false, given, if◌then◌else◌, none, some, true, value,
  ◌&&◌, ◌∷◌,
}
use nico_core_mock.Reply.{Reply, err, invalid_argument, not_found, ok}
use nico_core_mock.Server.{Handler, Server}

unfoldable pub is_complete_rack : ExpectedRack → Bool
is_complete_rack x = given x.rack_id && given x.rack_profile_id

unfoldable pub add_expected_rack : Option ExpectedRack → Handler Unit
unfolding is_complete_rack
add_expected_rack none f = (f, err invalid_argument)
add_expected_rack (some req) f =
    if is_complete_rack req
    then (record f { er = put (value req.rack_id) req f.er }, ok tt)
    else (f, err invalid_argument)

unfoldable pub update_expected_rack : Option ExpectedRack → Handler Unit
unfolding is_complete_rack
update_expected_rack none f = (f, err invalid_argument)
update_expected_rack (some req) f =
    let id = value req.rack_id in
    if is_complete_rack req
    then (if has id f.er then (record f { er = put id req f.er }, ok tt) else (f, err not_found))
    else (f, err invalid_argument)

unfoldable pub delete_expected_rack : Option String → Handler Unit
delete_expected_rack none f = (f, err invalid_argument)
delete_expected_rack (some id) f =
    if empty_text id
    then (f, err invalid_argument)
    else if has id f.er
    then (record f { er = delete id f.er }, ok tt)
    else (f, err not_found)

unfoldable pub get_expected_rack : Option String → Server → Reply ExpectedRack
get_expected_rack none f = err invalid_argument
get_expected_rack (some id) f =
    if empty_text id
    then err invalid_argument
    else elim (get id f.er) [ none ↦ err not_found | some x ↦ ok x ]

unfoldable pub get_all_expected_racks : Env → Server → List ExpectedRack
get_all_expected_racks e f = range_values e.go f.er

abbrev pub is_complete_entry : Option ExpectedRack → Bool
unfolding is_complete_rack
is_complete_entry none = false
is_complete_entry (some x) = is_complete_rack x

-- The loop that validates the list, whose entries may be nil.
unfoldable pub all_complete : List (Option ExpectedRack) → Bool
unfolding is_complete_entry
all_complete [] = true
all_complete (x ∷ xs) = is_complete_entry x && all_complete xs

-- The loop that stores them. It meets no nil, as all entries are complete.
unfoldable pub put_racks : List (Option ExpectedRack) → GoMap ExpectedRack → GoMap ExpectedRack
put_racks [] er = er
put_racks (none ∷ xs) er = put_racks xs er
put_racks (some x ∷ xs) er = put_racks xs (put (value x.rack_id) x er)

unfoldable pub replace_all_expected_racks : Option (List (Option ExpectedRack)) → Handler Unit
unfolding all_complete put_racks
replace_all_expected_racks none f = (f, err invalid_argument)
replace_all_expected_racks (some xs) f =
    if all_complete xs
    then (record f { er = put_racks xs [] }, ok tt)
    else (f, err invalid_argument)

unfoldable pub delete_all_expected_racks : Handler Unit
delete_all_expected_racks f = (record f { er = [] }, ok tt)
