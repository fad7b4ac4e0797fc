-- ===== src/Forge/Expect/Shelf.antt =====
-- Expected power shelves of internal/server/forge_server.go.
use nico_core_mock.Env.{Env}
use nico_core_mock.GoMap.{delete, get, has, put, range_values}
use nico_core_mock.Message.Expected.{ExpectedPowerShelf}
use nico_core_mock.Prelude.{
  Bool, List, Option, String, empty_text, given, if◌then◌else◌, none, not, some, value, ◌&&◌,
}
use nico_core_mock.Reply.{Reply, err, invalid_argument, not_found, ok}
use nico_core_mock.Server.{Handler, Server}

unfoldable pub is_complete_shelf : ExpectedPowerShelf → Bool
is_complete_shelf x =
    given x.expected_power_shelf_id
    && (not (empty_text x.bmc_mac_address) && not (empty_text x.shelf_serial_number))

unfoldable pub add_expected_power_shelf : Option ExpectedPowerShelf → Handler Unit
unfolding is_complete_shelf
add_expected_power_shelf none f = (f, err invalid_argument)
add_expected_power_shelf (some req) f =
    if is_complete_shelf req
    then (record f { eps = put (value req.expected_power_shelf_id) req f.eps }, ok tt)
    else (f, err invalid_argument)

unfoldable pub update_expected_power_shelf : Option ExpectedPowerShelf → Handler Unit
unfolding is_complete_shelf
update_expected_power_shelf none f = (f, err invalid_argument)
update_expected_power_shelf (some req) f =
    let id = value req.expected_power_shelf_id in
    if is_complete_shelf req
    then (if has id f.eps then (record f { eps = put id req f.eps }, ok tt) else (f, err not_found))
    else (f, err invalid_argument)

unfoldable pub delete_expected_power_shelf : Option (Option String) → Handler Unit
delete_expected_power_shelf none f = (f, err invalid_argument)
delete_expected_power_shelf (some id) f =
    if given id
    then (if has (value id) f.eps
        then (record f { eps = delete (value id) f.eps }, ok tt)
        else (f, err not_found))
    else (f, err invalid_argument)

unfoldable pub get_expected_power_shelf : Option (Option String) → Server → Reply ExpectedPowerShelf
get_expected_power_shelf none f = err invalid_argument
get_expected_power_shelf (some id) f =
    if given id
    then (elim (get (value id) f.eps) [ none ↦ err not_found | some x ↦ ok x ])
    else err invalid_argument

unfoldable pub get_all_expected_power_shelves : Env → Server → List ExpectedPowerShelf
get_all_expected_power_shelves e f = range_values e.go f.eps
