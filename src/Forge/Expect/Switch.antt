-- ===== src/Forge/Expect/Switch.antt =====
-- Expected switches of internal/server/forge_server.go.
use nico_core_mock.Env.{Env}
use nico_core_mock.GoMap.{delete, get, has, put, range_values}
use nico_core_mock.Message.Expected.{ExpectedSwitch}
use nico_core_mock.Prelude.{
  Bool, List, Option, String, empty_text, given, if◌then◌else◌, none, not, some, value, ◌&&◌,
}
use nico_core_mock.Reply.{Reply, err, invalid_argument, not_found, ok}
use nico_core_mock.Server.{Handler, Server}

unfoldable pub is_complete_switch : ExpectedSwitch → Bool
is_complete_switch x =
    given x.expected_switch_id
    && (not (empty_text x.bmc_mac_address) && not (empty_text x.switch_serial_number))

unfoldable pub add_expected_switch : Option ExpectedSwitch → Handler Unit
unfolding is_complete_switch
add_expected_switch none f = (f, err invalid_argument)
add_expected_switch (some req) f =
    if is_complete_switch req
    then (record f { es = put (value req.expected_switch_id) req f.es }, ok tt)
    else (f, err invalid_argument)

unfoldable pub update_expected_switch : Option ExpectedSwitch → Handler Unit
unfolding is_complete_switch
update_expected_switch none f = (f, err invalid_argument)
update_expected_switch (some req) f =
    let id = value req.expected_switch_id in
    if is_complete_switch req
    then (if has id f.es then (record f { es = put id req f.es }, ok tt) else (f, err not_found))
    else (f, err invalid_argument)

unfoldable pub delete_expected_switch : Option (Option String) → Handler Unit
delete_expected_switch none f = (f, err invalid_argument)
delete_expected_switch (some id) f =
    if given id
    then (if has (value id) f.es
        then (record f { es = delete (value id) f.es }, ok tt)
        else (f, err not_found))
    else (f, err invalid_argument)

unfoldable pub get_expected_switch : Option (Option String) → Server → Reply ExpectedSwitch
get_expected_switch none f = err invalid_argument
get_expected_switch (some id) f =
    if given id
    then (elim (get (value id) f.es) [ none ↦ err not_found | some x ↦ ok x ])
    else err invalid_argument

unfoldable pub get_all_expected_switches : Env → Server → List ExpectedSwitch
get_all_expected_switches e f = range_values e.go f.es
