-- ===== src/Forge/Images.antt =====
-- OS images: ListOsImage, CreateOsImage, UpdateOsImage, DeleteOsImage and GetOsImage of
-- internal/server/forge_server.go. A stored image brings an operating system of the same id along.
pub mod Paired
use nico_core_mock.Env.{Env}
use nico_core_mock.Forge.Systems.{ensure_operating_system_stub}
use nico_core_mock.GoMap.{delete, get, has, put, range_values}
use nico_core_mock.Message.Compute.{OsImage, OsImageAttributes, image_ready}
use nico_core_mock.Prelude.{
  List, Option, String, empty_text, given, if◌then◌else◌, none, some, value,
}
use nico_core_mock.Reply.{Reply, already_exists, err, invalid_argument, not_found, ok}
use nico_core_mock.Server.{Handler, Server}

unfoldable pub list_os_image : Env → Server → List OsImage
list_os_image e f = range_values e.go f.osi

-- The attributes, whose id is filled in where the request has none.
unfoldable pub identified : String → OsImageAttributes → OsImageAttributes
identified nid a = if given a.id then a else record a { id = some nid }

abbrev pub ready_image : OsImageAttributes → OsImage
ready_image a = record { attributes = some a; status = image_ready }

unfoldable pub create_os_image : Env → Option OsImageAttributes → Handler OsImage
unfolding identified ensure_operating_system_stub
create_os_image e none f = (f, err invalid_argument)
create_os_image e (some req) f =
    let nid = if given req.id then value req.id else e.uuid in
    let attrs = identified nid req in
    if has nid f.osi then (f, err already_exists) else (
      record f {
        osi = put nid (ready_image attrs) f.osi;
        oss = ensure_operating_system_stub e nid attrs f.oss;
      },
      ok (ready_image attrs),
    )

unfoldable pub update_os_image : Env → Option OsImageAttributes → Handler OsImage
unfolding ensure_operating_system_stub
update_os_image e none f = (f, err invalid_argument)
update_os_image e (some req) f =
    let id = value req.id in
    if given req.id
    then (elim (get id f.osi) [
      | none ↦ (f, err not_found)
      | some img ↦
          let img' = record img { attributes = some req } in
          (
            record f { osi = put id img' f.osi; oss = ensure_operating_system_stub e id req f.oss },
            ok img',
          )
    ])
    else (f, err invalid_argument)

-- The operating system of the image goes with it.
unfoldable pub delete_os_image : Option (Option String) → Handler Unit
delete_os_image none f = (f, err invalid_argument)
delete_os_image (some id) f =
    if given id
    then (if has (value id) f.osi
        then (record f { osi = delete (value id) f.osi; oss = delete (value id) f.oss }, ok tt)
        else (f, err not_found))
    else (f, err invalid_argument)

unfoldable pub get_os_image : Option String → Server → Reply OsImage
get_os_image none f = err invalid_argument
get_os_image (some id) f =
    if empty_text id
    then err invalid_argument
    else elim (get id f.osi) [ none ↦ err not_found | some img ↦ ok img ]
