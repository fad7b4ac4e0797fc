-- ===== src/Forge/Keyset.antt =====
-- Tenant keysets: the Create, Update, Delete and Find handlers of internal/server/forge_server.go.
use nico_core_mock.Env.{Env}
use nico_core_mock.GoMap.{delete, get, has, put, range_keys, values_at}
use nico_core_mock.Message.{Payload}
use nico_core_mock.Message.Fabric.{TenantKeyset, TenantKeysetRequest}
use nico_core_mock.Prelude.{List, Option, String, [], given, if◌then◌else◌, none, some, value, ◌∷◌}
use nico_core_mock.Reply.{
  Reply, already_exists, answer, err, internal, invalid_argument, not_found, ok, panic,
}
use nico_core_mock.Server.{Handler, Server}

unfoldable pub create_tenant_keyset : Option TenantKeysetRequest → Handler TenantKeyset
create_tenant_keyset none f = (f, err invalid_argument)
create_tenant_keyset (some req) f =
    let nid = value req.keyset_identifier in
    if given req.keyset_identifier
    then (if has nid f.tk
        then (f, err already_exists)
        else let ntk = record req { keyset_identifier = some nid } in
          (record f { tk = put nid ntk f.tk }, ok ntk))
    else (f, err invalid_argument)

-- A missing keyset is reported as an internal error.
unfoldable pub update_tenant_keyset : Option TenantKeysetRequest → Handler Unit
update_tenant_keyset none f = (f, err invalid_argument)
update_tenant_keyset (some req) f =
    let eid = value req.keyset_identifier in
    if given req.keyset_identifier
    then (elim (get eid f.tk) [
      | none ↦ (f, err internal)
      | some k ↦
          let k' = record k { keyset_content = req.keyset_content; version = req.version } in
          (record f { tk = put eid k' f.tk }, ok tt)
    ])
    else (f, err invalid_argument)

unfoldable pub delete_tenant_keyset : Option (Option String) → Handler Unit
delete_tenant_keyset none f = (f, err invalid_argument)
delete_tenant_keyset (some id) f =
    if given id
    then (if has (value id) f.tk
        then (record f { tk = delete (value id) f.tk }, ok tt)
        else (f, err not_found))
    else (f, err invalid_argument)

unfoldable pub find_tenant_keyset_ids : Env → Option Payload → Server → Reply (List String)
find_tenant_keyset_ids e req f = answer req (λ _. range_keys e.go f.tk)

-- `id.KeysetId` for each element: a nil one is a nil dereference.
unfoldable pub present_ids : List (Option String) → Option (List String)
present_ids [] = some []
present_ids (none ∷ ids) = none
present_ids (some id ∷ ids) =
    let rest = present_ids ids in elim rest [ none ↦ none | some ks ↦ some (id ∷ ks) ]

unfoldable pub find_tenant_keysets_by_ids :
    Option (List (Option String)) → Server → Reply (List TenantKeyset)
unfolding present_ids
find_tenant_keysets_by_ids none f = err invalid_argument
find_tenant_keysets_by_ids (some ids) f = elim (present_ids ids) [
  | none ↦ panic
  | some ks ↦ ok (values_at ks f.tk)
]
