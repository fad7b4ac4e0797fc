-- ===== src/Forge/Vpc.antt =====
-- VPCs: CreateVpc, UpdateVpc, DeleteVpc, FindVpcIds, FindVpcsByIds and FindVpcs of
-- internal/server/forge_server.go.
pub mod Found
use nico_core_mock.Env.{Env}
use nico_core_mock.Forge.Ids.{choose_id}
use nico_core_mock.GoMap.{delete, get, has, put, range_keys, range_values, values_at}
use nico_core_mock.Message.{Payload}
use nico_core_mock.Message.Network.{Vpc, VpcCreationRequest, VpcSearchQuery, VpcUpdateRequest}
use nico_core_mock.Prelude.{
  List, Option, String, [], empty_text, given, if◌then◌else◌, map, none, some, value, ◌==◌, ◌∷◌,
}
use nico_core_mock.Reply.{Reply, already_exists, answer, err, invalid_argument, not_found, ok}
use nico_core_mock.Server.{Handler, Server}

abbrev pub default_vpc_id : String
default_vpc_id = "00000000-0000-4000-8000-000000000000"

unfoldable pub new_vpc : String → VpcCreationRequest → Vpc
new_vpc nid req = record {
  id = some nid;
  name = req.name;
  tenant_organization_id = req.tenant_organization_id;
  network_virtualization_type = req.network_virtualization_type;
  routing_profile_type = req.routing_profile_type;
  network_security_group_id = req.network_security_group_id;
  status = elim req.vni [ none ↦ none | some n ↦ some (record { vni = some n }) ];
}

unfoldable pub create_vpc : Env → Option VpcCreationRequest → Handler Vpc
unfolding choose_id new_vpc
create_vpc e none f = (f, err invalid_argument)
create_vpc e (some req) f =
    let nid = choose_id e default_vpc_id req.id f.v in
    if empty_text req.name
    then (f, err invalid_argument)
    else if has nid f.v
    then (f, err already_exists)
    else (record f { v = put nid (new_vpc nid req) f.v }, ok (new_vpc nid req))

unfoldable pub rename_vpc : String → Vpc → Vpc
rename_vpc name nv = if empty_text name then nv else record nv { name = name }

unfoldable pub update_vpc : Option VpcUpdateRequest → Handler Unit
unfolding rename_vpc
update_vpc none f = (f, err invalid_argument)
update_vpc (some req) f = elim req.id [
  | none ↦ (f, err invalid_argument)
  | some id ↦ elim (get id f.v) [
    | none ↦ (f, err not_found)
    | some nv ↦ (record f { v = put id (rename_vpc req.name nv) f.v }, ok tt)
  ]
]

-- The request is nil, or wraps an id that may be nil.
unfoldable pub delete_vpc : Option (Option String) → Handler Unit
delete_vpc (some (some id)) f =
    if has id f.v then (record f { v = delete id f.v }, ok tt) else (f, err not_found)
delete_vpc _ f = (f, err invalid_argument)

unfoldable pub find_vpc_ids : Env → Option Payload → Server → Reply (List String)
find_vpc_ids e req f = answer req (λ _. range_keys e.go f.v)

unfoldable pub find_vpcs_by_ids : Option (List (Option String)) → Server → Reply (List Vpc)
find_vpcs_by_ids req f = answer req (λ ids. values_at (map value ids) f.v)

unfoldable pub named_vpcs : String → List Vpc → List Vpc
named_vpcs name [] = []
named_vpcs name (nv ∷ vs) =
    let rest = named_vpcs name vs in if nv.name == name then nv ∷ rest else rest

-- A name in the query takes the place of the id: the result of the lookup by id is dropped.
unfoldable pub matching_vpcs : Env → VpcSearchQuery → Server → List Vpc
unfolding named_vpcs
matching_vpcs e req f = elim req.name [
  | some name ↦ named_vpcs name (range_values e.go f.v)
  | none ↦ if given req.id then values_at (value req.id ∷ []) f.v else range_values e.go f.v
]

unfoldable pub find_vpcs : Env → Option VpcSearchQuery → Server → Reply (List Vpc)
unfolding matching_vpcs
find_vpcs e req f = answer req (λ q. matching_vpcs e q f)
