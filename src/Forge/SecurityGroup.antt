-- ===== src/Forge/SecurityGroup.antt =====
-- Network security groups: the Create, Update, Delete and Find handlers and
-- GetNetworkSecurityGroupPropagationStatus of internal/server/forge_server.go.
use nico_core_mock.Env.{Env}
use nico_core_mock.Forge.Ids.{choose_id}
use nico_core_mock.GoMap.{GoMap, delete, get, has, put, range_keys}
use nico_core_mock.Message.Network.{
  CreateNetworkSecurityGroupRequest, NetworkSecurityGroup, UpdateNetworkSecurityGroupRequest,
}
use nico_core_mock.Prelude.{
  List, Option, String, [], empty_text, given, if◌then◌else◌, none, or_else, some, value, ◌∷◌,
}
use nico_core_mock.Reply.{Reply, already_exists, answer, err, invalid_argument, not_found, ok}
use nico_core_mock.Server.{Handler, Server}

abbrev pub default_network_security_group_id : String
default_network_security_group_id = "00000000-0000-4000-8004-000000000000"

abbrev pub default_tenant_organization_id : String
default_tenant_organization_id = "00000000-0000-4000-d000-000000000000"

unfoldable pub new_group : String → CreateNetworkSecurityGroupRequest → NetworkSecurityGroup
new_group nid req = record {
  id = nid;
  tenant_organization_id = req.tenant_organization_id;
  metadata = req.metadata;
  version = "1";
  attributes = req.attributes;
}

unfoldable pub create_network_security_group :
    Env → Option CreateNetworkSecurityGroupRequest → Handler NetworkSecurityGroup
unfolding choose_id new_group
create_network_security_group e none f = (f, err invalid_argument)
create_network_security_group e (some req) f =
    let nid = choose_id e default_network_security_group_id req.id f.nsg in
    if has nid f.nsg
    then (f, err already_exists)
    else (record f { nsg = put nid (new_group nid req) f.nsg }, ok (new_group nid req))

unfoldable pub updated_group :
    Env → UpdateNetworkSecurityGroupRequest → NetworkSecurityGroup → NetworkSecurityGroup
updated_group e req n = record n {
  metadata = or_else req.metadata n.metadata;
  attributes = or_else req.attributes n.attributes;
  version = e.nanos;
}

unfoldable pub update_network_security_group :
    Env → Option UpdateNetworkSecurityGroupRequest → Handler NetworkSecurityGroup
unfolding updated_group
update_network_security_group e none f = (f, err invalid_argument)
update_network_security_group e (some req) f =
    if empty_text req.id then (f, err invalid_argument) else elim (get req.id f.nsg) [
      | none ↦ (f, err not_found)
      | some n ↦
          (record f { nsg = put req.id (updated_group e req n) f.nsg }, ok (updated_group e req n))
    ]

unfoldable pub delete_network_security_group : Option String → Handler Unit
delete_network_security_group none f = (f, err invalid_argument)
delete_network_security_group (some id) f =
    if empty_text id
    then (f, err invalid_argument)
    else if has id f.nsg
    then (record f { nsg = delete id f.nsg }, ok tt)
    else (f, err not_found)

-- The default group is listed whether or not it is stored.
unfoldable pub find_network_security_group_ids : Env → Server → List String
find_network_security_group_ids e f = e.go.sort (
    if has default_network_security_group_id f.nsg
    then range_keys e.go f.nsg
    else default_network_security_group_id ∷ range_keys e.go f.nsg)

unfoldable pub groups_or_mock :
    String → List String → GoMap NetworkSecurityGroup → List NetworkSecurityGroup
groups_or_mock tenant [] nsg = []
groups_or_mock tenant (id ∷ ids) nsg =
    let rest = groups_or_mock tenant ids nsg in
    elim (get id nsg) [
      | some n ↦ n ∷ rest
      | none ↦
          record {
            id = id;
            tenant_organization_id = tenant;
            metadata = none;
            version = "1";
            attributes = none;
          }
          ∷ rest
    ]

unfoldable pub listed_groups :
    Env → List String → Option String → Server → List NetworkSecurityGroup
unfolding find_network_security_group_ids groups_or_mock
listed_groups e ids tenant f =
    let tenant_id = if given tenant then value tenant else default_tenant_organization_id in
    let listed : List String = elim ids [
      | [] ↦ find_network_security_group_ids e f
      | id ∷ rest ↦ id ∷ rest
    ] in
    groups_or_mock tenant_id listed f.nsg

unfoldable pub find_network_security_groups_by_ids :
    Env → Option (List String × Option String) → Server → Reply (List NetworkSecurityGroup)
unfolding listed_groups
find_network_security_groups_by_ids e req f = answer req (λ q. listed_groups e q.0 q.1 f)

abbrev pub ids_or : List String → List String → List String
ids_or [] all_ids = all_ids
ids_or (id ∷ ids) all_ids = id ∷ ids

-- The ids of the VPCs and of the instances that are reported as fully propagated.
unfoldable pub get_propagation_status :
    Env → Option (List String × List String) → Server → Reply (List String × List String)
get_propagation_status e req f =
    answer req (λ q. (ids_or q.0 (range_keys e.go f.v), ids_or q.1 (range_keys e.go f.ins)))
