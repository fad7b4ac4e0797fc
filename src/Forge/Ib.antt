-- ===== src/Forge/Ib.antt =====
-- IB partitions: CreateIBPartition, UpdateIBPartition, DeleteIBPartition and the Find handlers of
-- internal/server/forge_server.go.
use nico_core_mock.Env.{Env}
use nico_core_mock.Forge.Ids.{choose_id}
use nico_core_mock.GoMap.{delete, get, has, put, range_keys, values_at}
use nico_core_mock.Message.{Payload}
use nico_core_mock.Message.Compute.{ready}
use nico_core_mock.Message.Fabric.{IbPartition, IbPartitionConfig, IbPartitionRequest}
use nico_core_mock.Prelude.{
  List, Option, String, empty_text, given, if◌then◌else◌, map, none, or_else, some, value,
}
use nico_core_mock.Reply.{Reply, answer, err, invalid_argument, not_found, ok}
use nico_core_mock.Server.{Handler, Server}

abbrev pub default_ib_partition_id : String
default_ib_partition_id = "00000000-0000-4000-b000-000000000000"

unfoldable pub new_ib_partition : String → IbPartitionConfig → IbPartition
new_ib_partition nid config = record {
  id = some nid;
  config = some (record {
    name = config.name;
    tenant_organization_id = config.tenant_organization_id;
    pkey = none;
  });
  metadata = none;
  status = some ready;
}

unfoldable pub create_ib_partition : Env → Option IbPartitionRequest → Handler IbPartition
unfolding choose_id new_ib_partition
create_ib_partition e none f = (f, err invalid_argument)
create_ib_partition e (some req) f = elim req.config [
  | none ↦ (f, err invalid_argument)
  | some config ↦
      let nid = choose_id e default_ib_partition_id req.id f.ibp in
      let p = new_ib_partition nid config in (record f { ibp = put nid p f.ibp }, ok p)
]

abbrev pub ib_config_or_new : Option IbPartitionConfig → IbPartitionConfig
ib_config_or_new none = record { name = ""; tenant_organization_id = ""; pkey = none }
ib_config_or_new (some c) = c

unfoldable pub merged_ib :
    Option IbPartitionConfig → Option IbPartitionConfig → Option IbPartitionConfig
merged_ib none old = old
merged_ib (some config) old =
    let c = ib_config_or_new old in
    some (record {
      name = if empty_text config.name then c.name else config.name;
      tenant_organization_id =
          if empty_text config.tenant_organization_id
          then c.tenant_organization_id
          else config.tenant_organization_id;
      pkey = or_else config.pkey c.pkey;
    })

unfoldable pub updated_ib : IbPartitionRequest → IbPartition → IbPartition
unfolding merged_ib
updated_ib req p = record p {
  config = merged_ib req.config p.config;
  metadata = or_else req.metadata p.metadata;
}

unfoldable pub update_ib_partition : Option IbPartitionRequest → Handler IbPartition
unfolding updated_ib
update_ib_partition none f = (f, err invalid_argument)
update_ib_partition (some req) f =
    let id = value req.id in
    if given req.id
    then (elim (get id f.ibp) [
      | none ↦ (f, err not_found)
      | some p ↦ (record f { ibp = put id (updated_ib req p) f.ibp }, ok (updated_ib req p))
    ])
    else (f, err invalid_argument)

unfoldable pub delete_ib_partition : Option (Option String) → Handler Unit
delete_ib_partition (some (some id)) f =
    if has id f.ibp then (record f { ibp = delete id f.ibp }, ok tt) else (f, err not_found)
delete_ib_partition _ f = (f, err invalid_argument)

unfoldable pub find_ib_partition_ids : Env → Option Payload → Server → Reply (List String)
find_ib_partition_ids e req f = answer req (λ _. range_keys e.go f.ibp)

unfoldable pub find_ib_partitions_by_ids :
    Option (List (Option String)) → Server → Reply (List IbPartition)
find_ib_partitions_by_ids req f = answer req (λ ids. values_at (map value ids) f.ibp)
