-- ===== src/Forge/Nvlink.antt =====
-- NVLink logical partitions: the Find, Create, Update, Delete handlers and
-- NVLinkLogicalPartitionsForTenant of internal/server/forge_server.go.
use nico_core_mock.Env.{Env}
use nico_core_mock.Forge.Ids.{choose_id}
use nico_core_mock.GoMap.{delete, get, has, put, range_keys, range_values, values_at}
use nico_core_mock.Message.Compute.{ready}
use nico_core_mock.Message.Fabric.{NvlinkConfig, NvlinkPartition, NvlinkRequest}
use nico_core_mock.Prelude.{
  List, Option, String, [], empty_text, false, given, if◌then◌else◌, map, none, or_else, some,
  value, ◌==◌, ◌||◌, ◌∷◌,
}
use nico_core_mock.Reply.{Reply, answer, err, invalid_argument, not_found, ok}
use nico_core_mock.Server.{Handler, Server}

abbrev pub default_nvlink_logical_partition_id : String
default_nvlink_logical_partition_id = "00000000-0000-4000-c000-000000000000"

unfoldable pub find_nvlink_partition_ids : Env → Server → List String
find_nvlink_partition_ids e f = range_keys e.go f.nvlp

unfoldable pub find_nvlink_partitions_by_ids :
    Option (List (Option String)) → Server → Reply (List NvlinkPartition)
find_nvlink_partitions_by_ids req f = answer req (λ ids. values_at (map value ids) f.nvlp)

unfoldable pub new_nvlink_partition : String → NvlinkConfig → NvlinkPartition
new_nvlink_partition nid config = record {
  id = some nid;
  config = some (record {
    tenant_organization_id = config.tenant_organization_id;
    metadata = config.metadata;
  });
  status = some ready;
}

-- An id that is taken is not refused: the stored partition is replaced.
unfoldable pub create_nvlink_partition : Env → Option NvlinkRequest → Handler NvlinkPartition
unfolding choose_id new_nvlink_partition
create_nvlink_partition e none f = (f, err invalid_argument)
create_nvlink_partition e (some req) f = elim req.config [
  | none ↦ (f, err invalid_argument)
  | some config ↦
      let nid = choose_id e default_nvlink_logical_partition_id req.id f.nvlp in
      let p = new_nvlink_partition nid config in (record f { nvlp = put nid p f.nvlp }, ok p)
]

-- The configuration that a partition without one is given first.
abbrev pub nvlink_config_or_new : Option NvlinkConfig → NvlinkConfig
nvlink_config_or_new none = record { tenant_organization_id = ""; metadata = none }
nvlink_config_or_new (some c) = c

unfoldable pub merged_nvlink : NvlinkConfig → NvlinkPartition → NvlinkPartition
merged_nvlink config p =
    let old = nvlink_config_or_new p.config in
    record p {
      config = some (record {
        tenant_organization_id =
            if empty_text config.tenant_organization_id
            then old.tenant_organization_id
            else config.tenant_organization_id;
        metadata = or_else config.metadata old.metadata;
      });
    }

unfoldable pub updated_nvlink : NvlinkRequest → NvlinkPartition → NvlinkPartition
unfolding merged_nvlink
updated_nvlink req p = elim req.config [ none ↦ p | some config ↦ merged_nvlink config p ]

unfoldable pub update_nvlink_partition : Option NvlinkRequest → Handler Unit
unfolding updated_nvlink
update_nvlink_partition none f = (f, err invalid_argument)
update_nvlink_partition (some req) f =
    let id = value req.id in
    if given req.id
    then (elim (get id f.nvlp) [
      | none ↦ (f, err not_found)
      | some p ↦ (record f { nvlp = put id (updated_nvlink req p) f.nvlp }, ok tt)
    ])
    else (f, err invalid_argument)

unfoldable pub delete_nvlink_partition : Option (Option String) → Handler Unit
delete_nvlink_partition (some (some id)) f =
    if has id f.nvlp then (record f { nvlp = delete id f.nvlp }, ok tt) else (f, err not_found)
delete_nvlink_partition _ f = (f, err invalid_argument)

abbrev pub nvlink_tenant : NvlinkPartition → Option String
nvlink_tenant p = elim p.config [ none ↦ none | some c ↦ some c.tenant_organization_id ]

unfoldable pub of_tenant : String → List NvlinkPartition → List NvlinkPartition
of_tenant tenant [] = []
of_tenant tenant (p ∷ ps) =
    let rest = of_tenant tenant ps in
    if empty_text tenant || (elim (nvlink_tenant p) [ none ↦ false | some t ↦ t == tenant ])
    then p ∷ rest
    else rest

-- `req.GetTenantOrganizationId()` is "" on a nil request.
unfoldable pub nvlink_partitions_for_tenant : Env → String → Server → List NvlinkPartition
unfolding of_tenant
nvlink_partitions_for_tenant e tenant f = of_tenant tenant (range_values e.go f.nvlp)
