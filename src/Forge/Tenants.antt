-- ===== src/Forge/Tenants.antt =====
-- Tenants: FindTenantOrganizationIds, FindTenantsByOrganizationIds, CreateTenant and UpdateTenant
-- of internal/server/forge_server.go.
use nico_core_mock.Env.{Env}
use nico_core_mock.Forge.SecurityGroup.{default_tenant_organization_id}
use nico_core_mock.GoMap.{GoMap, get, put, range_keys}
use nico_core_mock.Message.Fabric.{Tenant, TenantRequest}
use nico_core_mock.Prelude.{
  List, Option, String, [], empty_text, if◌then◌else◌, none, or_else, some, without, ◌∷◌,
}
use nico_core_mock.Reply.{Reply, answer, err, invalid_argument, ok}
use nico_core_mock.Server.{Handler, Server}

-- The default organization first, then the stored ones without it.
unfoldable pub find_tenant_organization_ids : Env → Server → List String
find_tenant_organization_ids e f =
    default_tenant_organization_id ∷ without default_tenant_organization_id (range_keys e.go f.tt)

abbrev pub blank_tenant : String → Tenant
blank_tenant id = record { organization_id = id; metadata = none; routing_profile_type = none }

unfoldable pub tenants_or_mock : List String → GoMap Tenant → List Tenant
tenants_or_mock [] ts = []
tenants_or_mock (id ∷ ids) ts =
    let rest = tenants_or_mock ids ts in
    elim (get id ts) [ some t ↦ t ∷ rest | none ↦ blank_tenant id ∷ rest ]

unfoldable pub find_tenants_by_organization_ids :
    Option (List String) → Server → Reply (List Tenant)
unfolding tenants_or_mock
find_tenants_by_organization_ids req f = answer req (λ ids. tenants_or_mock ids f.tt)

-- A stored tenant of the same id is replaced.
unfoldable pub create_tenant : Option TenantRequest → Handler Tenant
create_tenant none f = (f, err invalid_argument)
create_tenant (some req) f =
    if empty_text req.organization_id
    then (f, err invalid_argument)
    else (record f { tt = put req.organization_id req f.tt }, ok req)

abbrev pub tenant_or_blank : String → Option Tenant → Tenant
tenant_or_blank id none = blank_tenant id
tenant_or_blank id (some t) = t

unfoldable pub updated_tenant : TenantRequest → Tenant → Tenant
updated_tenant req t = record t {
  metadata = or_else req.metadata t.metadata;
  routing_profile_type = or_else req.routing_profile_type t.routing_profile_type;
}

unfoldable pub update_tenant : Option TenantRequest → Handler Tenant
unfolding updated_tenant
update_tenant none f = (f, err invalid_argument)
update_tenant (some req) f =
    let id = req.organization_id in
    let t = updated_tenant req (tenant_or_blank id (get id f.tt)) in
    if empty_text id then (f, err invalid_argument) else (record f { tt = put id t f.tt }, ok t)
