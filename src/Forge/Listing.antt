-- ===== src/Forge/Listing.antt =====
-- The listings that show a default entry besides the stored ones: SearchVpcPrefixes,
-- FindNetworkSecurityGroupIds and FindTenantOrganizationIds.
use nico_core_mock.Env.{Env}
use nico_core_mock.Forge.Prefix.{default_vpc_prefix_id, search_vpc_prefixes}
use nico_core_mock.Forge.SecurityGroup.{
  default_network_security_group_id, default_tenant_organization_id,
  find_network_security_group_ids,
}
use nico_core_mock.Forge.Tenants.{find_tenant_organization_ids}
use nico_core_mock.GoMap.{has, range_keys}
use nico_core_mock.GoMap.Laws.{contains-range_keys, count-range_keys}
use nico_core_mock.Prelude.{
  Bool, List, String, [], arith, count, count-without, eq_iff, false, if◌then◌else◌, refl, true, ℕ,
  ◌++◌, ◌+◌, ◌==◌, ◌||◌, ◌∙◌, ◌∷◌, ◌≡◌,
}
use nico_core_mock.Server.{Server}

count-append : (k : String) (xs ys : List String) → count k (xs ++ ys) ≡ count k xs + count k ys
unfolding count
count-append k [] ys = ground arith
count-append k (x ∷ xs) ys = ground (arith, count-append k xs ys)

-- SearchVpcPrefixes lists each stored prefix and the default one, each once, and no other id.
search_vpc_prefixes-count :
    (e : Env) (f : Server) (k : String)
    → count k (search_vpc_prefixes e f)
      ≡ (if default_vpc_prefix_id == k || has k f.vp then 1 else 0)
unfolding search_vpc_prefixes count
search_vpc_prefixes-count e f k = ground (
  arith,
  count-append k (range_keys e.go f.vp) (default_vpc_prefix_id ∷ []),
  count-range_keys e.go k f.vp,
  contains-range_keys e.go default_vpc_prefix_id f.vp,
  eq_iff default_vpc_prefix_id k,
)

group_ids-count :
    (e : Env) (f : Server) (k : String) (b : Bool)
    → has default_network_security_group_id f.nsg ≡ b
    → count k (
        if b
        then range_keys e.go f.nsg
        else default_network_security_group_id ∷ range_keys e.go f.nsg)
      ≡ (if default_network_security_group_id == k || has k f.nsg then 1 else 0)
unfolding count
group_ids-count e f k true stored =
    ground (arith, count-range_keys e.go k f.nsg, eq_iff default_network_security_group_id k)
group_ids-count e f k false missing =
    ground (arith, count-range_keys e.go k f.nsg, eq_iff default_network_security_group_id k)

-- FindNetworkSecurityGroupIds lists each stored group and the default one, each once, and no other
-- id.
find_network_security_group_ids-count :
    (e : Env) (f : Server) (k : String)
    → count k (find_network_security_group_ids e f)
      ≡ (if default_network_security_group_id == k || has k f.nsg then 1 else 0)
unfolding find_network_security_group_ids count
find_network_security_group_ids-count e f k =
    e.go.sort-count k _ ∙ group_ids-count e f k (has default_network_security_group_id f.nsg) refl

-- FindTenantOrganizationIds lists each stored tenant and the default one, each once, and no other id.
find_tenant_organization_ids-count :
    (e : Env) (f : Server) (k : String)
    → count k (find_tenant_organization_ids e f)
      ≡ (if default_tenant_organization_id == k || has k f.tt then 1 else 0)
unfolding find_tenant_organization_ids count
find_tenant_organization_ids-count e f k = ground (
  arith,
  count-without default_tenant_organization_id k (range_keys e.go f.tt),
  count-range_keys e.go k f.tt,
  eq_iff default_tenant_organization_id k,
)

-- How often an id is listed that is either stored or the default one: once, and no other id at all.
abbrev pub once_if : String → String → Bool → ℕ
once_if default k stored = if default == k || stored then 1 else 0

-- SearchVpcPrefixes, FindNetworkSecurityGroupIds and FindTenantOrganizationIds each list every stored
-- id and the default one, each once, and no other id.
pub listed_with_default-count :
    (e : Env) (f : Server) (k : String)
    → (count k (search_vpc_prefixes e f) ≡ once_if default_vpc_prefix_id k (has k f.vp))
      × (count k (find_network_security_group_ids e f)
          ≡ once_if default_network_security_group_id k (has k f.nsg))
      × (count k (find_tenant_organization_ids e f)
          ≡ once_if default_tenant_organization_id k (has k f.tt))
listed_with_default-count e f k = (
  search_vpc_prefixes-count e f k,
  find_network_security_group_ids-count e f k,
  find_tenant_organization_ids-count e f k,
)
