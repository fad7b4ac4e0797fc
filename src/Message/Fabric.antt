-- ===== src/Message/Fabric.antt =====
-- Messages of IB partitions, NVLink partitions, tenants and keysets.
use nico_core_mock.Message.{Payload}
use nico_core_mock.Message.Compute.{TenantState}
use nico_core_mock.Prelude.{Option, String}

pub record IbPartitionConfig : Type 0 where
  pub name : String
  pub tenant_organization_id : String
  pub pkey : Option Payload

pub record IbPartition : Type 0 where
  pub id : Option String
  pub config : Option IbPartitionConfig
  pub metadata : Option Payload
  pub status : Option TenantState

pub record IbPartitionRequest : Type 0 where
  pub id : Option String
  pub config : Option IbPartitionConfig
  pub metadata : Option Payload

pub record NvlinkConfig : Type 0 where
  pub tenant_organization_id : String
  pub metadata : Option Payload

pub record NvlinkPartition : Type 0 where
  pub id : Option String
  pub config : Option NvlinkConfig
  pub status : Option TenantState

pub record NvlinkRequest : Type 0 where
  pub id : Option String
  pub config : Option NvlinkConfig

pub record Tenant : Type 0 where
  pub organization_id : String
  pub metadata : Option Payload
  pub routing_profile_type : Option Payload

-- The create and update requests have the same fields.
abbrev pub TenantRequest : Type 0
TenantRequest = Tenant

pub record TenantKeyset : Type 0 where
  pub keyset_identifier : Option String
  pub keyset_content : Option Payload
  pub version : String

abbrev pub TenantKeysetRequest : Type 0
TenantKeysetRequest = TenantKeyset
