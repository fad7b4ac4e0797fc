-- ===== src/Message/Network.antt =====
-- Messages of VPCs, network segments, prefixes, peerings and security groups.
use nico_core_mock.Message.{Payload}
use nico_core_mock.Prelude.{List, Option, String, ℕ}

pub record VpcStatus : Type 0 where
  pub vni : Option ℕ

pub record Vpc : Type 0 where
  pub id : Option String
  pub name : String
  pub tenant_organization_id : String
  pub network_virtualization_type : Option Payload
  pub routing_profile_type : Option Payload
  pub network_security_group_id : Option String
  pub status : Option VpcStatus

pub record VpcCreationRequest : Type 0 where
  pub id : Option String
  pub name : String
  pub tenant_organization_id : String
  pub network_virtualization_type : Option Payload
  pub routing_profile_type : Option Payload
  pub network_security_group_id : Option String
  pub vni : Option ℕ

-- also of VPC, whose update sends an id and a name
pub record VpcUpdateRequest : Type 0 where
  pub id : Option String
  pub name : String

pub record VpcSearchQuery : Type 0 where
  pub id : Option String
  pub name : Option String

pub record NetworkSegment : Type 0 where
  pub id : Option String
  pub name : String
  pub vpc_id : Option String
  pub subdomain_id : Option Payload
  pub mtu : Option ℕ
  pub prefixes : List Payload

pub record NetworkSegmentCreationRequest : Type 0 where
  pub name : String
  pub vpc_id : Option String
  pub subdomain_id : Option Payload
  pub mtu : Option ℕ
  pub prefixes : List Payload

pub record PrefixConfig : Type 0 where
  pub prefix : String

pub record PrefixStatus : Type 0 where
  pub total_31_segments : ℕ
  pub available_31_segments : ℕ
  pub total_linknet_segments : ℕ
  pub available_linknet_segments : ℕ

pub record VpcPrefix : Type 0 where
  pub id : Option String
  pub vpc_id : Option String
  pub config : Option PrefixConfig
  pub status : Option PrefixStatus
  pub name : String
  pub metadata : Option Payload

pub record VpcPrefixCreationRequest : Type 0 where
  pub id : Option String
  pub vpc_id : Option String
  pub config : Option PrefixConfig
  pub prefix : String
  pub name : String
  pub metadata : Option Payload

pub record VpcPrefixUpdateRequest : Type 0 where
  pub id : Option String
  pub config : Option PrefixConfig
  pub prefix : Option String
  pub name : Option String
  pub metadata : Option Payload

pub record VpcPeering : Type 0 where
  pub id : Option String
  pub vpc_id : Option String
  pub peer_vpc_id : Option String

-- The creation request has the same three fields.
abbrev pub VpcPeeringCreationRequest : Type 0
VpcPeeringCreationRequest = VpcPeering

pub record NetworkSecurityGroup : Type 0 where
  pub id : String
  pub tenant_organization_id : String
  pub metadata : Option Payload
  pub version : String
  pub attributes : Option Payload

pub record CreateNetworkSecurityGroupRequest : Type 0 where
  pub id : Option String
  pub tenant_organization_id : String
  pub metadata : Option Payload
  pub attributes : Option Payload

pub record UpdateNetworkSecurityGroupRequest : Type 0 where
  pub id : String
  pub metadata : Option Payload
  pub attributes : Option Payload
