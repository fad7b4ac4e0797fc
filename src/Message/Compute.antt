-- ===== src/Message/Compute.antt =====
-- Messages of instances, machines, instance types, OS images and operating systems.
use nico_core_mock.Message.{Payload}
use nico_core_mock.Prelude.{Bool, List, Option, String, ℕ}

pub data TenantState : Type 0 where
  provisioning configuring ready : TenantState
  other_state : ℕ → TenantState

pub data FunctionType : Type 0 where
  physical_function virtual_function : FunctionType

pub record InterfaceConfig : Type 0 where
  pub ip_address : String
  pub vpc_prefix_id : Option String
  pub function_type : FunctionType

pub record NetworkConfig : Type 0 where
  pub interfaces : List InterfaceConfig

pub record OsConfig : Type 0 where
  pub os_image_id : Option String
  pub operating_system_id : Option String
  pub user_data : String

pub record InstanceConfig : Type 0 where
  pub os : Option OsConfig
  pub network : Option NetworkConfig
  pub network_security_group_id : Option String
  pub others : Payload

pub record InterfaceStatus : Type 0 where
  pub mac_address : Option String
  pub addresses : List String
  pub virtual_function_id : Option ℕ

pub record InstanceStatus : Type 0 where
  pub tenant : Option TenantState
  pub interfaces : List InterfaceStatus

pub record Instance : Type 0 where
  pub id : Option String
  pub machine_id : Option String
  pub config : Option InstanceConfig
  pub status : Option InstanceStatus
  pub metadata : Option Payload
  pub config_version : String

pub record InstanceAllocationRequest : Type 0 where
  pub instance_id : Option String
  pub machine_id : Option String
  pub config : Option InstanceConfig
  -- the name in the metadata
  pub metadata : Option String

pub record InstanceConfigUpdateRequest : Type 0 where
  pub instance_id : Option String
  pub config : Option InstanceConfig
  pub metadata : Option Payload

pub record Machine : Type 0 where
  pub id : Option String
  pub state : String
  -- the MAC addresses of its interfaces
  pub interfaces : List String
  pub discovery_info : Option Payload
  pub instance_type_id : Option String

pub data PowerOperation : Type 0 where
  power_reset other_operation : PowerOperation

pub record InstancePowerRequest : Type 0 where
  pub machine_id : Option String
  pub operation : PowerOperation

pub record AssociateRequest : Type 0 where
  pub instance_type_id : String
  pub machine_ids : List String

pub record InstanceType : Type 0 where
  pub id : String
  pub attributes : Option Payload
  pub metadata : Option Payload
  pub version : String
  pub created_at : Option String

pub record CreateInstanceTypeRequest : Type 0 where
  pub id : Option String
  pub attributes : Option Payload
  pub metadata : Option Payload

pub record OsImageAttributes : Type 0 where
  pub id : Option String
  pub source_url : String
  pub digest : String
  pub capacity : ℕ
  pub tenant_organization_id : String
  pub name : Option String
  pub description : Option String

pub data OsImageStatus : Type 0 where
  image_ready other_status : OsImageStatus

pub record OsImage : Type 0 where
  pub attributes : Option OsImageAttributes
  pub status : OsImageStatus

pub data OperatingSystemType : Type 0 where
  unspecified ipxe templated_ipxe : OperatingSystemType

pub record OperatingSystem : Type 0 where
  pub id : Option String
  pub name : String
  pub description : Option String
  pub tenant_organization_id : String
  pub type : OperatingSystemType
  pub status : TenantState
  pub is_active : Bool
  pub allow_override : Bool
  pub phone_home_enabled : Bool
  pub user_data : Option String
  pub created : String
  pub updated_at : String
  pub ipxe_script : Option String
  pub ipxe_template_id : Option String
  pub ipxe_template_parameters : List Payload
  pub ipxe_template_artifacts : List Payload
  pub ipxe_template_definition_hash : Option String

pub record CreateOperatingSystemRequest : Type 0 where
  pub id : Option String
  pub name : String
  pub description : Option String
  pub tenant_organization_id : String
  pub is_active : Bool
  pub allow_override : Bool
  pub phone_home_enabled : Bool
  pub user_data : String
  pub ipxe_script : Option String
  pub ipxe_template_id : Option String
  pub ipxe_template_parameters : List Payload
  pub ipxe_template_artifacts : List Payload

pub record UpdateOperatingSystemRequest : Type 0 where
  pub id : Option String
  pub name : Option String
  pub description : Option String
  pub is_active : Option Bool
  pub allow_override : Option Bool
  pub phone_home_enabled : Option Bool
  pub user_data : Option String
  pub ipxe_script : Option String
  pub ipxe_template_id : Option String
  pub ipxe_template_parameters : Option (List Payload)
  pub ipxe_template_artifacts : Option (List Payload)
  pub ipxe_template_definition_hash : Option String
