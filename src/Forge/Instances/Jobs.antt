-- ===== src/Forge/Instances/Jobs.antt =====
-- The work that instances hand to libvirt: osImageLookupID, osImageSource, scheduleLibvirtProvision
-- and scheduleLibvirtRelease of internal/server/forge_server.go, operatingSystemLookupID and
-- resolveUserData of internal/server/operating_system.go.
use nico_core_mock.Env.{Env}
use nico_core_mock.GoMap.{GoMap, get}
use nico_core_mock.Message.Compute.{
  Instance, InstanceAllocationRequest, InstanceConfig, OperatingSystem, OsConfig, OsImage,
  OsImageAttributes,
}
use nico_core_mock.Prelude.{
  Option, String, [], empty_text, given, if◌then◌else◌, none, not, some, value, ℕ, ◌++◌, ◌∷◌,
}
use nico_core_mock.Server.{ProvisionRequest, Server, provision_machine, release_machine}

-- The first of two ids that is given, or "".
abbrev pub first_given : Option String → Option String → String
first_given a b = if given a then value a else if given b then value b else ""

unfoldable pub os_image_lookup_id : Option OsConfig → String
os_image_lookup_id none = ""
os_image_lookup_id (some os) = first_given os.os_image_id os.operating_system_id

unfoldable pub operating_system_lookup_id : Option OsConfig → String
operating_system_lookup_id none = ""
operating_system_lookup_id (some os) = first_given os.operating_system_id os.os_image_id

abbrev pub config_os : Option InstanceConfig → Option OsConfig
config_os none = none
config_os (some c) = c.os

pub record ImageSource : Type 0 where
  pub url : String
  pub digest : String
  pub capacity : ℕ

-- The three results of a failed lookup.
abbrev pub no_source : ImageSource
no_source = record { url = ""; digest = ""; capacity = 0 }

unfoldable pub attributes_source : Env → OsImageAttributes → ImageSource
attributes_source e a =
    if empty_text (e.trim_space a.source_url)
    then no_source
    else record { url = a.source_url; digest = a.digest; capacity = a.capacity }

-- The error is only logged: the caller goes on with the empty results.
unfoldable pub os_image_source : Env → Option InstanceConfig → GoMap OsImage → ImageSource
unfolding os_image_lookup_id attributes_source
os_image_source e config osi =
    let id = os_image_lookup_id (config_os config) in
    if empty_text id then no_source else elim (get id osi) [
      | none ↦ no_source
      | some img ↦ elim img.attributes [ none ↦ no_source | some a ↦ attributes_source e a ]
    ]

unfoldable pub os_user_data : Env → Option OperatingSystem → String
os_user_data e none = ""
os_user_data e (some os) = e.trim_space (value os.user_data)

unfoldable pub resolve_user_data : Env → Option InstanceConfig → GoMap OperatingSystem → String
unfolding operating_system_lookup_id os_user_data
resolve_user_data e config oss = elim (config_os config) [
  | none ↦ ""
  | some os ↦
      if not (empty_text (e.trim_space os.user_data))
      then e.trim_space os.user_data
      else let id = operating_system_lookup_id (some os) in
        if empty_text id then "" else os_user_data e (get id oss)
]

-- The request that the goroutine sends to the provisioner.
unfoldable pub provision_request :
    Env → InstanceAllocationRequest → String → Server → ProvisionRequest
unfolding os_image_source resolve_user_data
provision_request e req mid f =
    let src = os_image_source e req.config f.osi in
    record {
      machine_id = mid;
      instance_id = if given req.instance_id then value req.instance_id else mid;
      instance_name = e.trim_space (value req.metadata);
      image_url = src.url;
      image_digest = src.digest;
      image_capacity_bytes = src.capacity;
      user_data = resolve_user_data e req.config f.oss;
    }

unfoldable pub schedule_libvirt_provision : Env → InstanceAllocationRequest → Server → Server
unfolding provision_request
schedule_libvirt_provision e req f = elim req.machine_id [
  | none ↦ f
  | some mid ↦
      if f.provisioner
      then record f { jobs = f.jobs ++ provision_machine (provision_request e req mid f) ∷ [] }
      else f
]

unfoldable pub schedule_libvirt_release : Instance → Server → Server
schedule_libvirt_release ins f = elim ins.machine_id [
  | none ↦ f
  | some mid ↦ if f.provisioner then record f { jobs = f.jobs ++ release_machine mid ∷ [] } else f
]
