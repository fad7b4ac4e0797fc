-- ===== src/Forge/Systems.antt =====
-- Operating systems: internal/server/operating_system.go, but for the two lookups of Jobs.
use nico_core_mock.Env.{Env}
use nico_core_mock.GoMap.{GoMap, get, has, put}
use nico_core_mock.Message.Compute.{
  CreateOperatingSystemRequest, OperatingSystem, OperatingSystemType, OsImageAttributes,
  UpdateOperatingSystemRequest, ipxe, ready, templated_ipxe, unspecified,
}
use nico_core_mock.Prelude.{
  Option, String, [], empty_text, false, given, if◌then◌else◌, none, or_else, some, true, updated,
  value,
}
use nico_core_mock.Reply.{Reply, already_exists, err, invalid_argument, not_found, ok}
use nico_core_mock.Server.{Handler, Server}

abbrev pub blank_system : String → OperatingSystem
blank_system id = record {
  id = some id;
  name = "";
  description = none;
  tenant_organization_id = "";
  type = unspecified;
  status = ready;
  is_active = false;
  allow_override = false;
  phone_home_enabled = false;
  user_data = none;
  created = "";
  updated_at = "";
  ipxe_script = none;
  ipxe_template_id = none;
  ipxe_template_parameters = [];
  ipxe_template_artifacts = [];
  ipxe_template_definition_hash = none;
}

abbrev pub system_or_blank : String → Option OperatingSystem → OperatingSystem
system_or_blank id none = blank_system id
system_or_blank id (some os) = os

-- The operating system that an image's attributes bring up to date.
unfoldable pub stub_system : Env → OsImageAttributes → OperatingSystem → OperatingSystem
stub_system e req os = record os {
  tenant_organization_id =
      if empty_text req.tenant_organization_id
      then os.tenant_organization_id
      else req.tenant_organization_id;
  name = if given req.name then value req.name else os.name;
  description = or_else req.description os.description;
  created = if empty_text os.created then e.now else os.created;
  updated_at = e.now;
  is_active = true;
}

-- Both callers pass attributes that are not nil.
unfoldable pub ensure_operating_system_stub :
    Env → String → OsImageAttributes → GoMap OperatingSystem → GoMap OperatingSystem
unfolding stub_system
ensure_operating_system_stub e id req oss =
    if empty_text id then oss else put id (stub_system e req (system_or_blank id (get id oss))) oss

unfoldable pub operating_system_type : Env → CreateOperatingSystemRequest → OperatingSystemType
operating_system_type e req = elim req.ipxe_template_id [
  | some t ↦ templated_ipxe
  | none ↦ if empty_text (e.trim_space (value req.ipxe_script)) then unspecified else ipxe
]

-- A text without the space around it, or nil where nothing is left.
unfoldable pub trimmed : Env → String → Option String
trimmed e x = if empty_text (e.trim_space x) then none else some (e.trim_space x)

unfoldable pub created_system : Env → CreateOperatingSystemRequest → OperatingSystem
unfolding operating_system_type trimmed
created_system e req = record {
  id = some (if given req.id then value req.id else e.uuid);
  name = req.name;
  description = req.description;
  tenant_organization_id = req.tenant_organization_id;
  type = operating_system_type e req;
  status = ready;
  is_active = req.is_active;
  allow_override = req.allow_override;
  phone_home_enabled = req.phone_home_enabled;
  user_data = trimmed e req.user_data;
  created = e.now;
  updated_at = e.now;
  ipxe_script = req.ipxe_script;
  ipxe_template_id = req.ipxe_template_id;
  ipxe_template_parameters = req.ipxe_template_parameters;
  ipxe_template_artifacts = req.ipxe_template_artifacts;
  ipxe_template_definition_hash = none;
}

unfoldable pub create_operating_system :
    Env → Option CreateOperatingSystemRequest → Handler OperatingSystem
unfolding created_system
create_operating_system e none f = (f, err invalid_argument)
create_operating_system e (some req) f =
    let os = created_system e req in
    let id = value os.id in
    if has id f.oss then (f, err already_exists) else (record f { oss = put id os f.oss }, ok os)

unfoldable pub get_operating_system : Option String → Server → Reply OperatingSystem
get_operating_system none f = err invalid_argument
get_operating_system (some id) f =
    if empty_text id
    then err invalid_argument
    else elim (get id f.oss) [ none ↦ err not_found | some os ↦ ok os ]

unfoldable pub updated_user_data : Env → Option String → Option String → Option String
unfolding trimmed
updated_user_data e none old = old
updated_user_data e (some x) old = trimmed e x

unfoldable pub apply_operating_system_update :
    Env → UpdateOperatingSystemRequest → OperatingSystem → OperatingSystem
unfolding updated_user_data
apply_operating_system_update e req os = record os {
  name = updated req.name os.name;
  description = or_else req.description os.description;
  is_active = updated req.is_active os.is_active;
  allow_override = updated req.allow_override os.allow_override;
  phone_home_enabled = updated req.phone_home_enabled os.phone_home_enabled;
  user_data = updated_user_data e req.user_data os.user_data;
  ipxe_script = or_else req.ipxe_script os.ipxe_script;
  ipxe_template_id = or_else req.ipxe_template_id os.ipxe_template_id;
  ipxe_template_parameters = updated req.ipxe_template_parameters os.ipxe_template_parameters;
  ipxe_template_artifacts = updated req.ipxe_template_artifacts os.ipxe_template_artifacts;
  ipxe_template_definition_hash =
      or_else req.ipxe_template_definition_hash os.ipxe_template_definition_hash;
  updated_at = e.now;
}

unfoldable pub update_operating_system :
    Env → Option UpdateOperatingSystemRequest → Handler OperatingSystem
unfolding apply_operating_system_update
update_operating_system e none f = (f, err invalid_argument)
update_operating_system e (some req) f =
    let id = value req.id in
    if given req.id
    then (elim (get id f.oss) [
      | none ↦ (f, err not_found)
      | some os ↦
          let os' = apply_operating_system_update e req os in
          (record f { oss = put id os' f.oss }, ok os')
    ])
    else (f, err invalid_argument)
