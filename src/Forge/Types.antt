-- ===== src/Forge/Types.antt =====
-- Instance types: internal/server/instance_type.go, and FindInstanceTypeIds of
-- internal/server/forge_server.go.
use nico_core_mock.Env.{Env}
use nico_core_mock.GoMap.{GoMap, delete, has, put, range_keys, values_at}
use nico_core_mock.Message.{Payload}
use nico_core_mock.Message.Compute.{CreateInstanceTypeRequest, InstanceType}
use nico_core_mock.Prelude.{
  List, Option, String, [], empty_text, if◌then◌else◌, none, or_else, some, value, ◌∷◌,
}
use nico_core_mock.Reply.{Reply, already_exists, answer, err, invalid_argument, not_found, ok}
use nico_core_mock.Server.{Handler, Server}

abbrev pub default_instance_type_ids : List String
default_instance_type_ids = "dgx-h100-8x" ∷ "dgx-h100-4x" ∷ "hgx-h100-8x" ∷ []

-- `&cwssaws.InstanceTypeAttributes{}`
abbrev pub no_attributes : Payload
no_attributes = ""

unfoldable pub new_default_instance_type : Env → String → InstanceType
new_default_instance_type e id = record {
  id = id;
  attributes = some no_attributes;
  metadata = none;
  version = "1";
  created_at = some e.now;
}

unfoldable pub add_default_types : Env → List String → GoMap InstanceType → GoMap InstanceType
unfolding new_default_instance_type
add_default_types e [] it = it
add_default_types e (id ∷ ids) it =
    add_default_types e ids (if has id it then it else put id (new_default_instance_type e id) it)

unfoldable pub load_default_instance_types : Env → Server → Server
unfolding add_default_types
load_default_instance_types e f = record f {
  it = add_default_types e default_instance_type_ids f.it;
}

unfoldable pub new_instance_type : Env → CreateInstanceTypeRequest → InstanceType
new_instance_type e req = record {
  id = value req.id;
  attributes = or_else req.attributes (some no_attributes);
  metadata = req.metadata;
  version = "1";
  created_at = some e.now;
}

unfoldable pub create_instance_type : Env → Option CreateInstanceTypeRequest → Handler InstanceType
unfolding new_instance_type
create_instance_type e none f = (f, err invalid_argument)
create_instance_type e (some req) f =
    let id = value req.id in
    if empty_text id
    then (f, err invalid_argument)
    else if has id f.it
    then (f, err already_exists)
    else (record f { it = put id (new_instance_type e req) f.it }, ok (new_instance_type e req))

unfoldable pub delete_instance_type : Option String → Handler Unit
delete_instance_type none f = (f, err invalid_argument)
delete_instance_type (some id) f =
    if empty_text id
    then (f, err invalid_argument)
    else if has id f.it
    then (record f { it = delete id f.it }, ok tt)
    else (f, err not_found)

unfoldable pub find_instance_types_by_ids :
    Option (List String) → Server → Reply (List InstanceType)
find_instance_types_by_ids req f = answer req (λ ids. values_at ids f.it)

unfoldable pub find_instance_type_ids : Env → Server → List String
find_instance_type_ids e f = e.go.sort (range_keys e.go f.it)
