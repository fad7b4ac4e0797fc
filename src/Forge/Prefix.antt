-- ===== src/Forge/Prefix.antt =====
-- VPC prefixes: newMockVpcPrefix, GetVpcPrefixes, SearchVpcPrefixes, CreateVpcPrefix,
-- UpdateVpcPrefix and DeleteVpcPrefix of internal/server/forge_server.go.
pub mod Answered
use nico_core_mock.Env.{Env}
use nico_core_mock.Forge.Ids.{choose_id}
use nico_core_mock.Forge.Vpc.{default_vpc_id}
use nico_core_mock.GoMap.{GoMap, delete, get, has, put, range_keys, range_values}
use nico_core_mock.Message.Network.{
  PrefixConfig, VpcPrefix, VpcPrefixCreationRequest, VpcPrefixUpdateRequest,
}
use nico_core_mock.Prelude.{
  List, Option, String, [], contains, empty_text, given, if◌then◌else◌, map, none, not, or_else,
  some, updated, value, ◌++◌, ◌∷◌,
}
use nico_core_mock.Reply.{Reply, already_exists, answer, err, invalid_argument, not_found, ok}
use nico_core_mock.Server.{Handler, Server}

abbrev pub default_vpc_prefix_id : String
default_vpc_prefix_id = "00000000-0000-4000-e000-000000000001"

abbrev pub default_vpc_prefix_cidr : String
default_vpc_prefix_cidr = "10.0.0.0/16"

unfoldable pub new_mock_vpc_prefix : String → String → String → VpcPrefix
new_mock_vpc_prefix id cidr vpc_id = record {
  id = some id;
  vpc_id = some vpc_id;
  config = some (record { prefix = cidr });
  status = some (record {
    total_31_segments = 1024;
    available_31_segments = 1024;
    total_linknet_segments = 256;
    available_linknet_segments = 256;
  });
  name = "";
  metadata = none;
}

abbrev pub default_prefix : VpcPrefix
unfolding new_mock_vpc_prefix
default_prefix = new_mock_vpc_prefix default_vpc_prefix_id default_vpc_prefix_cidr default_vpc_id

-- `GetPrefix` of a configuration that may be nil.
abbrev pub config_prefix : Option PrefixConfig → String
config_prefix none = ""
config_prefix (some c) = c.prefix

abbrev pub requested_cidr : VpcPrefixCreationRequest → String
requested_cidr req =
    if not (empty_text (config_prefix req.config))
    then config_prefix req.config
    else if not (empty_text req.prefix)
    then req.prefix
    else default_vpc_prefix_cidr

unfoldable pub new_vpc_prefix : String → VpcPrefixCreationRequest → VpcPrefix
unfolding new_mock_vpc_prefix
new_vpc_prefix nid req =
    let vpc_id = if given req.vpc_id then value req.vpc_id else default_vpc_id in
    let p = new_mock_vpc_prefix nid (requested_cidr req) vpc_id in
    record p { name = req.name; metadata = req.metadata }

unfoldable pub create_vpc_prefix : Env → Option VpcPrefixCreationRequest → Handler VpcPrefix
unfolding choose_id new_vpc_prefix
create_vpc_prefix e none f = (f, err invalid_argument)
create_vpc_prefix e (some req) f =
    let nid = choose_id e default_vpc_prefix_id req.id f.vp in
    if has nid f.vp
    then (f, err already_exists)
    else (record f { vp = put nid (new_vpc_prefix nid req) f.vp }, ok (new_vpc_prefix nid req))

unfoldable pub updated_prefix : VpcPrefixUpdateRequest → VpcPrefix → VpcPrefix
updated_prefix req p =
    let config =
      if not (empty_text (config_prefix req.config))
      then some (record { prefix = config_prefix req.config })
      else if given req.prefix
      then some (record { prefix = value req.prefix })
      else p.config in
    record p {
      config = config;
      name = updated req.name p.name;
      metadata = or_else req.metadata p.metadata;
    }

unfoldable pub update_vpc_prefix : Option VpcPrefixUpdateRequest → Handler VpcPrefix
unfolding updated_prefix
update_vpc_prefix none f = (f, err invalid_argument)
update_vpc_prefix (some req) f =
    let id = value req.id in
    if given req.id
    then (elim (get id f.vp) [
      | none ↦ (f, err not_found)
      | some p ↦ (record f { vp = put id (updated_prefix req p) f.vp }, ok (updated_prefix req p))
    ])
    else (f, err invalid_argument)

unfoldable pub delete_vpc_prefix : Option (Option String) → Handler Unit
delete_vpc_prefix none f = (f, err invalid_argument)
delete_vpc_prefix (some id) f =
    if given id
    then (if has (value id) f.vp
        then (record f { vp = delete (value id) f.vp }, ok tt)
        else (f, err not_found))
    else (f, err invalid_argument)

-- `if p, ok := f.vp[id]; ok { … }`, or a made-up prefix for an id that is not there.
unfoldable pub prefixes_or_mock : List String → GoMap VpcPrefix → List VpcPrefix
unfolding new_mock_vpc_prefix
prefixes_or_mock [] vp = []
prefixes_or_mock (id ∷ ids) vp =
    let rest = prefixes_or_mock ids vp in
    elim (get id vp) [
      | some p ↦ p ∷ rest
      | none ↦ new_mock_vpc_prefix id default_vpc_prefix_cidr default_vpc_id ∷ rest
    ]

unfoldable pub listed_prefixes : Env → List (Option String) → Server → List VpcPrefix
unfolding prefixes_or_mock
listed_prefixes e [] f =
    if contains default_vpc_prefix_id (range_keys e.go f.vp)
    then range_values e.go f.vp
    else range_values e.go f.vp ++ default_prefix ∷ []
listed_prefixes e (id ∷ ids) f = prefixes_or_mock (map value (id ∷ ids)) f.vp

unfoldable pub get_vpc_prefixes :
    Env → Option (List (Option String)) → Server → Reply (List VpcPrefix)
unfolding listed_prefixes
get_vpc_prefixes e req f = answer req (λ ids. listed_prefixes e ids f)

unfoldable pub search_vpc_prefixes : Env → Server → List String
search_vpc_prefixes e f =
    if contains default_vpc_prefix_id (range_keys e.go f.vp)
    then range_keys e.go f.vp
    else range_keys e.go f.vp ++ default_vpc_prefix_id ∷ []
