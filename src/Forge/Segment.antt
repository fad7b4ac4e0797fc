-- ===== src/Forge/Segment.antt =====
-- Network segments: CreateNetworkSegment, DeleteNetworkSegment, FindNetworkSegmentIds and
-- FindNetworkSegmentsByIds of internal/server/forge_server.go.
use nico_core_mock.Env.{Env}
use nico_core_mock.GoMap.{GoMap, delete, has, put, range_keys, values_at}
use nico_core_mock.Message.{Payload}
use nico_core_mock.Message.Network.{NetworkSegment, NetworkSegmentCreationRequest}
use nico_core_mock.Prelude.{List, Option, String, empty_text, if◌then◌else◌, map, none, some, value}
use nico_core_mock.Reply.{Reply, answer, err, invalid_argument, not_found, ok}
use nico_core_mock.Server.{Handler, Server}

abbrev pub default_network_segment_id : String
default_network_segment_id = "00000000-0000-4000-9000-000000000000"

unfoldable pub new_segment : String → NetworkSegmentCreationRequest → NetworkSegment
new_segment nid req = record {
  id = some nid;
  name = req.name;
  vpc_id = req.vpc_id;
  subdomain_id = req.subdomain_id;
  mtu = req.mtu;
  prefixes = req.prefixes;
}

-- The id of a new segment: the default one, while nothing is stored under it.
unfoldable pub segment_id : Env → GoMap NetworkSegment → String
segment_id e ns = if has default_network_segment_id ns then e.uuid else default_network_segment_id

-- The request carries no id, and the handler does not test whether a fresh id is taken.
unfoldable pub create_network_segment :
    Env → Option NetworkSegmentCreationRequest → Handler NetworkSegment
unfolding new_segment segment_id
create_network_segment e none f = (f, err invalid_argument)
create_network_segment e (some req) f =
    let nid = segment_id e f.ns in
    if empty_text req.name
    then (f, err invalid_argument)
    else (record f { ns = put nid (new_segment nid req) f.ns }, ok (new_segment nid req))

unfoldable pub delete_network_segment : Option (Option String) → Handler Unit
delete_network_segment (some (some id)) f =
    if has id f.ns then (record f { ns = delete id f.ns }, ok tt) else (f, err not_found)
delete_network_segment _ f = (f, err invalid_argument)

unfoldable pub find_network_segment_ids : Env → Option Payload → Server → Reply (List String)
find_network_segment_ids e req f = answer req (λ _. range_keys e.go f.ns)

unfoldable pub find_network_segments_by_ids :
    Option (List (Option String)) → Server → Reply (List NetworkSegment)
find_network_segments_by_ids req f = answer req (λ ids. values_at (map value ids) f.ns)
