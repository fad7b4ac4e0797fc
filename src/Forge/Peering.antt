-- ===== src/Forge/Peering.antt =====
-- VPC peerings: CreateVpcPeering, DeleteVpcPeering, peeringMatchesPair, FindVpcPeeringIds and
-- FindVpcPeeringsByIds of internal/server/forge_server.go.
pub mod Pairs
use nico_core_mock.Env.{Env}
use nico_core_mock.Forge.Ids.{choose_id}
use nico_core_mock.GoMap.{GoMap, delete, get, has, put, range_keys, range_values, values_at}
use nico_core_mock.Identity.Slots.{sort_by_kid as sort_by}
use nico_core_mock.Message.Network.{VpcPeering, VpcPeeringCreationRequest}
use nico_core_mock.Prelude.{
  Bool, List, Option, String, [], empty_text, false, given, if◌then◌else◌, map, none, some, value,
  ◌&&◌, ◌==◌, ◌||◌, ◌∷◌,
}
use nico_core_mock.Reply.{Reply, already_exists, answer, err, invalid_argument, not_found, ok}
use nico_core_mock.Server.{Handler, Server}

abbrev pub default_vpc_peering_id : String
default_vpc_peering_id = "00000000-0000-4000-8001-000000000000"

unfoldable pub peering_matches_pair : VpcPeering → String → String → Bool
peering_matches_pair p vpc_id peer_vpc_id =
    let a = value p.vpc_id in
    let b = value p.peer_vpc_id in
    (a == vpc_id && b == peer_vpc_id) || (a == peer_vpc_id && b == vpc_id)

-- The loop that looks for a peering of the same pair.
unfoldable pub any_matches : List VpcPeering → String → String → Bool
unfolding peering_matches_pair
any_matches [] a b = false
any_matches (p ∷ ps) a b = peering_matches_pair p a b || any_matches ps a b

unfoldable pub new_peering : String → VpcPeeringCreationRequest → VpcPeering
new_peering nid req = record {
  id = some nid;
  vpc_id = some (value req.vpc_id);
  peer_vpc_id = some (value req.peer_vpc_id);
}

unfoldable pub create_vpc_peering : Env → Option VpcPeeringCreationRequest → Handler VpcPeering
unfolding choose_id any_matches new_peering
create_vpc_peering e none f = (f, err invalid_argument)
create_vpc_peering e (some req) f =
    let nid = choose_id e default_vpc_peering_id req.id f.vpp in
    if given req.vpc_id && given req.peer_vpc_id
    then (if has nid f.vpp
        then (f, err already_exists)
        else if any_matches (range_values e.go f.vpp) (value req.vpc_id) (value req.peer_vpc_id)
        then (f, err already_exists)
        else (record f { vpp = put nid (new_peering nid req) f.vpp }, ok (new_peering nid req)))
    else (f, err invalid_argument)

unfoldable pub delete_vpc_peering : Option (Option String) → Handler Unit
delete_vpc_peering none f = (f, err invalid_argument)
delete_vpc_peering (some id) f =
    if given id
    then (if has (value id) f.vpp
        then (record f { vpp = delete (value id) f.vpp }, ok tt)
        else (f, err not_found))
    else (f, err invalid_argument)

-- The filter names one side of the pair; "" lets every peering through.
abbrev pub touches_vpc : String → VpcPeering → Bool
touches_vpc vpc p = empty_text vpc || (value p.vpc_id == vpc || value p.peer_vpc_id == vpc)

unfoldable pub peering_ids : String → List String → GoMap VpcPeering → List String
peering_ids vpc [] vpp = []
peering_ids vpc (k ∷ ks) vpp =
    let rest = peering_ids vpc ks vpp in
    elim (get k vpp) [ none ↦ rest | some p ↦ if touches_vpc vpc p then k ∷ rest else rest ]

-- `req.GetVpcId().GetValue()` is "" on a nil request.
unfoldable pub find_vpc_peering_ids : Env → String → Server → List String
unfolding peering_ids
find_vpc_peering_ids e vpc f = e.go.sort (peering_ids vpc (range_keys e.go f.vpp) f.vpp)

-- Without ids all peerings are returned, by the id that each holds. `sort.Slice` leaves open the
-- order of those with one id, which are here in the order in which the map was visited.
unfoldable pub listed_peerings : Env → List (Option String) → Server → List VpcPeering
unfolding sort_by
listed_peerings e [] f = sort_by (λ p. value p.id) (range_values e.go f.vpp)
listed_peerings e (id ∷ ids) f = values_at (map value (id ∷ ids)) f.vpp

unfoldable pub find_vpc_peerings_by_ids :
    Env → Option (List (Option String)) → Server → Reply (List VpcPeering)
unfolding listed_peerings
find_vpc_peerings_by_ids e req f = answer req (λ ids. listed_peerings e ids f)
