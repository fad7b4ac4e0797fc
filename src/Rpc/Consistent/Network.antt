-- ===== src/Rpc/Consistent/Network.antt =====
-- The ids of stored VPCs, segments, prefixes and peerings.
use nico_core_mock.Persist.Key
use nico_core_mock.Env.{Env}
use nico_core_mock.Forge.Ids.{choose_id}
use nico_core_mock.Forge.Peering.{
  create_vpc_peering, default_vpc_peering_id, delete_vpc_peering, new_peering,
}
use nico_core_mock.Forge.Prefix.{
  create_vpc_prefix, default_vpc_prefix_id, delete_vpc_prefix, new_vpc_prefix, update_vpc_prefix,
  updated_prefix,
}
use nico_core_mock.Forge.Segment.{
  create_network_segment, default_network_segment_id, delete_network_segment, new_segment,
  segment_id,
}
use nico_core_mock.Forge.Vpc.{
  create_vpc, default_vpc_id, delete_vpc, new_vpc, rename_vpc, update_vpc,
}
use nico_core_mock.GoMap.{GoMap, get, has}
use nico_core_mock.GoMap.Laws.{get-delete, get-put}
use nico_core_mock.GoMap.Load.{IsKeyed}
use nico_core_mock.Message.Network.{
  NetworkSegment, NetworkSegmentCreationRequest, VpcCreationRequest, VpcPeeringCreationRequest,
  VpcPrefixCreationRequest, VpcPrefixUpdateRequest, VpcUpdateRequest,
}
use nico_core_mock.Prelude.{
  Bool-cases, Option, Option-cases, String, arith, empty_text, eq_iff, false, inl, inr, none, refl,
  some, value, ◌≡◌,
}
use nico_core_mock.Rpc.Consistent.Fresh.{IsFresh, choose_id-nonempty}
use nico_core_mock.Server.{Server}

pub create_vpc-IsKeyed :
    (e : Env) (q : Option VpcCreationRequest) (f : Server)
    → IsFresh e
    → IsKeyed Key.vpc f.v
    → IsKeyed Key.vpc (create_vpc e q f).0.v
unfolding create_vpc new_vpc
create_vpc-IsKeyed e none f fresh w = w
create_vpc-IsKeyed e (some req) f fresh w =
    let nid = choose_id e default_vpc_id req.id f.v in
    record {
      at = λ k x p. ground (
        arith,
        get-put nid k (new_vpc nid req) f.v,
        w.at k x,
        choose_id-nonempty e default_vpc_id req.id f.v fresh.uuid refl,
        eq_iff nid k,
      );
    }

pub update_vpc-IsKeyed :
    (q : Option VpcUpdateRequest) (f : Server)
    → IsKeyed Key.vpc f.v
    → IsKeyed Key.vpc (update_vpc q f).0.v
unfolding update_vpc rename_vpc
update_vpc-IsKeyed none f w = w
update_vpc-IsKeyed (some req) f w =
    let id = value req.id in
    elim (Option-cases (get id f.v)) [
      | inl missing ↦ record { at = λ k x p. ground (arith, w.at k x) }
      | inr (old, found) ↦ record {
        at = λ k x p.
            ground (
              arith,
              get-put id k (rename_vpc req.name old) f.v,
              w.at k x,
              w.at id old,
              eq_iff id k,
            );
      }
    ]

pub delete_vpc-IsKeyed :
    (q : Option (Option String)) (f : Server)
    → IsKeyed Key.vpc f.v
    → IsKeyed Key.vpc (delete_vpc q f).0.v
unfolding delete_vpc
delete_vpc-IsKeyed none f w = w
delete_vpc-IsKeyed (some none) f w = w
delete_vpc-IsKeyed (some (some id)) f w = record {
  at = λ k x p. ground (arith, get-delete id k f.v, w.at k x);
}

segment_id-nonempty :
    (e : Env) (ns : GoMap NetworkSegment)
    → empty_text e.uuid ≡ false
    → empty_text (segment_id e ns) ≡ false
unfolding segment_id
segment_id-nonempty e ns u = elim (Bool-cases (has default_network_segment_id ns)) [
  | inl b ↦ rw (b, segment_id) u
  | inr b ↦ rw (b, segment_id) refl
]

pub create_network_segment-IsKeyed :
    (e : Env) (q : Option NetworkSegmentCreationRequest) (f : Server)
    → IsFresh e
    → IsKeyed Key.segment f.ns
    → IsKeyed Key.segment (create_network_segment e q f).0.ns
unfolding create_network_segment new_segment
create_network_segment-IsKeyed e none f fresh w = w
create_network_segment-IsKeyed e (some req) f fresh w =
    let nid = segment_id e f.ns in
    record {
      at = λ k x p. ground (
        arith,
        get-put nid k (new_segment nid req) f.ns,
        w.at k x,
        segment_id-nonempty e f.ns fresh.uuid,
        eq_iff nid k,
      );
    }

pub delete_network_segment-IsKeyed :
    (q : Option (Option String)) (f : Server)
    → IsKeyed Key.segment f.ns
    → IsKeyed Key.segment (delete_network_segment q f).0.ns
unfolding delete_network_segment
delete_network_segment-IsKeyed none f w = w
delete_network_segment-IsKeyed (some none) f w = w
delete_network_segment-IsKeyed (some (some id)) f w = record {
  at = λ k x p. ground (arith, get-delete id k f.ns, w.at k x);
}

pub create_vpc_prefix-IsKeyed :
    (e : Env) (q : Option VpcPrefixCreationRequest) (f : Server)
    → IsFresh e
    → IsKeyed Key.prefix_id f.vp
    → IsKeyed Key.prefix_id (create_vpc_prefix e q f).0.vp
unfolding create_vpc_prefix new_vpc_prefix
create_vpc_prefix-IsKeyed e none f fresh w = w
create_vpc_prefix-IsKeyed e (some req) f fresh w =
    let nid = choose_id e default_vpc_prefix_id req.id f.vp in
    record {
      at = λ k x p. ground (
        arith,
        get-put nid k (new_vpc_prefix nid req) f.vp,
        w.at k x,
        choose_id-nonempty e default_vpc_prefix_id req.id f.vp fresh.uuid refl,
        eq_iff nid k,
      );
    }

pub update_vpc_prefix-IsKeyed :
    (q : Option VpcPrefixUpdateRequest) (f : Server)
    → IsKeyed Key.prefix_id f.vp
    → IsKeyed Key.prefix_id (update_vpc_prefix q f).0.vp
unfolding update_vpc_prefix updated_prefix
update_vpc_prefix-IsKeyed none f w = w
update_vpc_prefix-IsKeyed (some req) f w =
    let id = value req.id in
    elim (Option-cases (get id f.vp)) [
      | inl missing ↦ record { at = λ k x p. ground (arith, w.at k x) }
      | inr (old, found) ↦ record {
        at = λ k x p.
            ground (
              arith,
              get-put id k (updated_prefix req old) f.vp,
              w.at k x,
              w.at id old,
              eq_iff id k,
            );
      }
    ]

pub delete_vpc_prefix-IsKeyed :
    (q : Option (Option String)) (f : Server)
    → IsKeyed Key.prefix_id f.vp
    → IsKeyed Key.prefix_id (delete_vpc_prefix q f).0.vp
unfolding delete_vpc_prefix
delete_vpc_prefix-IsKeyed none f w = w
delete_vpc_prefix-IsKeyed (some id) f w = record {
  at = λ k x p. ground (arith, get-delete (value id) k f.vp, w.at k x);
}

pub create_vpc_peering-IsKeyed :
    (e : Env) (q : Option VpcPeeringCreationRequest) (f : Server)
    → IsFresh e
    → IsKeyed Key.peering f.vpp
    → IsKeyed Key.peering (create_vpc_peering e q f).0.vpp
unfolding create_vpc_peering new_peering
create_vpc_peering-IsKeyed e none f fresh w = w
create_vpc_peering-IsKeyed e (some req) f fresh w =
    let nid = choose_id e default_vpc_peering_id req.id f.vpp in
    record {
      at = λ k x p. ground (
        arith,
        get-put nid k (new_peering nid req) f.vpp,
        w.at k x,
        choose_id-nonempty e default_vpc_peering_id req.id f.vpp fresh.uuid refl,
        eq_iff nid k,
      );
    }

pub delete_vpc_peering-IsKeyed :
    (q : Option (Option String)) (f : Server)
    → IsKeyed Key.peering f.vpp
    → IsKeyed Key.peering (delete_vpc_peering q f).0.vpp
unfolding delete_vpc_peering
delete_vpc_peering-IsKeyed none f w = w
delete_vpc_peering-IsKeyed (some id) f w = record {
  at = λ k x p. ground (arith, get-delete (value id) k f.vpp, w.at k x);
}
