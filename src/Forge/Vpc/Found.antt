-- ===== src/Forge/Vpc/Found.antt =====
-- CreateVpc and FindVpcsByIds of internal/server/forge_server.go together.
use nico_core_mock.Env.{Env}
use nico_core_mock.Forge.Ids.{choose_id}
use nico_core_mock.Forge.Vpc.{create_vpc, default_vpc_id, find_vpcs_by_ids, new_vpc}
use nico_core_mock.GoMap.{GoMap, get, has, put, values_at}
use nico_core_mock.GoMap.Laws.{get-put}
use nico_core_mock.Message.Network.{Vpc, VpcCreationRequest}
use nico_core_mock.Prelude.{String, [], ap, arith, eq_iff, false, refl, some, value, ◌∷◌, ◌≡◌}
use nico_core_mock.Reply.{ok}
use nico_core_mock.Server.{Server}

values_at-single :
    {V : Type 0} (k : String) (x : V) (m : GoMap V)
    → get k m ≡ some x
    → values_at (k ∷ []) m ≡ x ∷ []
unfolding values_at
values_at-single k x m h = rw (h, values_at) refl

-- Where CreateVpc succeeds, FindVpcsByIds of the id of the VPC that it returned answers with just that
-- VPC, and its id was free before.
pub create_vpc-find_vpcs_by_ids :
    (e : Env) (req : VpcCreationRequest) (f : Server) (x : Vpc)
    → (create_vpc e (some req) f).1 ≡ ok x
    → (find_vpcs_by_ids (some (x.id ∷ [])) (create_vpc e (some req) f).0 ≡ ok (x ∷ []))
      × (has (value x.id) f.v ≡ false)
unfolding create_vpc find_vpcs_by_ids new_vpc
create_vpc-find_vpcs_by_ids e req f x done =
    let nid = choose_id e default_vpc_id req.id f.v in
    let made = new_vpc nid req in
    let same : x ≡ made = ground arith in
    let after : (create_vpc e (some req) f).0.v ≡ put nid made f.v = ground arith in
    let stored : get nid (put nid made f.v) ≡ some made =
      ground (arith, get-put nid nid made f.v, eq_iff nid nid) in
    (
      rw (same, after) (ap ok (values_at-single nid made (put nid made f.v) stored)),
      rw same (ground arith),
    )
