-- ===== src/Forge/Peering/Pairs.antt =====
-- The pairs of VPCs that CreateVpcPeering and DeleteVpcPeering of internal/server/forge_server.go
-- leave stored.
use mathlib.Core.Bool.{false≢true}
use nico_core_mock.Env.{Env}
use nico_core_mock.Forge.Ids.{choose_id}
use nico_core_mock.Forge.Peering.{
  any_matches, create_vpc_peering, default_vpc_peering_id, delete_vpc_peering, new_peering,
  peering_matches_pair,
}
use nico_core_mock.GoMap.{
  GoMap, Runtime, delete, get, has, put, range_keys, range_values, values_at,
}
use nico_core_mock.GoMap.Laws.{contains-range_keys, get-delete, get-put}
use nico_core_mock.Message.Network.{VpcPeering, VpcPeeringCreationRequest}
use nico_core_mock.Prelude.{
  Bool-cases, List, Option, Option-cases, String, [], ap, arith, contains, eq_iff, false, given,
  inl, inr, is_some, none, some, sym, true, value, ◌&&◌, ◌==◌, ◌∙◌, ◌∷◌, ◌≡◌,
}
use nico_core_mock.Server.{Server}

-- The keys of two stored peerings of the same pair are equal.
pub record HasUniquePairs (vpp : GoMap VpcPeering) : Type 0 where
  pub unique :
      (k j : String) (p q : VpcPeering)
      → get k vpp ≡ some p
      → get j vpp ≡ some q
      → peering_matches_pair p (value q.vpc_id) (value q.peer_vpc_id) ≡ true
      → k ≡ j

-- A stored peering that matches is found by the loop, if its key is visited.
any_matches_at :
    (a b k : String) (p : VpcPeering) (ks : List String) (vpp : GoMap VpcPeering)
    → get k vpp ≡ some p
    → contains k ks ≡ true
    → peering_matches_pair p a b ≡ true
    → any_matches (values_at ks vpp) a b ≡ true
unfolding any_matches contains values_at
any_matches_at a b k p [] vpp found c h = absurd (ground arith)
any_matches_at a b k p (x ∷ ks) vpp found c h = elim (Bool-cases (x == k)) [
  | inl same ↦ rw ((eq_iff x k).0 same, found, values_at) (rw (h, any_matches))
  | inr other ↦ elim (Option-cases (get x vpp)) [
    | inl e ↦ rw (e, values_at) (any_matches_at a b k p ks vpp found (ground arith) h)
    | inr (q, e) ↦
        rw (e, values_at) (ground (arith, any_matches_at a b k p ks vpp found (ground arith) h))
  ]
]

no_match_stored :
    (go : Runtime) (a b k : String) (p : VpcPeering) (vpp : GoMap VpcPeering)
    → any_matches (range_values go vpp) a b ≡ false
    → get k vpp ≡ some p
    → peering_matches_pair p a b ≡ false
unfolding range_values
no_match_stored go a b k p vpp none_matches found = elim (Bool-cases (peering_matches_pair p a b)) [
  | inl h ↦ absurd (
      false≢true (
        sym none_matches
        ∙ any_matches_at a b k p (range_keys go vpp) vpp found
            (contains-range_keys go k vpp ∙ ap is_some found) h))
  | inr h ↦ h
]

-- The test does not depend on which of the two peerings was first.
peering_matches_pair_symm :
    (p q : VpcPeering)
    → peering_matches_pair p (value q.vpc_id) (value q.peer_vpc_id)
      ≡ peering_matches_pair q (value p.vpc_id) (value p.peer_vpc_id)
unfolding peering_matches_pair
peering_matches_pair_symm p q = ground (
  arith,
  eq_iff (value p.vpc_id) (value q.vpc_id),
  eq_iff (value q.vpc_id) (value p.vpc_id),
  eq_iff (value p.peer_vpc_id) (value q.peer_vpc_id),
  eq_iff (value q.peer_vpc_id) (value p.peer_vpc_id),
  eq_iff (value p.vpc_id) (value q.peer_vpc_id),
  eq_iff (value q.peer_vpc_id) (value p.vpc_id),
  eq_iff (value p.peer_vpc_id) (value q.vpc_id),
  eq_iff (value q.vpc_id) (value p.peer_vpc_id),
)

put-HasUniquePairs :
    (go : Runtime) (nid : String) (n : VpcPeering) (vpp : GoMap VpcPeering)
    → any_matches (range_values go vpp) (value n.vpc_id) (value n.peer_vpc_id) ≡ false
    → HasUniquePairs vpp
    → HasUniquePairs (put nid n vpp)
put-HasUniquePairs go nid n vpp free u = record {
  unique = λ k j p q hk hj h. ground (
    arith,
    get-put nid k n vpp,
    get-put nid j n vpp,
    eq_iff nid k,
    eq_iff nid j,
    u.unique k j p q,
    no_match_stored go (value n.vpc_id) (value n.peer_vpc_id) k p vpp free,
    no_match_stored go (value n.vpc_id) (value n.peer_vpc_id) j q vpp free,
    peering_matches_pair_symm p q,
  );
}

delete-HasUniquePairs :
    (id : String) (vpp : GoMap VpcPeering) → HasUniquePairs vpp → HasUniquePairs (delete id vpp)
delete-HasUniquePairs id vpp u = record {
  unique =
      λ k j p q hk hj h. ground (arith, get-delete id k vpp, get-delete id j vpp, u.unique k j p q);
}

pub create_vpc_peering-HasUniquePairs :
    (e : Env) (q : Option VpcPeeringCreationRequest) (f : Server)
    → HasUniquePairs f.vpp
    → HasUniquePairs (create_vpc_peering e q f).0.vpp
unfolding create_vpc_peering
create_vpc_peering-HasUniquePairs e none f u = u
create_vpc_peering-HasUniquePairs e (some req) f u =
    let nid = choose_id e default_vpc_peering_id req.id f.vpp in
    elim (Bool-cases (given req.vpc_id && given req.peer_vpc_id)) [
      | inr bad ↦ rw (bad, create_vpc_peering) u
      | inl valid ↦
          rw (valid, create_vpc_peering)
            (elim (Bool-cases (has nid f.vpp)) [
              | inl taken ↦ rw taken u
              | inr free ↦
                  rw free
                    (elim (Bool-cases (
                      any_matches (range_values e.go f.vpp) (value req.vpc_id)
                        (value req.peer_vpc_id))) [
                          | inl peered ↦ rw peered u
                          | inr apart ↦ rw apart (
                              put-HasUniquePairs e.go nid (new_peering nid req) f.vpp
                                (unfold new_peering in apart) u)
                        ])
            ])
    ]

pub delete_vpc_peering-HasUniquePairs :
    (q : Option (Option String)) (f : Server)
    → HasUniquePairs f.vpp
    → HasUniquePairs (delete_vpc_peering q f).0.vpp
unfolding delete_vpc_peering
delete_vpc_peering-HasUniquePairs none f u = u
delete_vpc_peering-HasUniquePairs (some id) f u = elim (Bool-cases (given id)) [
  | inr bad ↦ rw (bad, delete_vpc_peering) u
  | inl valid ↦
      rw (valid, delete_vpc_peering)
        (elim (Bool-cases (has (value id) f.vpp)) [
          | inl there ↦ rw there (delete-HasUniquePairs (value id) f.vpp u)
          | inr missing ↦ rw missing u
        ])
]
