-- ===== src/Example/Calls.antt =====
-- The theorems on single handlers at work on the small mock.
use mathlib.Core.Logic.{◌↔◌}
use nico_core_mock.Example.World.{env, server}
use nico_core_mock.Forge.Images.Paired.{HasSystems}
use nico_core_mock.Forge.Instances.{find_instances_by_ids}
use nico_core_mock.Forge.Instances.Address.{host_address}
use nico_core_mock.Forge.Instances.Bounds.{host_address-none, host_address_bounds}
use nico_core_mock.Forge.Instances.Lifecycle.{after_reads, find_instances_by_ids-advances}
use nico_core_mock.Forge.Listing.{listed_with_default-count, once_if}
use nico_core_mock.Forge.Machines.{
  associate_machines, check_machines, find_machine_ids, powered, set_types, visible_machine_ids,
}
use nico_core_mock.Forge.Machines.Association.{Typed, associate_machines-Typed}
use nico_core_mock.Forge.Machines.Visible.{find_machine_ids-count}
use nico_core_mock.Forge.Peering.Pairs.{HasUniquePairs}
use nico_core_mock.Forge.Prefix.{default_vpc_prefix_id, search_vpc_prefixes}
use nico_core_mock.Forge.SecurityGroup.{
  default_network_security_group_id, default_tenant_organization_id,
  find_network_security_group_ids,
}
use nico_core_mock.Forge.Tenants.{find_tenant_organization_ids}
use nico_core_mock.GoMap.{delete, get, has, keys, put, range_keys, values_at}
use nico_core_mock.Message.Compute.{AssociateRequest, OsImageAttributes}
use nico_core_mock.Message.Network.{VpcPeering, VpcPeeringCreationRequest}
use nico_core_mock.Prelude.{
  List, Option, String, [], arith, contains, count, eq_iff, false, if◌then◌else◌, map, map_option,
  none, refl, some, true, value, without, ℕ, ◌&&◌, ◌+◌, ◌-◌, ◌<◌, ◌^◌, ◌∷◌, ◌≡◌, ◌⊎◌,
}
use nico_core_mock.Reply.{ok}
use nico_core_mock.Rpc.Imaged.{step-HasSystems}
use nico_core_mock.Rpc.Peered.{step-HasUniquePairs}
use nico_core_mock.Rpc.Request.{Request}
use nico_core_mock.Rpc.Step.{step}
use nico_core_mock.Server.{Server}

abbrev peering_1 : VpcPeering
peering_1 = record { id = some "peering-1"; vpc_id = some "vpc-1"; peer_vpc_id = some "vpc-2" }

abbrev peered : Server
peered = record server { vpp = put "peering-1" peering_1 [] }

peered-HasUniquePairs : HasUniquePairs peered.vpp
unfolding get put delete
peered-HasUniquePairs = record {
  unique = λ k j p q hk hj h. ground (arith, eq_iff "peering-1" k, eq_iff "peering-1" j);
}

-- The same pair the other way round.
abbrev reversed_request : VpcPeeringCreationRequest
reversed_request = record { id = none; vpc_id = some "vpc-2"; peer_vpc_id = some "vpc-1" }

step-HasUniquePairs_example :
    HasUniquePairs (step env (Request.create_vpc_peering (some reversed_request)) peered).0.vpp
step-HasUniquePairs_example =
    step-HasUniquePairs env (Request.create_vpc_peering (some reversed_request)) peered
      peered-HasUniquePairs

abbrev image_request : OsImageAttributes
image_request = record {
  id = some "image-1";
  source_url = "http://images/ubuntu.qcow2";
  digest = "";
  capacity = 0;
  tenant_organization_id = "org";
  name = some "ubuntu";
  description = none;
}

server-HasSystems : HasSystems server.osi server.oss
unfolding get
server-HasSystems k h = absurd (ground arith)

step-HasSystems_example :
    HasSystems
      (step env (Request.create_os_image (some image_request)) server).0.osi
      (step env (Request.create_os_image (some image_request)) server).0.oss
step-HasSystems_example =
    step-HasSystems env (Request.create_os_image (some image_request)) server refl server-HasSystems

abbrev twice : List (Option String)
twice = some "instance-1" ∷ some "instance-1" ∷ []

find_instances_by_ids-advances_example :
    (get "instance-1" (find_instances_by_ids (some twice) server).0.ins
      ≡ map_option
          (after_reads (count "instance-1" (map value twice)))
          (get "instance-1" server.ins))
    × ((find_instances_by_ids (some twice) server).1
        ≡ ok (values_at (map value twice) (find_instances_by_ids (some twice) server).0.ins))
find_instances_by_ids-advances_example = find_instances_by_ids-advances twice server "instance-1"

-- 10.0.0.0/24
host_address_bounds_example :
    (a : ℕ) × (host_address 167772160 24 1000 ≡ some a)
    × (167772160 < a)
    × (a + 1 < 167772160 + 2 ^ (32 - 24))
host_address_bounds_example =
    host_address_bounds 167772160 24 1000 (omega arith) (omega arith) (omega arith)

host_address-none_example : (host_address 167772160 31 1000 ≡ none) ↔ (◌≡◌ {A = ℕ} 31 31)
host_address-none_example = host_address-none 167772160 31 1000 (omega arith)

abbrev typing_request : AssociateRequest
typing_request = record { instance_type_id = "dgx"; machine_ids = "machine-1" ∷ [] }

associate_machines-Typed_example :
    ((contains "machine-1" typing_request.machine_ids ≡ true)
      × Typed typing_request server "machine-1")
    ⊎ ((contains "machine-1" typing_request.machine_ids ≡ false)
        × (get "machine-1" (associate_machines (some typing_request) server).0.m
            ≡ get "machine-1" server.m))
unfolding associate_machines check_machines set_types get put delete contains
associate_machines-Typed_example = associate_machines-Typed typing_request server "machine-1" refl

find_machine_ids-count_example :
    count "machine-1" ("machine-1" ∷ [])
    ≡ (if has "machine-1" server.m && env.is_powered_on "machine-1" then 1 else 0)
unfolding find_machine_ids visible_machine_ids powered range_keys keys put delete without
find_machine_ids-count_example =
    find_machine_ids-count env "all" server "machine-1" ("machine-1" ∷ []) refl

listed_with_default-count_example :
    (count "org" (search_vpc_prefixes env server)
      ≡ once_if default_vpc_prefix_id "org" (has "org" server.vp))
    × (count "org" (find_network_security_group_ids env server)
        ≡ once_if default_network_security_group_id "org" (has "org" server.nsg))
    × (count "org" (find_tenant_organization_ids env server)
        ≡ once_if default_tenant_organization_id "org" (has "org" server.tt))
listed_with_default-count_example = listed_with_default-count env server "org"
