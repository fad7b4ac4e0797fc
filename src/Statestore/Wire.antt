-- ===== src/Statestore/Wire.antt =====
-- The two forms of a snapshot in internal/statestore/store.go: marshalProtoSlice,
-- unmarshalProtoSlice, snapshotToWire and wireToSnapshot. `protojson` and `encoding/json` are
-- parameters, and so are the texts that they write: `Raw` for a message, `Doc` for the whole file.
use nico_core_mock.Message.Compute.{Instance, InstanceType, Machine, OperatingSystem, OsImage}
use nico_core_mock.Message.Network.{NetworkSegment, Vpc, VpcPeering, VpcPrefix}
use nico_core_mock.Persist.{Snapshot}
use nico_core_mock.Prelude.{
  List, Option, Option-cases, [], arith, inl, inr, none, refl, some, ℕ, ◌∷◌, ◌≡◌,
}

-- What `protojson` does for one type of message: what it has written it reads back.
pub record Codec (Raw A : Type 0) : Type 0 where
  pub marshal : A → Option Raw
  pub unmarshal : Raw → Option A
  pub unmarshal-marshal : (a : A) (r : Raw) → marshal a ≡ some r → unmarshal r ≡ some a

pub record SnapshotWire (Raw : Type 0) : Type 0 where
  pub version : ℕ
  pub vpcs : List Raw
  pub network_segments : List Raw
  pub instances : List Raw
  pub machines : List Raw
  pub vpc_prefixes : List Raw
  pub vpc_peerings : List Raw
  pub os_images : List Raw
  pub operating_systems : List Raw
  pub instance_types : List Raw

pub record Codecs (Raw Doc : Type 0) : Type 0 where
  pub vpc : Codec Raw Vpc
  pub network_segment : Codec Raw NetworkSegment
  pub instance_message : Codec Raw Instance
  pub machine : Codec Raw Machine
  pub vpc_prefix : Codec Raw VpcPrefix
  pub vpc_peering : Codec Raw VpcPeering
  pub os_image : Codec Raw OsImage
  pub operating_system : Codec Raw OperatingSystem
  pub instance_type : Codec Raw InstanceType
  -- `json.Marshal` and `json.Unmarshal` of the whole document
  pub document : Codec Doc (SnapshotWire Raw)

infixl 10 ◌>>=◌
abbrev pub ◌>>=◌ {ℓ κ} : {A : Type ℓ} {B : Type κ} → Option A → (A → Option B) → Option B
none >>= f = none
some a >>= f = f a

module _ {Raw A : Type 0} (c : Codec Raw A) where
  unfoldable pub marshal_proto_slice : List A → Option (List Raw)
  marshal_proto_slice [] = some []
  marshal_proto_slice (x ∷ xs) = do r ← c.marshal x; rs ← marshal_proto_slice xs; some (r ∷ rs)

  unfoldable pub unmarshal_proto_slice : List Raw → Option (List A)
  unmarshal_proto_slice [] = some []
  unmarshal_proto_slice (r ∷ rs) = do
    x ← c.unmarshal r
    xs ← unmarshal_proto_slice rs
    some (x ∷ xs)

  element_law : (x : A) → (c.marshal x >>= c.unmarshal) ≡ (c.marshal x >>= λ _. some x)
  element_law x = elim (Option-cases (c.marshal x)) [
    | inl e ↦ rw e
    | inr (r, e) ↦ rw e (c.unmarshal-marshal x r e)
  ]

  -- A slice that was marshalled is read back as it was.
  pub slice_law :
      (xs : List A)
      → (marshal_proto_slice xs >>= unmarshal_proto_slice)
        ≡ (marshal_proto_slice xs >>= λ _. some xs)
  unfolding marshal_proto_slice unmarshal_proto_slice
  slice_law [] = refl
  slice_law (x ∷ xs) = ground (arith, element_law x, slice_law xs)

module _ {Raw Doc : Type 0} (cs : Codecs Raw Doc) where
  unfoldable pub snapshot_to_wire : Snapshot → Option (SnapshotWire Raw)
  snapshot_to_wire snap = do
    vpcs ← marshal_proto_slice cs.vpc snap.vpcs
    network_segments ← marshal_proto_slice cs.network_segment snap.network_segments
    instances ← marshal_proto_slice cs.instance_message snap.instances
    machines ← marshal_proto_slice cs.machine snap.machines
    vpc_prefixes ← marshal_proto_slice cs.vpc_prefix snap.vpc_prefixes
    vpc_peerings ← marshal_proto_slice cs.vpc_peering snap.vpc_peerings
    os_images ← marshal_proto_slice cs.os_image snap.os_images
    operating_systems ← marshal_proto_slice cs.operating_system snap.operating_systems
    instance_types ← marshal_proto_slice cs.instance_type snap.instance_types
    some (record {
      version = snap.version;
      vpcs = vpcs;
      network_segments = network_segments;
      instances = instances;
      machines = machines;
      vpc_prefixes = vpc_prefixes;
      vpc_peerings = vpc_peerings;
      os_images = os_images;
      operating_systems = operating_systems;
      instance_types = instance_types;
    })

  unfoldable pub wire_to_snapshot : SnapshotWire Raw → Option Snapshot
  wire_to_snapshot wire = do
    vpcs ← unmarshal_proto_slice cs.vpc wire.vpcs
    network_segments ← unmarshal_proto_slice cs.network_segment wire.network_segments
    instances ← unmarshal_proto_slice cs.instance_message wire.instances
    machines ← unmarshal_proto_slice cs.machine wire.machines
    vpc_prefixes ← unmarshal_proto_slice cs.vpc_prefix wire.vpc_prefixes
    vpc_peerings ← unmarshal_proto_slice cs.vpc_peering wire.vpc_peerings
    os_images ← unmarshal_proto_slice cs.os_image wire.os_images
    operating_systems ← unmarshal_proto_slice cs.operating_system wire.operating_systems
    instance_types ← unmarshal_proto_slice cs.instance_type wire.instance_types
    some (record {
      version = wire.version;
      vpcs = vpcs;
      network_segments = network_segments;
      instances = instances;
      machines = machines;
      vpc_prefixes = vpc_prefixes;
      vpc_peerings = vpc_peerings;
      os_images = os_images;
      operating_systems = operating_systems;
      instance_types = instance_types;
    })

  -- A snapshot that was brought into its wire form is read back from it as it was: all nine lists,
  -- with their order, and the version.
  pub wire_to_snapshot-snapshot_to_wire :
      (snap : Snapshot) (wire : SnapshotWire Raw)
      → snapshot_to_wire snap ≡ some wire
      → wire_to_snapshot wire ≡ some snap
  unfolding snapshot_to_wire wire_to_snapshot
  wire_to_snapshot-snapshot_to_wire snap wire h = ground (
    arith,
    slice_law cs.vpc snap.vpcs,
    slice_law cs.network_segment snap.network_segments,
    slice_law cs.instance_message snap.instances,
    slice_law cs.machine snap.machines,
    slice_law cs.vpc_prefix snap.vpc_prefixes,
    slice_law cs.vpc_peering snap.vpc_peerings,
    slice_law cs.os_image snap.os_images,
    slice_law cs.operating_system snap.operating_systems,
    slice_law cs.instance_type snap.instance_types,
  )
