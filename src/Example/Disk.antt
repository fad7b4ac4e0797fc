-- ===== src/Example/Disk.antt =====
-- A disk that is a map from paths to documents, and texts that are the messages themselves.
use mathlib.Core.Bool.{false≢true}
use nico_core_mock.GoMap.{GoMap, delete, get, put}
use nico_core_mock.GoMap.Laws.{get-delete, get-put}
use nico_core_mock.Message.Compute.{Instance, InstanceType, Machine, OperatingSystem, OsImage}
use nico_core_mock.Message.Network.{NetworkSegment, Vpc, VpcPeering, VpcPrefix}
use nico_core_mock.Persist.{Snapshot}
use nico_core_mock.Prelude.{
  Bool, List, Option, Option-cases, String, [], ap, arith, eq_iff, false, inl, inr, none, refl,
  some, true, ◌∷◌, ◌≡◌, ◌≢◌,
}
use nico_core_mock.Serve.Durable.{IsWorking}
use nico_core_mock.Statestore.Disk.{
  FileSystem, ReadResult, contents, encode, make_dir, not_exist, replace_file, save, tmp_path,
  versioned, write_and_replace, write_out,
}
use nico_core_mock.Statestore.Wire.{
  Codec, Codecs, SnapshotWire, marshal_proto_slice, snapshot_to_wire,
}

-- A text of `protojson`: the message that it was written from.
pub data Raw : Type 0 where
  vpc_text : Vpc → Raw
  segment_text : NetworkSegment → Raw
  instance_text : Instance → Raw
  machine_text : Machine → Raw
  prefix_text : VpcPrefix → Raw
  peering_text : VpcPeering → Raw
  image_text : OsImage → Raw
  system_text : OperatingSystem → Raw
  type_text : InstanceType → Raw

abbrev pub Doc : Type 0
Doc = SnapshotWire Raw

abbrev pub Disk : Type 0
Disk = GoMap Doc

abbrev pub read_vpc : Raw → Option Vpc
read_vpc (vpc_text x) = some x
read_vpc _ = none

abbrev pub read_segment : Raw → Option NetworkSegment
read_segment (segment_text x) = some x
read_segment _ = none

abbrev pub read_instance : Raw → Option Instance
read_instance (instance_text x) = some x
read_instance _ = none

abbrev pub read_machine : Raw → Option Machine
read_machine (machine_text x) = some x
read_machine _ = none

abbrev pub read_prefix : Raw → Option VpcPrefix
read_prefix (prefix_text x) = some x
read_prefix _ = none

abbrev pub read_peering : Raw → Option VpcPeering
read_peering (peering_text x) = some x
read_peering _ = none

abbrev pub read_image : Raw → Option OsImage
read_image (image_text x) = some x
read_image _ = none

abbrev pub read_system : Raw → Option OperatingSystem
read_system (system_text x) = some x
read_system _ = none

abbrev pub read_type : Raw → Option InstanceType
read_type (type_text x) = some x
read_type _ = none

pub read-write :
    {Raw A : Type 0} (write : A → Raw) (read : Raw → Option A) (a : A) (r : Raw)
    → read (write a) ≡ some a
    → some (write a) ≡ some r
    → read r ≡ some a
read-write write read a r law h = ground (arith, ap read)

-- Writing that always succeeds.
abbrev pub total_codec :
    {Raw A : Type 0}
    → (write : A → Raw) → (read : Raw → Option A) → ((a : A) → read (write a) ≡ some a)
    → Codec Raw A
total_codec write read law = record {
  marshal = λ a. some (write a);
  unmarshal = read;
  unmarshal-marshal = λ a r h. read-write write read a r (law a) h;
}

abbrev pub codecs : Codecs Raw Doc
codecs = record {
  vpc = total_codec vpc_text read_vpc (λ a. refl);
  network_segment = total_codec segment_text read_segment (λ a. refl);
  instance_message = total_codec instance_text read_instance (λ a. refl);
  machine = total_codec machine_text read_machine (λ a. refl);
  vpc_prefix = total_codec prefix_text read_prefix (λ a. refl);
  vpc_peering = total_codec peering_text read_peering (λ a. refl);
  os_image = total_codec image_text read_image (λ a. refl);
  operating_system = total_codec system_text read_system (λ a. refl);
  instance_type = total_codec type_text read_type (λ a. refl);
  document = total_codec (λ x. x) some (λ a. refl);
}

abbrev pub read_disk : String → Disk → ReadResult Doc
read_disk p d = elim (get p d) [ none ↦ not_exist | some x ↦ contents x ]

abbrev pub move : String → String → Disk → Disk × Bool
move p q d = elim (get p d) [ none ↦ (d, false) | some x ↦ (put q x (delete p d), true) ]

pub move-read :
    (p q : String) (d : Disk) → (move p q d).1 ≡ true → read_disk q (move p q d).0 ≡ read_disk p d
move-read p q d h = elim (Option-cases (get p d)) [
  | inl e ↦ absurd (ground arith)
  | inr (x, e) ↦ rw (e, move, read_disk) (ground (arith, get-put q q x (delete p d), eq_iff q q))
]

pub move-read_failed :
    (p q r : String) (d : Disk)
    → (move p q d).1 ≡ false
    → read_disk r (move p q d).0 ≡ read_disk r d
move-read_failed p q r d h = elim (Option-cases (get p d)) [
  | inl e ↦ rw (e, move, read_disk) refl
  | inr (x, e) ↦ absurd (ground arith)
]

pub write-read_ne :
    (p q : String) (x : Doc) (d : Disk) → p ≢ q → read_disk q (put p x d) ≡ read_disk q d
write-read_ne p q x d h = ground (arith, get-put p q x d, eq_iff p q)

pub write-read : (p : String) (x : Doc) (d : Disk) → read_disk p (put p x d) ≡ contents x
write-read p x d = ground (arith, get-put p p x d, eq_iff p p)

pub remove-read : (p q : String) (d : Disk) → p ≢ q → read_disk q (delete p d) ≡ read_disk q d
remove-read p q d h = ground (arith, get-delete p q d, eq_iff p q)

-- Only a rename of a file that is not there fails.
abbrev pub file_system : FileSystem Disk Doc
file_system = record {
  dir = λ p. "state";
  read_file = read_disk;
  mkdir_all = λ p d. (d, true);
  write_file = λ p x d. (put p x d, true);
  rename = move;
  remove = delete;
  read-mkdir_all = λ q d. refl;
  read-write_file_ne = write-read_ne;
  read-write_file = λ p x d h. write-read p x d;
  read-rename = move-read;
  read-rename_failed = move-read_failed;
  read-remove = remove-read;
}

module _ {A : Type 0} (write : A → Raw) (read : Raw → Option A)
    (law : (a : A) → read (write a) ≡ some a) where
  slice-succeeds :
      (xs : List A)
      → (rs : List Raw) × (marshal_proto_slice (total_codec write read law) xs ≡ some rs)
  unfolding marshal_proto_slice
  slice-succeeds [] = ([], refl)
  slice-succeeds (x ∷ xs) = let (rs, e) = slice-succeeds xs in (write x ∷ rs, rw e refl)

snapshot_to_wire-succeeds :
    (snap : Snapshot) → (wire : SnapshotWire Raw) × (snapshot_to_wire codecs snap ≡ some wire)
unfolding snapshot_to_wire
snapshot_to_wire-succeeds snap =
    let (a, ea) = slice-succeeds vpc_text read_vpc (λ x. refl) snap.vpcs in
    let (b, eb) = slice-succeeds segment_text read_segment (λ x. refl) snap.network_segments in
    let (c, ec) = slice-succeeds instance_text read_instance (λ x. refl) snap.instances in
    let (d, ed) = slice-succeeds machine_text read_machine (λ x. refl) snap.machines in
    let (e, ee) = slice-succeeds prefix_text read_prefix (λ x. refl) snap.vpc_prefixes in
    let (f, ef) = slice-succeeds peering_text read_peering (λ x. refl) snap.vpc_peerings in
    let (g, eg) = slice-succeeds image_text read_image (λ x. refl) snap.os_images in
    let (h, eh) = slice-succeeds system_text read_system (λ x. refl) snap.operating_systems in
    let (i, ei) = slice-succeeds type_text read_type (λ x. refl) snap.instance_types in
    (
      record {
        version = snap.version;
        vpcs = a;
        network_segments = b;
        instances = c;
        machines = d;
        vpc_prefixes = e;
        vpc_peerings = f;
        os_images = g;
        operating_systems = h;
        instance_types = i;
      },
      rw (ea, eb, ec, ed, ee, ef, eg, eh, ei) refl,
    )

abbrev pub state_file : String
state_file = "state/mock.json"

abbrev pub service : String
service = "/forge.Forge"

pub move-succeeds : (p q : String) (x : Doc) (d : Disk) → (move p q (put p x d)).1 ≡ true
move-succeeds p q x d = ground (arith, get-put p p x d, eq_iff p p)

-- Every save succeeds on this disk.
pub disk-IsWorking : IsWorking file_system codecs state_file service
unfolding save write_out write_and_replace replace_file make_dir encode
disk-IsWorking snap d =
    let (wire, e) = snapshot_to_wire-succeeds (versioned snap) in
    rw e (rw (move-succeeds (tmp_path state_file) state_file wire d) refl)

-- A disk on which a write fails and leaves nothing of the file.
abbrev pub full_disk : FileSystem Disk Doc
full_disk = record file_system {
  write_file = λ p x d. (delete p d, false);
  read-write_file_ne = λ p q x d h. remove-read p q d h;
  read-write_file = λ p x d h. absurd (false≢true h);
}
