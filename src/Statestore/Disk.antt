-- ===== src/Statestore/Disk.antt =====
-- Load and Save of internal/statestore/store.go. The file system is a parameter with the behaviour
-- that the `os` package documents.
use Prim.Native.String.{◌++◌ as append}
use text.Mathlib.TextLemmas.{append_cancel_left, append-nil}
use nico_core_mock.Persist.{Snapshot, state_version}
use nico_core_mock.Prelude.{
  Bool, Option, String, [], empty_text, eq_iff, false, if◌then◌else◌, nat_eq, none, some, sym, true,
  ◌==◌, ◌||◌, ◌∙◌, ◌≡◌, ◌≢◌,
}
use nico_core_mock.Statestore.Wire.{Codecs, snapshot_to_wire, wire_to_snapshot, ◌>>=◌}

pub data ReadResult (Doc : Type 0) : Type 0 where
  not_exist read_failed : ReadResult Doc
  contents : Doc → ReadResult Doc

-- `D` is the state of the disk. The Boolean results say that a call returned no error. A failed
-- write may leave anything in its own file; a rename happens or does not.
pub record FileSystem (D Doc : Type 0) : Type 0 where
  -- `filepath.Dir`
  pub dir : String → String
  pub read_file : String → D → ReadResult Doc
  pub mkdir_all : String → D → D × Bool
  pub write_file : String → Doc → D → D × Bool
  pub rename : String → String → D → D × Bool
  pub remove : String → D → D
  -- The creation of a file's directory, and of those above it, makes no file there.
  pub read-mkdir_all : (q : String) (d : D) → read_file q (mkdir_all (dir q) d).0 ≡ read_file q d
  pub read-write_file_ne :
      (p q : String) (x : Doc) (d : D) → p ≢ q → read_file q (write_file p x d).0 ≡ read_file q d
  pub read-write_file :
      (p : String) (x : Doc) (d : D)
      → (write_file p x d).1 ≡ true
      → read_file p (write_file p x d).0 ≡ contents x
  pub read-rename :
      (p q : String) (d : D)
      → (rename p q d).1 ≡ true
      → read_file q (rename p q d).0 ≡ read_file p d
  pub read-rename_failed :
      (p q r : String) (d : D)
      → (rename p q d).1 ≡ false
      → read_file r (rename p q d).0 ≡ read_file r d
  pub read-remove : (p q : String) (d : D) → p ≢ q → read_file q (remove p d) ≡ read_file q d

abbrev pub tmp_path : String → String
tmp_path path = append path ".tmp"

pub tmp_path-ne : (path : String) → tmp_path path ≢ path
tmp_path-ne path p =
    cc ((eq_iff ".tmp" "").1 (append_cancel_left path ".tmp" "" (p ∙ sym (append-nil path))))

abbrev pub empty_snapshot : Snapshot
empty_snapshot = record {
  version = state_version;
  vpcs = [];
  network_segments = [];
  instances = [];
  machines = [];
  vpc_prefixes = [];
  vpc_peerings = [];
  os_images = [];
  operating_systems = [];
  instance_types = [];
}

-- `if snap.Version == 0 { snap.Version = stateVersion }`
abbrev pub versioned : Snapshot → Snapshot
versioned snap = record snap {
  version = if nat_eq snap.version 0 then state_version else snap.version;
}

abbrev pub snapshot_or_empty : Option Snapshot → Snapshot
snapshot_or_empty none = empty_snapshot
snapshot_or_empty (some snap) = snap

module _ {D Raw Doc : Type 0} (fs : FileSystem D Doc) (cs : Codecs Raw Doc) where
  -- The directory is created where the path names one.
  unfoldable pub make_dir : String → D → D × Bool
  make_dir path d =
      let dir = fs.dir path in
      if empty_text dir || dir == "." then (d, true) else fs.mkdir_all dir d

  -- The last step of Save: the temporary file takes the place of the old one, or is removed.
  unfoldable pub replace_file : String → D → D × Bool
  replace_file path d =
      let (d', done) = fs.rename (tmp_path path) path d in
      if done then (d', true) else (fs.remove (tmp_path path) d', false)

  unfoldable pub write_and_replace : String → Doc → D → D × Bool
  unfolding replace_file
  write_and_replace path doc d =
      let (d', done) = fs.write_file (tmp_path path) doc d in
      if done then replace_file path d' else (d', false)

  unfoldable pub write_out : String → Doc → D → D × Bool
  unfolding make_dir write_and_replace
  write_out path doc d =
      let (d', done) = make_dir path d in
      if done then write_and_replace path doc d' else (d', false)

  unfoldable pub encode : Snapshot → Option Doc
  encode snap = snapshot_to_wire cs snap >>= cs.document.marshal

  unfoldable pub save : String → Option Snapshot → D → D × Bool
  unfolding write_out encode
  save path snap d =
      if empty_text path then (d, true) else elim (encode (versioned (snapshot_or_empty snap))) [
        | none ↦ (d, false)
        | some doc ↦ write_out path doc d
      ]

  unfoldable pub decode : Doc → Option Snapshot
  decode doc = do
    wire ← cs.document.unmarshal doc
    snap ← wire_to_snapshot cs wire
    some (versioned snap)

  -- `none` is an error. A missing file is an empty snapshot.
  unfoldable pub load_file : String → D → Option Snapshot
  unfolding decode
  load_file path d = if empty_text path then some empty_snapshot else elim (fs.read_file path d) [
    | not_exist ↦ some empty_snapshot
    | read_failed ↦ none
    | contents doc ↦ decode doc
  ]
