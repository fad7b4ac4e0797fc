-- ===== src/Statestore/Atomic.antt =====
-- The state file after Save of internal/statestore/store.go, and what Load makes of it.
use nico_core_mock.Persist.{Snapshot}
use nico_core_mock.Prelude.{
  Option, Option-cases, String, arith, empty_text, false, if◌then◌else◌, inl, inr, some, true, ◌≡◌,
}
use nico_core_mock.Statestore.Disk.{
  FileSystem, contents, decode, encode, load_file, make_dir, replace_file, save, snapshot_or_empty,
  tmp_path, tmp_path-ne, versioned, write_and_replace, write_out,
}
use nico_core_mock.Statestore.Wire.{Codecs, snapshot_to_wire, wire_to_snapshot-snapshot_to_wire}

module _ {D Raw Doc : Type 0} (fs : FileSystem D Doc) (cs : Codecs Raw Doc) where
  make_dir-read :
      (path : String) (d : D) → fs.read_file path (make_dir fs cs path d).0 ≡ fs.read_file path d
  unfolding make_dir
  make_dir-read path d = ground (arith, fs.read-mkdir_all path d)

  replace_file-read :
      (path : String) (d : D)
      → fs.read_file path (replace_file fs cs path d).0 ≡ (
          if (replace_file fs cs path d).1
          then fs.read_file (tmp_path path) d
          else fs.read_file path d)
  unfolding replace_file
  replace_file-read path d = ground (
    arith,
    fs.read-rename (tmp_path path) path d,
    fs.read-rename_failed (tmp_path path) path path d,
    fs.read-remove (tmp_path path) path (fs.rename (tmp_path path) path d).0 (tmp_path-ne path),
  )

  write_and_replace-read :
      (path : String) (doc : Doc) (d : D)
      → fs.read_file path (write_and_replace fs cs path doc d).0
        ≡ (if (write_and_replace fs cs path doc d).1 then contents doc else fs.read_file path d)
  unfolding write_and_replace
  write_and_replace-read path doc d = ground (
    arith,
    fs.read-write_file_ne (tmp_path path) path doc d (tmp_path-ne path),
    fs.read-write_file (tmp_path path) doc d,
    replace_file-read path (fs.write_file (tmp_path path) doc d).0,
  )

  -- Whatever step fails, the file at the path holds the whole new document where the write is
  -- reported as done, and what it held before where it is not.
  pub write_out-read :
      (path : String) (doc : Doc) (d : D)
      → fs.read_file path (write_out fs cs path doc d).0
        ≡ (if (write_out fs cs path doc d).1 then contents doc else fs.read_file path d)
  unfolding write_out
  write_out-read path doc d =
      ground
        (arith, make_dir-read path d, write_and_replace-read path doc (make_dir fs cs path d).0)

  decode-encode :
      (snap : Snapshot) (doc : Doc)
      → encode fs cs snap ≡ some doc
      → decode fs cs doc ≡ some (versioned snap)
  unfolding encode decode
  decode-encode snap doc h = elim (Option-cases (snapshot_to_wire cs snap)) [
    | inl e ↦ cc
    | inr (wire, e) ↦
        rw (cs.document.unmarshal-marshal wire doc (ground arith))
          (rw (wire_to_snapshot-snapshot_to_wire cs snap wire e))
  ]

  -- What a save that is reported as done has written, the next load returns, with the version
  -- filled in where it was 0.
  pub load_file-save :
      (path : String) (snap : Snapshot) (d : D)
      → empty_text path ≡ false
      → (save fs cs path (some snap) d).1 ≡ true
      → load_file fs cs path (save fs cs path (some snap) d).0 ≡ some (versioned snap)
  unfolding save load_file
  load_file-save path snap d h done = elim (Option-cases (encode fs cs (versioned snap))) [
    | inl e ↦ ground arith
    | inr (doc, e) ↦ ground (arith, write_out-read path doc d, decode-encode (versioned snap) doc e)
  ]

  -- A save that is reported as failed leaves the file at the path as it was, whichever step failed:
  -- the encoding, the directory, the temporary file or the rename.
  pub read_file-save_failed :
      (path : String) (snap : Option Snapshot) (d : D)
      → (save fs cs path snap d).1 ≡ false
      → fs.read_file path (save fs cs path snap d).0 ≡ fs.read_file path d
  unfolding save
  read_file-save_failed path snap d failed =
      elim (Option-cases (encode fs cs (versioned (snapshot_or_empty snap)))) [
        | inl e ↦ ground arith
        | inr (doc, e) ↦ ground (arith, write_out-read path doc d)
      ]
