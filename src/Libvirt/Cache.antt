-- ===== src/Libvirt/Cache.antt =====
-- internal/libvirt/imagecache.go: OS images by their digest in a directory, and their download.
pub mod Served
use Prim.Native.String.{◌++◌ as append, len, slice}
use text.Mathlib.Text.{starts_with}
use nico_core_mock.Prelude.{
  Bool, Option, String, empty_text, false, if◌then◌else◌, ltb, none, not, some, true, ℕ, ◌&&◌, ◌==◌,
  ◌||◌,
}
use nico_core_mock.Statestore.Disk.{make_dir}

-- What `os.Stat` answers; `IsNotExist` is `no_file`.
pub data Stat : Type 0 where
  no_file stat_failed : Stat
  is_file : ℕ → Stat

-- `http.Response`: a length that is unknown is `none`, and a body that breaks off is not complete.
pub record Response : Type 0 where
  pub status_code : ℕ
  pub content_length : Option ℕ
  pub body : String
  pub complete : Bool

-- What a reader gives: its length, if it is known, and the bytes.
pub record Image : Type 0 where
  pub size : Option ℕ
  pub body : String
  pub complete : Bool

-- The packages os, io, net/http, path and strings, over the disk. A Boolean says whether the call
-- succeeded.
pub record ImageIo (D : Type 0) : Type 0 where
  pub stat : String → D → Stat
  -- `os.Open` and the contents
  pub open_file : String → D → Option String
  -- `os.Remove`; a file that is missing counts as a success
  pub remove : String → D → D × Bool
  -- `os.MkdirAll`
  pub make_dir : String → D → D × Bool
  -- `os.CreateTemp` of a directory and a pattern
  pub create_temp : String → String → D → D × Option String
  -- `io.Copy` into an open file, and its `Close`
  pub write : String → String → D → D × Bool
  pub close : String → D → D × Bool
  pub rename : String → String → D → D × Bool
  -- `http.NewRequestWithContext` and `client.Do`
  pub fetch : String → Option Response
  pub sha256_hex : String → String
  pub to_lower : String → String
  pub trim_space : String → String
  -- `path.Ext`, `filepath.Join` of two, `filepath.Base`
  pub ext : String → String
  pub join : String → String → String
  pub base : String → String

module _ {D : Type 0} (io : ImageIo D) where
  unfoldable pub normalize_image_digest : String → String
  normalize_image_digest digest =
      let s = io.trim_space (io.to_lower digest) in
      if starts_with s "sha256:" then slice s 7 (len s) else s

  unfoldable pub image_cache_path : String → String → String → String
  unfolding normalize_image_digest
  image_cache_path cache_dir digest image_url =
      let ext = io.to_lower (io.ext image_url) in
      io.join cache_dir
        (append (normalize_image_digest digest) (if empty_text ext then ".img" else ext))

  -- `none` is an error.
  unfoldable pub open_image_http : String → Option Image
  open_image_http image_url = elim (io.fetch image_url) [
    | none ↦ none
    | some resp ↦
        if ltb resp.status_code 200 || not (ltb resp.status_code 300)
        then none
        else some
            (record { size = resp.content_length; body = resp.body; complete = resp.complete })
  ]

  -- The digest of a file that is there, and what is done with it. An error is `none`; a file that
  -- is missing, or that is removed since it has another digest, is `some none`. The file is opened
  -- once for the digest and once more to be read.
  unfoldable pub open_if_matching : String → String → ℕ → D → D × Option (Option Image)
  open_if_matching cache_path digest size d = elim (io.open_file cache_path d) [
    | none ↦ (d, none)
    | some hashed ↦
        if io.sha256_hex hashed == digest
        then elim (io.open_file cache_path d) [
          | none ↦ (d, none)
          | some body ↦ (d, some (some (record { size = some size; body = body; complete = true })))
        ]
        else let (d', removed) = io.remove cache_path d in (d', if removed then some none else none)
  ]

  unfoldable pub try_open_cached_image : String → String → String → D → D × Option (Option Image)
  unfolding open_if_matching image_cache_path
  try_open_cached_image cache_dir digest image_url d =
      let cache_path = image_cache_path cache_dir digest image_url in
      elim (io.stat cache_path d) [
        | no_file ↦ (d, some none)
        | stat_failed ↦ (d, none)
        | is_file size ↦ open_if_matching cache_path digest size d
      ]

  -- An error after which the part file is removed.
  abbrev pub drop_temp : String → D → D × Bool
  drop_temp temp_path d = ((io.remove temp_path d).0, false)

  -- `os.Rename` to the path of the cache; when it fails, another process may have been first.
  unfoldable pub finalize : String → String → D → D × Bool
  finalize temp_path cache_path d =
      let (renamed, done) = io.rename temp_path cache_path d in
      let (cleaned, _) = io.remove temp_path renamed in
      if done then (renamed, true) else elim (io.stat cache_path cleaned) [
        | no_file ↦ (cleaned, false)
        | stat_failed ↦ (cleaned, false)
        | is_file size ↦ (cleaned, true)
      ]

  -- The copy into the part file, whose digest is taken on the way, its close and the test.
  unfoldable pub fill_temp : String → String → String → String → D → D × Bool
  unfolding open_image_http finalize
  fill_temp image_url digest temp_path cache_path d = elim (open_image_http image_url) [
    | none ↦ drop_temp temp_path (io.close temp_path d).0
    | some image ↦
        let (written, copied) = io.write temp_path image.body d in
        let (closed, close_ok) = io.close temp_path written in
        if not (copied && image.complete)
        then drop_temp temp_path closed
        else if not close_ok
        then drop_temp temp_path closed
        else if not (io.sha256_hex image.body == digest)
        then drop_temp temp_path closed
        else finalize temp_path cache_path closed
  ]

  unfoldable pub download_image_to_cache : String → String → String → D → D × Bool
  unfolding fill_temp image_cache_path
  download_image_to_cache image_url digest cache_dir d =
      let cache_path = image_cache_path cache_dir digest image_url in
      let (made, made_ok) = io.make_dir cache_dir d in
      let (temped, temp) = io.create_temp cache_dir (append (io.base cache_path) ".part.*") made in
      if not made_ok then (made, false) else elim temp [
        | none ↦ (temped, false)
        | some temp_path ↦ fill_temp image_url digest temp_path cache_path temped
      ]

  -- The function that the flight group runs: another look, and the download.
  unfoldable pub fetch_once : String → String → String → D → D × Bool
  unfolding try_open_cached_image download_image_to_cache
  fetch_once cache_dir digest image_url d =
      let (d', opened) = try_open_cached_image cache_dir digest image_url d in
      elim opened [
        | none ↦ (d', false)
        | some hit ↦ elim hit [
          | some image ↦ (d', true)
          | none ↦ download_image_to_cache image_url digest cache_dir d'
        ]
      ]

  -- The image that must be in the cache by now.
  unfoldable pub reopen : String → String → String → D → D × Option Image
  unfolding try_open_cached_image
  reopen cache_dir digest image_url d =
      let (d', opened) = try_open_cached_image cache_dir digest image_url d in
      elim opened [ none ↦ (d', none) | some hit ↦ (d', hit) ]

  -- `none` is an error.
  unfoldable pub open_cached_or_download_image : String → String → String → D → D × Option Image
  unfolding open_image_http try_open_cached_image fetch_once reopen normalize_image_digest
  open_cached_or_download_image image_url digest cache_dir d =
      let wanted = normalize_image_digest digest in
      let (d1, opened) = try_open_cached_image cache_dir wanted image_url d in
      let (d2, fetched) = fetch_once cache_dir wanted image_url d1 in
      if empty_text cache_dir || empty_text wanted
      then (d, open_image_http image_url)
      else elim opened [
        | none ↦ (d1, none)
        | some hit ↦ elim hit [
          | some image ↦ (d1, some image)
          | none ↦ if fetched then reopen cache_dir wanted image_url d2 else (d2, none)
        ]
      ]
