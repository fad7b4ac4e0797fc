-- ===== src/Example/Cached.antt =====
-- An image cache on a disk that is a map from paths to contents; a digest is the text itself.
use Prim.Native.String.{◌++◌ as append, len}
use nico_core_mock.GoMap.{GoMap, delete, get, put}
use nico_core_mock.GoMap.Laws.{get-put_same}
use nico_core_mock.Libvirt.Cache.{
  Image, ImageIo, Response, download_image_to_cache, fetch_once, fill_temp, finalize,
  image_cache_path, is_file, no_file, normalize_image_digest, open_cached_or_download_image,
  open_if_matching, open_image_http, reopen, try_open_cached_image,
}
use nico_core_mock.Libvirt.Cache.Served.{
  Matches, Sends, Works, open_cached_or_download_image-Matches, open_cached_or_download_image-Works,
}
use nico_core_mock.Prelude.{
  Option-cases, String, [], arith, false, inl, inr, none, refl, some, true, ◌∷◌, ◌≡◌,
}

abbrev response : Response
response = record { status_code = 200; content_length = none; body = "ab12"; complete = true }

abbrev image_io : ImageIo (GoMap String)
image_io = record {
  stat = λ p d. elim (get p d) [ none ↦ no_file | some b ↦ is_file (len b) ];
  open_file = λ p d. get p d;
  remove = λ p d. (delete p d, true);
  make_dir = λ p d. (d, true);
  create_temp = λ p q d. (put (append p q) "" d, some (append p q));
  write = λ p b d. (put p b d, true);
  close = λ p d. (d, true);
  rename = λ p q d. elim (get p d) [ none ↦ (d, false) | some b ↦ (put q b (delete p d), true) ];
  fetch = λ url. some response;
  sha256_hex = λ x. x;
  to_lower = λ x. x;
  trim_space = λ x. x;
  ext = λ x. ".qcow2";
  join = λ a b. append a (append "/" b);
  base = λ x. x;
}

image_io-Works : Works image_io
image_io-Works = record {
  looks = λ p d. elim (Option-cases (get p d)) [
    | inl n ↦ inl (ground (arith, n))
    | inr (b, n) ↦ inr (len b, b, ground (arith, n), n)
  ];
  removes = λ p d. refl;
  makes = λ p d. refl;
  temps = λ p q d. (append p q, refl);
  writes = λ p body d. (refl, get-put_same p body d);
  closes = λ p d. (refl, refl);
  renames =
      λ p q body d o. (ground (arith, o), ground (arith, o, get-put_same q body (delete p d)));
  finds = λ p body d o. (len body, ground (arith, o));
}

image_io-Sends : Sends image_io "http://images/a.qcow2" "ab12"
image_io-Sends = record {
  resp = response;
  fetched = refl;
  at_least = refl;
  below = refl;
  whole = refl;
  digests = refl;
}

-- The cache holds a file with another digest, which is replaced.
abbrev stale : GoMap String
stale = ("/cache/ab12.qcow2", "zz") ∷ []

open_cached_or_download_image-Works_example :
    (image : Image) × ((open_cached_or_download_image image_io "http://images/a.qcow2" "sha256:ab12"
        "/cache" stale).1
      ≡ some image)
    × Matches image_io "ab12" image
unfolding normalize_image_digest
open_cached_or_download_image-Works_example =
    open_cached_or_download_image-Works image_io "http://images/a.qcow2" "sha256:ab12" "/cache"
      stale refl refl image_io-Works image_io-Sends

abbrev image : Image
image = record { size = some 4; body = "ab12"; complete = true }

open_cached_or_download_image-Matches_example : Matches image_io "ab12" image
unfolding open_cached_or_download_image try_open_cached_image open_if_matching image_cache_path
    normalize_image_digest fetch_once download_image_to_cache fill_temp finalize open_image_http
    reopen get put delete
open_cached_or_download_image-Matches_example =
    open_cached_or_download_image-Matches image_io "http://images/a.qcow2" "sha256:ab12" "/cache"
      stale image refl refl refl
