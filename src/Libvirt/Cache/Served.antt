-- ===== src/Libvirt/Cache/Served.antt =====
-- Which images internal/libvirt/imagecache.go gives out.
use Prim.Native.String.{◌++◌ as append}
use nico_core_mock.Libvirt.Cache.{
  Image, ImageIo, Response, Stat, download_image_to_cache, fetch_once, fill_temp, finalize,
  image_cache_path, is_file, no_file, normalize_image_digest, open_cached_or_download_image,
  open_if_matching, open_image_http, reopen, stat_failed, try_open_cached_image,
}
use nico_core_mock.Prelude.{
  Bool, Bool-cases, Option, Option-cases, String, ap, arith, empty_text, eq_iff, false, inl, inr,
  ltb, none, refl, some, subst, true, ℕ, ◌==◌, ◌∙◌, ◌≡◌, ◌⊎◌,
}

module _ {D : Type 0} (io : ImageIo D) where
  -- A whole image with this digest.
  abbrev pub Matches : String → Image → Type 0
  Matches digest image = (io.sha256_hex image.body ≡ digest) × (image.complete ≡ true)

  try_open-Matches :
      (cache_dir digest image_url : String) (d : D) (image : Image)
      → (try_open_cached_image io cache_dir digest image_url d).1 ≡ some (some image)
      → Matches digest image
  unfolding try_open_cached_image open_if_matching
  try_open-Matches cache_dir digest image_url d image h =
      by_stat (io.stat path d) refl (Option-cases (io.open_file path d))
    where
      path : String
      path = image_cache_path io cache_dir digest image_url

      by_stat :
          (s : Stat)
          → io.stat path d ≡ s
          → (io.open_file path d ≡ none) ⊎ ((body : String) × (io.open_file path d ≡ some body))
          → Matches digest image
      by_stat no_file e o = absurd (ground (arith, e, h))
      by_stat stat_failed e o = absurd (ground (arith, e, h))
      by_stat (is_file size) e (inl o) = absurd (ground (arith, e, o, h))
      by_stat (is_file size) e (inr (body, o)) = elim (Bool-cases (io.sha256_hex body == digest)) [
        | inl b ↦ (
          ground (arith, e, o, b, h, eq_iff (io.sha256_hex body) digest),
          ground (arith, e, o, b, h),
        )
        | inr b ↦ absurd (ground (arith, e, o, b, h))
      ]

  reopen-Matches :
      (cache_dir digest image_url : String) (d : D) (image : Image)
      → (reopen io cache_dir digest image_url d).1 ≡ some image
      → Matches digest image
  unfolding reopen
  reopen-Matches cache_dir digest image_url d image h =
      try_open-Matches cache_dir digest image_url d image
        (elim (Option-cases (try_open_cached_image io cache_dir digest image_url d).1) [
          | inl n ↦ absurd (ground (arith, n, h))
          | inr (hit, n) ↦ ground (arith, n, h)
        ])

  -- With a cache directory and a digest, an image that is given out is whole and has that digest,
  -- whatever the server sends, whatever the cache held before, and whichever calls fail.
  pub open_cached_or_download_image-Matches :
      (image_url digest cache_dir : String) (d : D) (image : Image)
      → empty_text cache_dir ≡ false
      → empty_text (normalize_image_digest io digest) ≡ false
      → (open_cached_or_download_image io image_url digest cache_dir d).1 ≡ some image
      → Matches (normalize_image_digest io digest) image
  unfolding open_cached_or_download_image
  open_cached_or_download_image-Matches image_url digest cache_dir d image dir wanted h =
      let want = normalize_image_digest io digest in
      let tried = try_open_cached_image io cache_dir want image_url d in
      let fetched = fetch_once io cache_dir want image_url tried.0 in
      elim (Option-cases tried.1) [
        | inl n ↦ absurd (ground (arith, dir, wanted, n, h))
        | inr (hit, n) ↦ elim (Option-cases hit) [
          | inr (i, k) ↦
              try_open-Matches cache_dir want image_url d image
                (ground (arith, dir, wanted, n, k, h))
          | inl k ↦ elim (Bool-cases fetched.1) [
            | inl b ↦
                reopen-Matches cache_dir want image_url fetched.0 image
                  (ground (arith, dir, wanted, n, k, b, h))
            | inr b ↦ absurd (ground (arith, dir, wanted, n, k, b, h))
          ]
        ]
      ]

  -- A file system whose calls succeed and do what they say.
  pub record Works : Type 0 where
    pub looks :
        (p : String) (d : D)
        → (io.stat p d ≡ no_file)
          ⊎ ((size : ℕ) × (body : String) × (io.stat p d ≡ is_file size)
              × (io.open_file p d ≡ some body))
    pub removes : (p : String) (d : D) → (io.remove p d).1 ≡ true
    pub makes : (p : String) (d : D) → (io.make_dir p d).1 ≡ true
    pub temps : (p q : String) (d : D) → (path : String) × ((io.create_temp p q d).1 ≡ some path)
    pub writes :
        (p body : String) (d : D)
        → ((io.write p body d).1 ≡ true) × (io.open_file p (io.write p body d).0 ≡ some body)
    pub closes :
        (p : String) (d : D)
        → ((io.close p d).1 ≡ true) × (io.open_file p (io.close p d).0 ≡ io.open_file p d)
    pub renames :
        (p q body : String) (d : D)
        → io.open_file p d ≡ some body
        → ((io.rename p q d).1 ≡ true) × (io.open_file q (io.rename p q d).0 ≡ some body)
    -- what can be opened is is_file
    pub finds :
        (p body : String) (d : D)
        → io.open_file p d ≡ some body
        → (size : ℕ) × (io.stat p d ≡ is_file size)

  -- The server sends a whole body with this digest, with a status from 200 to 299.
  pub record Sends (image_url digest : String) : Type 0 where
    pub resp : Response
    pub fetched : io.fetch image_url ≡ some resp
    pub at_least : ltb resp.status_code 200 ≡ false
    pub below : ltb resp.status_code 300 ≡ true
    pub whole : resp.complete ≡ true
    pub digests : (io.sha256_hex resp.body == digest) ≡ true

  -- A look into the cache succeeds: there is the image, or it is missing.
  try_open-Works :
      (cache_dir digest image_url : String) (d : D)
      → Works
      → (hit : Option Image) × ((try_open_cached_image io cache_dir digest image_url d).1
          ≡ some hit)
  unfolding try_open_cached_image open_if_matching
  try_open-Works cache_dir digest image_url d w =
      let path = image_cache_path io cache_dir digest image_url in
      elim (w.looks path d) [
        | inl e ↦ (none, ground (arith, e))
        | inr (size, body, e, o) ↦ elim (Bool-cases (io.sha256_hex body == digest)) [
          | inl b ↦ (
            some (record { size = some size; body = body; complete = true }),
            ground (arith, e, o, b),
          )
          | inr b ↦ (none, ground (arith, e, o, b, w.removes path d))
        ]
      ]

  try_open-stored :
      (cache_dir digest image_url body : String) (d : D)
      → Works
      → io.open_file (image_cache_path io cache_dir digest image_url) d ≡ some body
      → (io.sha256_hex body == digest) ≡ true
      → (image : Image) × (try_open_cached_image io cache_dir digest image_url d
          ≡ (d, some (some image)))
  unfolding try_open_cached_image open_if_matching
  try_open-stored cache_dir digest image_url body d w o b =
      let (size, e) = w.finds (image_cache_path io cache_dir digest image_url) body d o in
      (record { size = some size; body = body; complete = true }, ground (arith, e, o, b))

  -- The call succeeded, and the file has these contents.
  abbrev pub Leaves : String → String → D × Bool → Type 0
  Leaves path body r = (r.1 ≡ true) × (io.open_file path r.0 ≡ some body)

  finalize-Works :
      (temp_path cache_path body : String) (d : D)
      → Works
      → io.open_file temp_path d ≡ some body
      → Leaves cache_path body (finalize io temp_path cache_path d)
  unfolding finalize
  finalize-Works temp_path cache_path body d w o =
      let (done, stored) = w.renames temp_path cache_path body d o in
      (ground (arith, done), ground (arith, done, stored))

  fill_temp-Works :
      (image_url digest temp_path cache_path : String) (d : D)
      → Works
      → (s : Sends image_url digest)
      → Leaves cache_path s.resp.body (fill_temp io image_url digest temp_path cache_path d)
  unfolding fill_temp open_image_http
  fill_temp-Works image_url digest temp_path cache_path d w s =
      let (copied, filled) = w.writes temp_path s.resp.body d in
      let written = (io.write temp_path s.resp.body d).0 in
      let (close_ok, kept) = w.closes temp_path written in
      let closed = (io.close temp_path written).0 in
      subst (Leaves cache_path s.resp.body) {x = finalize io temp_path cache_path closed}
        {y = fill_temp io image_url digest temp_path cache_path d}
        (ground (arith, s.fetched, s.at_least, s.below, s.whole, s.digests, copied, close_ok))
        (finalize-Works temp_path cache_path s.resp.body closed w (kept ∙ filled))

  -- After a download the image is in the cache.
  download-Works :
      (cache_dir digest image_url : String) (d : D)
      → Works
      → (s : Sends image_url digest)
      → Leaves
          (image_cache_path io cache_dir digest image_url)
          s.resp.body
          (download_image_to_cache io image_url digest cache_dir d)
  unfolding download_image_to_cache
  download-Works cache_dir digest image_url d w s =
      let path = image_cache_path io cache_dir digest image_url in
      let made = (io.make_dir cache_dir d).0 in
      let (temp_path, temped) = w.temps cache_dir (append (io.base path) ".part.*") made in
      rw (w.makes cache_dir d, temped, download_image_to_cache)
        (fill_temp-Works image_url digest temp_path path _ w s)

  -- An image that is there stays there.
  try_open-hit :
      (cache_dir digest image_url : String) (d : D) (image : Image)
      → Works
      → (try_open_cached_image io cache_dir digest image_url d).1 ≡ some (some image)
      → (try_open_cached_image io cache_dir digest image_url d).0 ≡ d
  unfolding try_open_cached_image open_if_matching
  try_open-hit cache_dir digest image_url d image w h =
      let path = image_cache_path io cache_dir digest image_url in
      elim (w.looks path d) [
        | inl e ↦ absurd (ground (arith, e, h))
        | inr (size, body, e, o) ↦ elim (Bool-cases (io.sha256_hex body == digest)) [
          | inl b ↦ ground (arith, e, o, b)
          | inr b ↦ absurd (ground (arith, e, o, b, h, w.removes path d))
        ]
      ]

  -- After the flight, a look into the cache gives the image.
  abbrev pub Holds : String → String → String → D × Bool → Type 0
  Holds cache_dir digest image_url r =
      (image : Image) × (r.1 ≡ true)
      × ((try_open_cached_image io cache_dir digest image_url r.0).1 ≡ some (some image))

  fetch_once-Works :
      (cache_dir digest image_url : String) (d : D)
      → Works
      → (s : Sends image_url digest)
      → Holds cache_dir digest image_url (fetch_once io cache_dir digest image_url d)
  unfolding fetch_once
  fetch_once-Works cache_dir digest image_url d w s =
      let tried = try_open_cached_image io cache_dir digest image_url d in
      let (hit, n) = try_open-Works cache_dir digest image_url d w in
      elim (Option-cases hit) [
        | inr (image, k) ↦
            subst (Holds cache_dir digest image_url) {x = (tried.0, true)}
              {y = fetch_once io cache_dir digest image_url d} (ground (arith, n, k))
              (
                image,
                refl,
                ap (λ x. (try_open_cached_image io cache_dir digest image_url x).1)
                      (try_open-hit cache_dir digest image_url d image w (n ∙ ap some k))
                    ∙ n
                    ∙ ap some k,
              )
        | inl k ↦
            let (done, stored) = download-Works cache_dir digest image_url tried.0 w s in
            let loaded = download_image_to_cache io image_url digest cache_dir tried.0 in
            let (image, e) =
              try_open-stored cache_dir digest image_url s.resp.body loaded.0 w stored s.digests in
            subst (Holds cache_dir digest image_url) {x = loaded}
              {y = fetch_once io cache_dir digest image_url d} (ground (arith, n, k))
              (image, done, ap (λ (x : D × Option (Option Image)). x.1) e)
      ]

  -- Where the calls of the file system succeed, and the server sends a whole body with the wanted
  -- digest, an image is given out: from the cache where it is there, and else after a download. It
  -- is whole and has the digest.
  pub open_cached_or_download_image-Works :
      (image_url digest cache_dir : String) (d : D)
      → empty_text cache_dir ≡ false
      → empty_text (normalize_image_digest io digest) ≡ false
      → Works
      → Sends image_url (normalize_image_digest io digest)
      → (image : Image) × ((open_cached_or_download_image io image_url digest cache_dir d).1
          ≡ some image)
        × Matches (normalize_image_digest io digest) image
  unfolding open_cached_or_download_image reopen
  open_cached_or_download_image-Works image_url digest cache_dir d dir wanted w s =
      let want = normalize_image_digest io digest in
      let tried = try_open_cached_image io cache_dir want image_url d in
      let (hit, n) = try_open-Works cache_dir want image_url d w in
      let (later, fetched, opened) = fetch_once-Works cache_dir want image_url tried.0 w s in
      let (image, given_out) : (i : Image) × ((open_cached_or_download_image io image_url digest
              cache_dir d).1
            ≡ some i) =
        elim (Option-cases hit) [
          | inr (i, k) ↦ (i, ground (arith, dir, wanted, n, k))
          | inl k ↦ (later, ground (arith, dir, wanted, n, k, fetched, opened))
        ] in
      (
        image,
        given_out,
        open_cached_or_download_image-Matches image_url digest cache_dir d image dir wanted
            given_out,
      )
