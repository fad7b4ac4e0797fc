-- ===== src/Identity/Published.antt =====
-- Which keys the documents of GetJWKS in internal/server/forge_server.go show.
pub mod Overlap
use mathlib.Core.List.{Memᴰ}
use nico_core_mock.GoMap.{get}
use nico_core_mock.GoMap.Laws.{get-put_same}
use nico_core_mock.Identity.{Identities, gc_expired_key}
use nico_core_mock.Identity.Crypto.{
  Call, Jwk, KeyMaterial, PrivateKey, Tools, jwk_of, jwks, jwks_document_for_keys,
}
use nico_core_mock.Identity.Publish.{get_jwks, jwks_reply, published_keys}
use nico_core_mock.Identity.Slots.{
  OrgState, active_key, cons_some, gc_expired, inactive_key, insert_by_kid, sort_by_kid,
  text_before,
}
use nico_core_mock.Identity.Slots.Laws.{expired, gc_expired_lem}
use nico_core_mock.Identity.Sound.{Genuine, KeysSound}
use nico_core_mock.Prelude.{
  Bool, Bool-cases, List, Option, String, [], ap, empty_text, false, if◌then◌else◌, inl, inr, ltb,
  none, refl, some, subst, sym, ℕ, ◌∙◌, ◌∷◌, ◌≡◌,
}
use nico_core_mock.Reply.{Reply, err, internal, ok}

module _ {A : Type 0} (kid : A → String) where
  Mem-insert_here : (x : A) (ys : List A) → Memᴰ x (insert_by_kid kid x ys)
  unfolding insert_by_kid
  Mem-insert_here x [] = Memᴰ.head refl
  Mem-insert_here x (y ∷ ys) = elim (Bool-cases (text_before (kid y) (kid x))) [
    | inl b ↦ rw (b, insert_by_kid) (Memᴰ.tail (Mem-insert_here x ys))
    | inr b ↦ rw (b, insert_by_kid) (Memᴰ.head refl)
  ]

  Mem-insert_there : (x y : A) (ys : List A) → Memᴰ y ys → Memᴰ y (insert_by_kid kid x ys)
  unfolding insert_by_kid
  Mem-insert_there x y [] m = elim m [ ]
  Mem-insert_there x y (z ∷ ys) (Memᴰ.head e) = elim (Bool-cases (text_before (kid z) (kid x))) [
    | inl b ↦ rw (b, insert_by_kid) (Memᴰ.head e)
    | inr b ↦ rw (b, insert_by_kid) (Memᴰ.tail (Memᴰ.head e))
  ]
  Mem-insert_there x y (z ∷ ys) (Memᴰ.tail m) = elim (Bool-cases (text_before (kid z) (kid x))) [
    | inl b ↦ rw (b, insert_by_kid) (Memᴰ.tail (Mem-insert_there x y ys m))
    | inr b ↦ rw (b, insert_by_kid) (Memᴰ.tail (Memᴰ.tail m))
  ]

  pub Mem-sort_by_kid : (x : A) (xs : List A) → Memᴰ x xs → Memᴰ x (sort_by_kid kid xs)
  unfolding sort_by_kid
  Mem-sort_by_kid x [] m = elim m [ ]
  Mem-sort_by_kid x (y ∷ xs) (Memᴰ.head e) =
      subst (λ z. Memᴰ z (sort_by_kid kid (y ∷ xs))) (sym e)
        (Mem-insert_here y (sort_by_kid kid xs))
  Mem-sort_by_kid x (y ∷ xs) (Memᴰ.tail m) =
      Mem-insert_there y x (sort_by_kid kid xs) (Mem-sort_by_kid x xs m)

-- The active key, and the inactive one unless it has expired.
unfoldable pub unexpired_keys : ℕ → OrgState → List KeyMaterial
unexpired_keys now st =
    cons_some (active_key st)
      (cons_some (if expired now st.non_active_slot_expires then none else inactive_key st) [])

module _ (t : Tools) where
  -- Each key pair is whole.
  abbrev pub EachGenuine : List KeyMaterial → Type 0
  EachGenuine [] = Unit
  EachGenuine (km ∷ kms) = Genuine t km × EachGenuine kms

  EachGenuine-insert :
      (km : KeyMaterial) (kms : List KeyMaterial)
      → Genuine t km
      → EachGenuine kms
      → EachGenuine (insert_by_kid (λ k. k.kid) km kms)
  unfolding insert_by_kid
  EachGenuine-insert km [] g h = (g, tt)
  EachGenuine-insert km (k ∷ kms) g h = elim (Bool-cases (text_before k.kid km.kid)) [
    | inl b ↦ rw (b, insert_by_kid) (h.0, EachGenuine-insert km kms g h.1)
    | inr b ↦ rw (b, insert_by_kid) (g, h)
  ]

  EachGenuine-sort_by_kid :
      (kms : List KeyMaterial) → EachGenuine kms → EachGenuine (sort_by_kid (λ k. k.kid) kms)
  unfolding sort_by_kid
  EachGenuine-sort_by_kid [] h = tt
  EachGenuine-sort_by_kid (k ∷ kms) h = EachGenuine-insert k _ h.0 (EachGenuine-sort_by_kid kms h.1)

  -- Each whole key pair has its entry in the document.
  jwks-EachGenuine :
      (use_for : String) (kms : List KeyMaterial)
      → EachGenuine kms
      → (js : List Jwk) × (jwks t use_for kms ≡ some js)
        × ((km : KeyMaterial)
            → Memᴰ km kms
            → (priv : PrivateKey) × (km.private_key ≡ some priv)
              × Memᴰ (jwk_of t use_for km priv) js)
  unfolding jwks jwk_of
  jwks-EachGenuine use_for [] h = ([], refl, λ km m. elim m [ ])
  jwks-EachGenuine use_for (k ∷ kms) h =
      let (js, e, entries) = jwks-EachGenuine use_for kms h.1 in
      let has_key = ap (λ x. x.private_key) h.0.made in
      (
        jwk_of t use_for k h.0.priv ∷ js,
        rw (has_key, e, jwks) refl,
        λ km m. elim m [
          | Memᴰ.head e ↦ (
            h.0.priv,
            ap (λ x. x.private_key) e ∙ has_key,
            Memᴰ.head (ap (λ x. jwk_of t use_for x h.0.priv) e),
          )
          | Memᴰ.tail n ↦ let (priv, p, entry) = entries km n in (priv, p, Memᴰ.tail entry)
        ],
      )

  published_keys-gc_expired :
      (now : ℕ) (st : OrgState)
      → published_keys (gc_expired now st) ≡ sort_by_kid (λ k. k.kid) (unexpired_keys now st)
  unfolding published_keys unexpired_keys
  published_keys-gc_expired now st =
      let (active, inactive) = gc_expired_lem now st in rw (active, inactive, published_keys) refl

  EachGenuine-unexpired_keys :
      (now : ℕ) (st : OrgState) → KeysSound t st → EachGenuine (unexpired_keys now st)
  unfolding unexpired_keys
  EachGenuine-unexpired_keys now st h =
      rw (h.active, unexpired_keys)
        (
          h.genuine,
          elim h.retired [
            | inl (n, e) ↦ rw (n, e) tt
            | inr (km, x, n, g, e) ↦
                rw (n, e) (elim (Bool-cases (ltb now x)) [ inl b ↦ rw b (g, tt) | inr b ↦ rw b tt ])
          ],
        )

  -- The reply with a document, if it is made.
  abbrev pub document_reply : Option String → Reply String
  document_reply none = err internal
  document_reply (some doc) = ok doc

  -- The entries of a document for these keys, by key id.
  abbrev pub ShowsKeys : String → List KeyMaterial → List Jwk → Type 0
  ShowsKeys use_for kms js =
      (jwks t use_for (sort_by_kid (λ k. k.kid) kms) ≡ some js)
      × ((km : KeyMaterial)
          → Memᴰ km kms
          → (priv : PrivateKey) × (km.private_key ≡ some priv) × Memᴰ (jwk_of t use_for km priv) js)

  jwks_reply-active :
      (spiffe : Bool) (st : OrgState) (km : KeyMaterial) (js : List Jwk)
      → active_key st ≡ some km
      → jwks t (if spiffe then "jwt-svid" else "sig") (published_keys st) ≡ some js
      → jwks_reply t spiffe st ≡ document_reply (t.marshal_jwks js)
  unfolding jwks_reply jwks_document_for_keys
  jwks_reply-active spiffe st km js a e = rw (a, e, jwks_reply, jwks_document_for_keys) refl

  get_jwks-stored :
      (c : Call) (org : String) (spiffe : Bool) (f : Identities) (st : OrgState)
      → empty_text org ≡ false
      → get org f.identity_state ≡ some st
      → (get_jwks t c (some (record { organization_id = org; spiffe = spiffe })) f).1
        ≡ jwks_reply t spiffe (gc_expired c.gc_time st)
  unfolding get_jwks gc_expired_key
  get_jwks-stored c org spiffe f st e g =
      rw
        (
          g,
          get_jwks,
          gc_expired_key,
          e,
          get-put_same org (gc_expired c.gc_time st) f.identity_state,
        )
        refl

  -- GetJWKS for an organization whose key slots are sound answers with the document of its active key and, until
  -- the time of its expiry, of its inactive key, by key id, and of no other; each of these keys has
  -- its entry. The reply is an error only where the entries cannot be marshalled.
  pub get_jwks-unexpired :
      (c : Call) (org : String) (spiffe : Bool) (f : Identities) (st : OrgState)
      → empty_text org ≡ false
      → get org f.identity_state ≡ some st
      → KeysSound t st
      → (js : List Jwk) × ((get_jwks t c
            (some (record { organization_id = org; spiffe = spiffe }))
            f).1
          ≡ document_reply (t.marshal_jwks js))
        × ShowsKeys (if spiffe then "jwt-svid" else "sig") (unexpired_keys c.gc_time st) js
  get_jwks-unexpired c org spiffe f st e g h =
      let use_for = if spiffe then "jwt-svid" else "sig" in
      let kms = unexpired_keys c.gc_time st in
      let whole = EachGenuine-sort_by_kid kms (EachGenuine-unexpired_keys c.gc_time st h) in
      let (js, p, entries) = jwks-EachGenuine use_for (sort_by_kid (λ k. k.kid) kms) whole in
      let stored = gc_expired c.gc_time st in
      let active = (gc_expired_lem c.gc_time st).0 ∙ h.active in
      let shown = ap (jwks t use_for) (published_keys-gc_expired c.gc_time st) ∙ p in
      (
        js,
        get_jwks-stored c org spiffe f st e g
            ∙ jwks_reply-active spiffe stored h.key js active shown,
        (p, λ km m. entries km (Mem-sort_by_kid (λ k. k.kid) km kms m)),
      )
