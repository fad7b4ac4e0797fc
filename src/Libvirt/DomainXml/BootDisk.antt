-- ===== src/Libvirt/DomainXml/BootDisk.antt =====
-- The disk that internal/libvirt/domain_xml.go boots from.
use mathlib.Core.List.{Memᴰ}
use nico_core_mock.Libvirt.DomainXml.{
  Patterns, disk_blocks, disk_boot_order, is_boot_disk_candidate, select_boot_disk_index,
  select_from,
}
use nico_core_mock.Prelude.{
  Bool, Bool-cases, List, Option, String, [], ap, arith, false, if◌then◌else◌, inl, inr, ltb,
  map_option, nat_eq, none, refl, some, subst, suc, sym, true, ℕ, ◌&&◌, ◌||◌, ◌∙◌, ◌∷◌, ◌≡◌, ◌⊎◌,
}

-- A boot order goes before another: 1 is the first, and 0 stands for none.
abbrev pub goes_before : ℕ → ℕ → Bool
goes_before a b = ltb 0 a && (nat_eq b 0 || ltb a b)

module _ (re : Patterns) where
  -- The index and the boot order of each disk that may be booted from.
  unfoldable pub candidates : ℕ → List String → List (ℕ × ℕ)
  candidates i [] = []
  candidates i (block ∷ blocks) =
      let rest = candidates (suc i) blocks in
      if is_boot_disk_candidate re block then (i, disk_boot_order re block) ∷ rest else rest

  -- The reference: the first of those before which no other goes.
  unfoldable pub first_best : Option (ℕ × ℕ) → List (ℕ × ℕ) → Option ℕ
  first_best best [] = map_option (λ (s : ℕ × ℕ). s.0) best
  first_best best (c ∷ cs) =
      let kept = first_best best cs in
      let taken = first_best (some c) cs in
      elim best [ none ↦ taken | some b ↦ if goes_before c.1 b.1 then taken else kept ]

  -- Nothing goes before the order 1.
  first_best-one :
      (i : ℕ) (o : ℕ) (cs : List (ℕ × ℕ)) → nat_eq o 1 ≡ true → first_best (some (i, o)) cs ≡ some i
  unfolding first_best
  first_best-one i o [] h = refl
  first_best-one i o (c ∷ cs) h = ground (arith, h, first_best-one i o cs h)

  -- With a disk selected, whose order is not 1.
  select_from-some :
      (i : ℕ) (blocks : List String) (s o : ℕ)
      → nat_eq o 1 ≡ false
      → select_from re i (some (s, o)) blocks ≡ first_best (some (s, o)) (candidates i blocks)
  unfolding select_from first_best candidates
  select_from-some i [] s o h = refl
  select_from-some i (block ∷ blocks) s o h =
      let order = disk_boot_order re block in
      let rest = candidates (suc i) blocks in
      let kept = select_from-some (suc i) blocks s o h in
      elim (Bool-cases (is_boot_disk_candidate re block)) [
        | inr c ↦ ground (arith, c, kept)
        | inl c ↦ elim (Bool-cases (nat_eq order 1)) [
          | inl b ↦ ground (arith, c, b, h, first_best-one i order rest b)
          | inr b ↦ ground (arith, c, b, h, kept, select_from-some (suc i) blocks i order b)
        ]
      ]

  select_from-none :
      (i : ℕ) (blocks : List String)
      → select_from re i none blocks ≡ first_best none (candidates i blocks)
  unfolding select_from first_best candidates
  select_from-none i [] = refl
  select_from-none i (block ∷ blocks) =
      let order = disk_boot_order re block in
      let rest = candidates (suc i) blocks in
      let kept = select_from-none (suc i) blocks in
      elim (Bool-cases (is_boot_disk_candidate re block)) [
        | inr c ↦ ground (arith, c, kept)
        | inl c ↦ elim (Bool-cases (nat_eq order 1)) [
          | inl b ↦ ground (arith, c, b, first_best-one i order rest b)
          | inr b ↦ ground (arith, c, b, kept, select_from-some (suc i) blocks i order b)
        ]
      ]

  -- The disk `j` is among the candidates, and none goes before it.
  abbrev pub Best : List (ℕ × ℕ) → ℕ → Type 0
  Best cs j = (o : ℕ) × Memᴰ (j, o) cs × ((c : ℕ × ℕ) → Memᴰ c cs → goes_before c.1 o ≡ false)

  goes_before_irrefl : (o : ℕ) → goes_before o o ≡ false
  goes_before_irrefl o = ground arith

  goes_before_kept :
      (a b c : ℕ) → goes_before a b ≡ false → goes_before b c ≡ false → goes_before a c ≡ false
  goes_before_kept a b c h k = ground (arith, h, k)

  goes_before_taken : (a b : ℕ) → goes_before a b ≡ true → goes_before b a ≡ false
  goes_before_taken a b h = ground (arith, h)

  -- The best with one more candidate in front that does not go before another.
  Best-cons :
      (b c : ℕ × ℕ) (cs : List (ℕ × ℕ)) (j : ℕ)
      → goes_before b.1 c.1 ≡ false
      → Best (c ∷ cs) j
      → Best (b ∷ c ∷ cs) j
  Best-cons b c cs j h (o, mem, least) = (
    o,
    Memᴰ.tail mem,
    λ x m. elim m [
      | Memᴰ.head e ↦
          ap (λ (y : ℕ × ℕ). goes_before y.1 o) e
          ∙ goes_before_kept b.1 c.1 o h (least c (Memᴰ.head refl))
      | Memᴰ.tail n ↦ least x n
    ],
  )

  Best-swap : (b c : ℕ × ℕ) (cs : List (ℕ × ℕ)) (j : ℕ) → Best (c ∷ b ∷ cs) j → Best (b ∷ c ∷ cs) j
  Best-swap b c cs j (o, mem, least) = (o, swap b c mem, λ x m. least x (swap c b m))
    where
      swap : {x : ℕ × ℕ} (p q : ℕ × ℕ) → Memᴰ x (q ∷ p ∷ cs) → Memᴰ x (p ∷ q ∷ cs)
      swap p q (Memᴰ.head e) = Memᴰ.tail (Memᴰ.head e)
      swap p q (Memᴰ.tail (Memᴰ.head e)) = Memᴰ.head e
      swap p q (Memᴰ.tail (Memᴰ.tail n)) = Memᴰ.tail (Memᴰ.tail n)

  first_best-Best :
      (b : ℕ × ℕ) (cs : List (ℕ × ℕ))
      → (j : ℕ) × (first_best (some b) cs ≡ some j) × Best (b ∷ cs) j
  unfolding first_best
  first_best-Best b [] = (
    b.0,
    refl,
    (
      b.1,
      Memᴰ.head refl,
      λ x m. elim m [
        | Memᴰ.head e ↦ ap (λ (y : ℕ × ℕ). goes_before y.1 b.1) e ∙ goes_before_irrefl b.1
        | Memᴰ.tail n ↦ elim n [ ]
      ],
    ),
  )
  first_best-Best b (c ∷ cs) = elim (Bool-cases (goes_before c.1 b.1)) [
    | inl h ↦
        let (j, e, best) = first_best-Best c cs in
        (j, ground (arith, h, e), Best-cons b c cs j (goes_before_taken c.1 b.1 h) best)
    | inr h ↦
        let (j, e, best) = first_best-Best b cs in
        (j, ground (arith, h, e), Best-swap b c cs j (Best-cons c b cs j h best))
  ]

  -- A domain without a disk to boot from has none selected. Otherwise selectBootDiskIndex, which stops
  -- at the first disk of order 1, selects the disk that a look at all of them finds: one before
  -- whose boot order no other goes, where 1 is the first and disks without an order are last.
  pub select_boot_disk_index-Best :
      (xml_desc : String)
      → ((candidates 0 (disk_blocks re xml_desc) ≡ [])
          × (select_boot_disk_index re xml_desc ≡ none))
        ⊎ ((j : ℕ) × (select_boot_disk_index re xml_desc ≡ some j)
            × Best (candidates 0 (disk_blocks re xml_desc)) j)
  unfolding select_boot_disk_index first_best
  select_boot_disk_index-Best xml_desc = by_candidates (candidates 0 blocks) refl
    where
      blocks : List String
      blocks = disk_blocks re xml_desc

      by_candidates :
          (cs : List (ℕ × ℕ))
          → candidates 0 blocks ≡ cs
          → ((candidates 0 blocks ≡ []) × (select_boot_disk_index re xml_desc ≡ none))
            ⊎ ((j : ℕ) × (select_boot_disk_index re xml_desc ≡ some j)
                × Best (candidates 0 blocks) j)
      by_candidates [] e = inl (e, select_from-none 0 blocks ∙ ap (first_best none) e)
      by_candidates (c ∷ cs) e =
          let (j, chosen, best) = first_best-Best c cs in
          inr (
            j,
            select_from-none 0 blocks ∙ ap (first_best none) e ∙ chosen,
            subst (λ xs. Best xs j) (sym e) best,
          )
