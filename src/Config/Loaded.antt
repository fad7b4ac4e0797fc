-- ===== src/Config/Loaded.antt =====
-- What a successful Load of internal/config/config.go gives.
use mathlib.Core.List.{Memᴰ}
use mathlib.Core.Option.{some-injective, none-ne-some}
use nico_core_mock.Config.{File, ListedMachine, MachineSpec, Sources}
use nico_core_mock.Config.Load.{
  LoadedInventory, inventory_of, load_config, load_expected, load_machines, parse_config,
}
use nico_core_mock.Config.Machines.{
  interfaces_to_proto, load_discovery_info, machine_interfaces, machine_to_proto, or_default,
}
use nico_core_mock.Config.Path.{dir_of}
use nico_core_mock.GoMap.{GoMap, get, put}
use nico_core_mock.GoMap.Keyed.{IsKeyed-empty, IsKeyed-put}
use nico_core_mock.GoMap.Laws.{get-empty, get-put, get-put_same}
use nico_core_mock.GoMap.Load.{IsKeyed}
use nico_core_mock.Message.{Payload}
use nico_core_mock.Prelude.{
  Bool-cases, List, Option, Option-cases, String, [], ap, arith, empty_text, eq_iff, false, inl,
  inr, none, refl, some, subst, suc, sym, value, ℕ, ◌==◌, ◌∙◌, ◌∷◌, ◌≡◌, ◌≢◌, ◌⊎◌,
}

-- The elements with their indices, from `i` on.
abbrev pub indexed {ℓ} : {A : Type ℓ} → ℕ → List A → List (ℕ × A)
indexed i [] = []
indexed i (x ∷ xs) = (i, x) ∷ indexed (suc i) xs

abbrev pub listed_id : ListedMachine → Option String
listed_id x = x.id

module _ (fs : Sources) where
  -- `uuid.NewString` never returns "".
  abbrev pub HasIds : Type 0
  HasIds = (i : ℕ) → empty_text (fs.machine_uuid i) ≡ false

  machine_to_proto-id :
      (dir : String) (i : ℕ) (spec : MachineSpec) (x : ListedMachine)
      → HasIds
      → machine_to_proto fs dir i spec ≡ some x
      → (x.id ≡ some (value x.id)) × (empty_text (value x.id) ≡ false)
  unfolding machine_to_proto
  machine_to_proto-id dir i spec x ids h =
      elim (Option-cases (
        interfaces_to_proto fs i 0 (or_default spec.id (fs.machine_uuid i))
          spec.attached_dpu_machine_id (machine_interfaces fs i spec))) [
            | inl n ↦ absurd (ground (arith, n, h))
            | inr (is, n) ↦
                elim (Option-cases
                  (load_discovery_info fs dir spec.discovery_info spec.discovery_info_file)) [
                    | inl d ↦ absurd (ground (arith, n, d, h))
                    | inr (info, d) ↦ (ground (arith, n, d, h), ground (arith, n, d, h, ids i))
                  ]
          ]

  -- The first machine of a load that succeeds.
  load_machines-step :
      (dir : String) (i : ℕ) (spec : MachineSpec) (specs : List MachineSpec)
      (m n : GoMap ListedMachine)
      → load_machines fs dir i (spec ∷ specs) m ≡ some n
      → (x : ListedMachine) × (machine_to_proto fs dir i spec ≡ some x)
        × (get (value x.id) m ≡ none)
        × (load_machines fs dir (suc i) specs (put (value x.id) x m) ≡ some n)
  unfolding load_machines
  load_machines-step dir i spec specs m n h = elim (Option-cases (machine_to_proto fs dir i spec)) [
    | inl p ↦ absurd (ground (arith, p, h))
    | inr (x, p) ↦ elim (Option-cases (get (value x.id) m)) [
      | inr (y, g) ↦ absurd (ground (arith, p, g, h))
      | inl g ↦ (x, p, g, ground (arith, p, g, h))
    ]
  ]

  load_machines-IsKeyed :
      (dir : String) (i : ℕ) (specs : List MachineSpec) (m n : GoMap ListedMachine)
      → HasIds
      → load_machines fs dir i specs m ≡ some n
      → IsKeyed listed_id m
      → IsKeyed listed_id n
  unfolding load_machines
  load_machines-IsKeyed dir i [] m n ids h w = subst (IsKeyed listed_id) (some-injective m n h) w
  load_machines-IsKeyed dir i (spec ∷ specs) m n ids h w =
      let (x, p, g, rest) = load_machines-step dir i spec specs m n h in
      let (own, filled) = machine_to_proto-id dir i spec x ids p in
      load_machines-IsKeyed dir (suc i) specs (put (value x.id) x m) n ids rest
        (IsKeyed-put (value x.id) x m w own filled)

  -- No machine is overwritten.
  load_machines-keeps :
      (dir : String) (i : ℕ) (specs : List MachineSpec) (m n : GoMap ListedMachine) (k : String)
      (x : ListedMachine)
      → load_machines fs dir i specs m ≡ some n
      → get k m ≡ some x
      → get k n ≡ some x
  unfolding load_machines
  load_machines-keeps dir i [] m n k x h g = ap (get k) (sym (some-injective m n h)) ∙ g
  load_machines-keeps dir i (spec ∷ specs) m n k x h g =
      let (y, p, free, rest) = load_machines-step dir i spec specs m n h in
      load_machines-keeps dir (suc i) specs (put (value y.id) y m) n k x rest
        (ground (arith, get-put (value y.id) k y m, g, free, eq_iff (value y.id) k))

  load_machines-each :
      (dir : String) (i : ℕ) (specs : List MachineSpec) (m n : GoMap ListedMachine) (j : ℕ)
      (spec : MachineSpec)
      → load_machines fs dir i specs m ≡ some n
      → Memᴰ (j, spec) (indexed i specs)
      → (x : ListedMachine) × (machine_to_proto fs dir j spec ≡ some x)
        × (get (value x.id) n ≡ some x)
  load_machines-each dir i [] m n j spec h mem = elim mem [ ]
  load_machines-each dir i (s ∷ specs) m n j spec h mem =
      let (y, p, free, rest) = load_machines-step dir i s specs m n h in
      elim mem [
        | Memᴰ.head e ↦ (
          y,
          ap (λ (q : ℕ × MachineSpec). machine_to_proto fs dir q.0 q.1) e ∙ p,
          load_machines-keeps dir (suc i) specs (put (value y.id) y m) n (value y.id) y rest
              (get-put_same (value y.id) y m),
        )
        | Memᴰ.tail later ↦
            load_machines-each dir (suc i) specs (put (value y.id) y m) n j spec rest later
      ]

  load_machines-only :
      (dir : String) (i : ℕ) (specs : List MachineSpec) (m n : GoMap ListedMachine) (k : String)
      (x : ListedMachine)
      → load_machines fs dir i specs m ≡ some n
      → get k n ≡ some x
      → (get k m ≡ some x)
        ⊎ ((j : ℕ) × (spec : MachineSpec) × Memᴰ (j, spec) (indexed i specs)
            × (machine_to_proto fs dir j spec ≡ some x))
  unfolding load_machines
  load_machines-only dir i [] m n k x h g = inl (ap (get k) (some-injective m n h) ∙ g)
  load_machines-only dir i (s ∷ specs) m n k x h g =
      let (y, p, free, rest) = load_machines-step dir i s specs m n h in
      elim (load_machines-only dir (suc i) specs (put (value y.id) y m) n k x rest g) [
        | inr (j, spec, mem, q) ↦ inr (j, spec, Memᴰ.tail mem, q)
        | inl old ↦ elim (Bool-cases (value y.id == k)) [
          | inl same ↦
              inr (i, s, Memᴰ.head refl, ground (arith, get-put (value y.id) k y m, p, old, same))
          | inr other ↦ inl (ground (arith, get-put (value y.id) k y m, old, other))
        ]
      ]

  -- The machines of the file that Load has read, plain or wrapped.
  abbrev pub ListsMachines : String → List MachineSpec → GoMap ListedMachine → Type 0
  ListsMachines path specs m =
      ((j : ℕ) (spec : MachineSpec)
        → Memᴰ (j, spec) (indexed 0 specs)
        → (x : ListedMachine) × (machine_to_proto fs (dir_of path) j spec ≡ some x)
          × (get (value x.id) m ≡ some x))
      × ((k : String) (x : ListedMachine)
          → get k m ≡ some x
          → (j : ℕ) × (spec : MachineSpec) × Memᴰ (j, spec) (indexed 0 specs)
            × (machine_to_proto fs (dir_of path) j spec ≡ some x))

  inventory_of-machines :
      (dir : String) (file : File) (inv : LoadedInventory)
      → inventory_of fs dir file ≡ some inv
      → load_machines fs dir 0 file.machines [] ≡ some inv.machines
  unfolding inventory_of
  inventory_of-machines dir file inv h =
      elim (Option-cases (load_machines fs dir 0 file.machines [])) [
        | inl n ↦ absurd (ground (arith, n, h))
        | inr (m, e) ↦ elim (Option-cases (load_expected fs 0 file.expected_machines)) [
          | inl n ↦ absurd (ground (arith, e, n, h))
          | inr (pair, n) ↦ ground (arith, e, n, h)
        ]
      ]

  load_config-file :
      (path : String) (inv : LoadedInventory)
      → load_config fs path ≡ some inv
      → (doc : Payload) × (file : File) × (fs.read_file path ≡ some doc)
        × (parse_config fs doc ≡ some file)
        × (file.machines ≢ [])
        × (inventory_of fs (dir_of path) file ≡ some inv)
  unfolding load_config
  load_config-file path inv h = elim (Option-cases (fs.read_file path)) [
    | inl n ↦ absurd (ground (arith, n, h))
    | inr (doc, r) ↦ elim (Option-cases (parse_config fs doc)) [
      | inl n ↦ absurd (ground (arith, r, n, h))
      | inr (file, p) ↦ (
        doc,
        file,
        r,
        p,
        λ none_listed. ground (arith, r, p, none_listed, h),
        ground (arith, r, p, h),
      )
    ]
  ]

  -- A Load that succeeds has read and parsed the file, which lists at least one machine, and its
  -- inventory has, for each machine that is listed, the message made of it, stored under its own id,
  -- which is not empty and which no other has, and no machine besides.
  pub load_config-ListsMachines :
      (path : String) (inv : LoadedInventory)
      → HasIds
      → load_config fs path ≡ some inv
      → IsKeyed listed_id inv.machines
        × ((doc : Payload) × (file : File) × (fs.read_file path ≡ some doc)
            × (parse_config fs doc ≡ some file)
            × (file.machines ≢ [])
            × ListsMachines path file.machines inv.machines)
  load_config-ListsMachines path inv ids h =
      let (doc, file, r, p, some_listed, made) = load_config-file path inv h in
      let loaded = inventory_of-machines (dir_of path) file inv made in
      (
        load_machines-IsKeyed (dir_of path) 0 file.machines [] inv.machines ids loaded
            IsKeyed-empty,
        (
          doc,
          file,
          r,
          p,
          some_listed,
          (
            λ j spec mem.
                load_machines-each (dir_of path) 0 file.machines [] inv.machines j spec loaded mem,
            λ k x g.
                elim (load_machines-only (dir_of path) 0 file.machines [] inv.machines k x loaded
                  g) [
                    | inr found ↦ found
                    | inl old ↦ absurd (none-ne-some x (sym (get-empty k) ∙ old))
                  ],
          ),
        ),
      )
