-- ===== src/Config/Grouped.antt =====
-- machineCapabilitiesToProto of internal/config/config.go against a description of its result.
use mathlib.Core.List.{append-nil, append_assoc}
use nico_core_mock.Config.{CapabilitiesSet, Capability, CapabilitySpec}
use nico_core_mock.Config.Capabilities.{
  add_capabilities, add_capability, bare, cpu_of, gpu_of, infiniband_of, network_of, sized_of,
}
use nico_core_mock.Prelude.{
  Bool-cases, List, String, [], ap, eq_iff, if◌then◌else◌, inl, inr, map, refl, subst, sym, ◌++◌,
  ◌==◌, ◌∙◌, ◌∷◌, ◌≡◌,
}

-- The capabilities of one type, in their order.
unfoldable pub of_kind : String → List CapabilitySpec → List CapabilitySpec
of_kind k [] = []
of_kind k (s ∷ specs) = let rest = of_kind k specs in if s.kind == k then s ∷ rest else rest

-- The set with its lists followed by the capabilities of these specs.
abbrev pub grouped : CapabilitiesSet → List CapabilitySpec → CapabilitiesSet
grouped set specs = record {
  cpu = set.cpu ++ map cpu_of (of_kind "CPU" specs);
  gpu = set.gpu ++ map gpu_of (of_kind "GPU" specs);
  memory = set.memory ++ map sized_of (of_kind "Memory" specs);
  storage = set.storage ++ map sized_of (of_kind "Storage" specs);
  network = set.network ++ map network_of (of_kind "Network" specs);
  infiniband = set.infiniband ++ map infiniband_of (of_kind "InfiniBand" specs);
  dpu = set.dpu ++ map bare (of_kind "DPU" specs);
}

-- One spec first.
list_step :
    (k : String) (f : CapabilitySpec → Capability) (s : CapabilitySpec)
    (specs : List CapabilitySpec) (xs : List Capability)
    → (if s.kind == k then xs ++ (f s ∷ []) else xs) ++ map f (of_kind k specs)
      ≡ xs ++ map f (of_kind k (s ∷ specs))
unfolding of_kind
list_step k f s specs xs = elim (Bool-cases (s.kind == k)) [
  | inl b ↦ rw (b, of_kind) (append_assoc xs (f s ∷ []) (map f (of_kind k specs)))
  | inr b ↦ rw (b, of_kind) refl
]

-- The capability appended to the list of its kind `k`, each list by itself.
each_list : String → CapabilitySpec → CapabilitiesSet → CapabilitiesSet
each_list k s set = record {
  cpu = if k == "CPU" then set.cpu ++ (cpu_of s ∷ []) else set.cpu;
  gpu = if k == "GPU" then set.gpu ++ (gpu_of s ∷ []) else set.gpu;
  memory = if k == "Memory" then set.memory ++ (sized_of s ∷ []) else set.memory;
  storage = if k == "Storage" then set.storage ++ (sized_of s ∷ []) else set.storage;
  network = if k == "Network" then set.network ++ (network_of s ∷ []) else set.network;
  infiniband =
      if k == "InfiniBand" then set.infiniband ++ (infiniband_of s ∷ []) else set.infiniband;
  dpu = if k == "DPU" then set.dpu ++ (bare s ∷ []) else set.dpu;
}

-- The switch does to each list what its kind says: the kinds exclude each other.
add_capability-each_list :
    (k : String) (s : CapabilitySpec) (set : CapabilitiesSet)
    → add_capability (record s { kind = k }) set ≡ each_list k s set
unfolding add_capability each_list
add_capability-each_list k s set =
    let Agrees = λ (x : String). add_capability (record s { kind = x }) set ≡ each_list x s set in
    elim (Bool-cases (k == "CPU")) [
      | inl b ↦ subst Agrees (sym ((eq_iff k "CPU").0 b)) refl
      | inr b0 ↦ elim (Bool-cases (k == "GPU")) [
        | inl b ↦ subst Agrees (sym ((eq_iff k "GPU").0 b)) refl
        | inr b1 ↦ elim (Bool-cases (k == "Memory")) [
          | inl b ↦ subst Agrees (sym ((eq_iff k "Memory").0 b)) refl
          | inr b2 ↦ elim (Bool-cases (k == "Storage")) [
            | inl b ↦ subst Agrees (sym ((eq_iff k "Storage").0 b)) refl
            | inr b3 ↦ elim (Bool-cases (k == "Network")) [
              | inl b ↦ subst Agrees (sym ((eq_iff k "Network").0 b)) refl
              | inr b4 ↦ elim (Bool-cases (k == "InfiniBand")) [
                | inl b ↦ subst Agrees (sym ((eq_iff k "InfiniBand").0 b)) refl
                | inr b5 ↦ elim (Bool-cases (k == "DPU")) [
                  | inl b ↦ subst Agrees (sym ((eq_iff k "DPU").0 b)) refl
                  | inr b6 ↦ rw (b0, b1, b2, b3, b4, b5, b6, add_capability, each_list) refl
                ]
              ]
            ]
          ]
        ]
      ]
    ]

each_list-grouped :
    (s : CapabilitySpec) (specs : List CapabilitySpec) (set : CapabilitiesSet)
    → grouped (each_list s.kind s set) specs ≡ grouped set (s ∷ specs)
unfolding each_list of_kind
each_list-grouped s specs set = λ i. record {
  cpu = list_step "CPU" cpu_of s specs set.cpu i;
  gpu = list_step "GPU" gpu_of s specs set.gpu i;
  memory = list_step "Memory" sized_of s specs set.memory i;
  storage = list_step "Storage" sized_of s specs set.storage i;
  network = list_step "Network" network_of s specs set.network i;
  infiniband = list_step "InfiniBand" infiniband_of s specs set.infiniband i;
  dpu = list_step "DPU" bare s specs set.dpu i;
}

-- The set of a list of specs has, in the list of each type, the capabilities of that type in their
-- order, with the fields of the type, after those that it had; specs of another type add nothing.
pub add_capabilities-grouped :
    (specs : List CapabilitySpec) (set : CapabilitiesSet)
    → add_capabilities specs set ≡ grouped set specs
unfolding add_capabilities of_kind
add_capabilities-grouped [] set = λ i. record {
  cpu = sym (append-nil set.cpu) i;
  gpu = sym (append-nil set.gpu) i;
  memory = sym (append-nil set.memory) i;
  storage = sym (append-nil set.storage) i;
  network = sym (append-nil set.network) i;
  infiniband = sym (append-nil set.infiniband) i;
  dpu = sym (append-nil set.dpu) i;
}
add_capabilities-grouped (s ∷ specs) set =
    add_capabilities-grouped specs (add_capability s set)
    ∙ ap (λ r. grouped r specs) (add_capability-each_list s.kind s set)
    ∙ each_list-grouped s specs set
