-- ===== src/Forge/Machines/Association.antt =====
-- AssociateMachinesWithInstanceType of internal/server/forge_server.go: its checks and its writes.
use nico_core_mock.Forge.Machines.{associate_machines, check_machines, set_types}
use nico_core_mock.GoMap.{GoMap, get, has, put}
use nico_core_mock.GoMap.Laws.{get-put}
use nico_core_mock.Identity.Config.{checked}
use nico_core_mock.Message.Compute.{AssociateRequest, Machine}
use nico_core_mock.Prelude.{
  Bool, Bool-cases, List, Option, Option-cases, String, [], ap, arith, contains, eq_iff, false,
  given, if◌then◌else◌, inl, inr, none, not, refl, some, true, value, ◌==◌, ◌||◌, ◌∙◌, ◌∷◌, ◌≡◌,
  ◌⊎◌,
}
use nico_core_mock.Reply.{ok}
use nico_core_mock.Server.{Server}

abbrev typed : String → Bool → Option Machine → Option Machine
typed t named none = none
typed t named (some x) = some (if named then record x { instance_type_id = some t } else x)

get-set_types :
    (t : String) (mids : List String) (k : String) (m : GoMap Machine)
    → get k (set_types t mids m) ≡ typed t (contains k mids) (get k m)
unfolding set_types contains
get-set_types t [] k m = elim (Option-cases (get k m)) [ inl e ↦ rw e | inr (x, e) ↦ rw e ]
get-set_types t (mid ∷ mids) k m = elim (Option-cases (get mid m)) [
  | inl e ↦ rw (e, set_types) (ground (arith, get-set_types t mids k m, eq_iff mid k))
  | inr (x, e) ↦
      let y = record x { instance_type_id = some t } in
      rw (e, set_types)
        (ground (arith, get-set_types t mids k (put mid y m), get-put mid k y m, eq_iff mid k))
]

-- A machine that may be given the type `t`: it has no type, or "", or already this one.
abbrev pub is_free_for : String → Machine → Bool
is_free_for t x = not (given x.instance_type_id) || value x.instance_type_id == t

check_machines-none :
    (t : String) (mids : List String) (m : GoMap Machine) (k : String)
    → check_machines t mids m ≡ none
    → contains k mids ≡ true
    → (x : Machine) × (get k m ≡ some x) × (is_free_for t x ≡ true)
unfolding check_machines contains
check_machines-none t [] m k h c = absurd (ground arith)
check_machines-none t (mid ∷ mids) m k h c = elim (Option-cases (get mid m)) [
  | inl e ↦ absurd (ground arith)
  | inr (x, e) ↦ elim (Bool-cases (mid == k)) [
    | inl same ↦ (x, rw (← (eq_iff mid k).0 same) e, ground arith)
    | inr other ↦ check_machines-none t mids m k (ground arith) (ground arith)
  ]
]

associate_ok :
    (req : AssociateRequest) (f : Server)
    → (associate_machines (some req) f).1 ≡ ok tt
    → (check_machines req.instance_type_id req.machine_ids f.m ≡ none)
      × (has req.instance_type_id f.it ≡ true)
      × ((associate_machines (some req) f).0.m ≡ set_types req.instance_type_id req.machine_ids f.m)
unfolding associate_machines
associate_ok req f h = ground arith

-- Where the call succeeds, the instance type is stored, every machine that is named was stored and
-- free for the type, and it has the type afterwards, with nothing else of it changed.
associate_machines-named :
    (req : AssociateRequest) (f : Server) (k : String)
    → (associate_machines (some req) f).1 ≡ ok tt
    → contains k req.machine_ids ≡ true
    → (x : Machine) × (has req.instance_type_id f.it ≡ true)
      × (get k f.m ≡ some x)
      × (is_free_for req.instance_type_id x ≡ true)
      × (get k (associate_machines (some req) f).0.m
          ≡ some (record x { instance_type_id = some req.instance_type_id }))
associate_machines-named req f k done named =
    let (checked, stored, maps) = associate_ok req f done in
    let (x, found, free) =
      check_machines-none req.instance_type_id req.machine_ids f.m k checked named in
    (
      x,
      stored,
      found,
      free,
      rw maps (
          get-set_types req.instance_type_id req.machine_ids k f.m
          ∙ rw named (ap (typed req.instance_type_id true) found)),
    )

-- Where the call succeeds, a machine that is not named is as it was.
associate_machines-others :
    (req : AssociateRequest) (f : Server) (k : String)
    → (associate_machines (some req) f).1 ≡ ok tt
    → contains k req.machine_ids ≡ false
    → get k (associate_machines (some req) f).0.m ≡ get k f.m
associate_machines-others req f k done other =
    let (checked, stored, maps) = associate_ok req f done in
    rw maps
      (get-set_types req.instance_type_id req.machine_ids k f.m ∙ rw other (untouched (get k f.m)))
  where
    untouched : (o : Option Machine) → typed req.instance_type_id false o ≡ o
    untouched none = refl
    untouched (some x) = refl

-- A machine that is named was stored and free for the type, which exists, and has the type now.
abbrev pub Typed : AssociateRequest → Server → String → Type 0
Typed req f k =
    (x : Machine) × (has req.instance_type_id f.it ≡ true)
    × (get k f.m ≡ some x)
    × (is_free_for req.instance_type_id x ≡ true)
    × (get k (associate_machines (some req) f).0.m
        ≡ some (record x { instance_type_id = some req.instance_type_id }))

-- An AssociateMachinesWithInstanceType that succeeds gives every machine that it names the type, which
-- exists; each of them was stored and had no other type. A machine that it does not name is as it was.
pub associate_machines-Typed :
    (req : AssociateRequest) (f : Server) (k : String)
    → (associate_machines (some req) f).1 ≡ ok tt
    → ((contains k req.machine_ids ≡ true) × Typed req f k)
      ⊎ ((contains k req.machine_ids ≡ false)
          × (get k (associate_machines (some req) f).0.m ≡ get k f.m))
associate_machines-Typed req f k done = elim (Bool-cases (contains k req.machine_ids)) [
  | inl b ↦ inl (b, associate_machines-named req f k done b)
  | inr b ↦ inr (b, associate_machines-others req f k done b)
]
