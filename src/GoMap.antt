-- ===== src/GoMap.antt =====
-- Go's `map[string]*T` as the handlers of internal/server use it: lookup, assignment, `delete`
-- and `range`. A list of pairs in which the first entry of a key counts.
pub mod Laws
pub mod Load
pub mod Keyed
pub mod Each
use nico_core_mock.Prelude.{
  Bool, List, Option, String, [], count, if◌then◌else◌, is_some, none, some, without, ◌==◌, ◌∷◌,
  ◌≡◌,
}

abbrev pub GoMap {ℓ} : Type ℓ → Type ℓ
GoMap V = List (String × V)

module _ {ℓ} {V : Type ℓ} where
  abbrev pub empty : GoMap V
  empty = []

  -- `v, ok := m[k]`
  unfoldable pub get : String → GoMap V → Option V
  get k [] = none
  get k ((j, v) ∷ m) = if j == k then some v else get k m

  -- `_, ok := m[k]`
  abbrev pub has : String → GoMap V → Bool
  has k m = is_some (get k m)

  -- `delete(m, k)`
  unfoldable pub delete : String → GoMap V → GoMap V
  delete k [] = []
  delete k ((j, v) ∷ m) = let rest = delete k m in if j == k then rest else (j, v) ∷ rest

  -- `m[k] = v`, and a write through the pointer that `m[k]` holds
  unfoldable pub put : String → V → GoMap V → GoMap V
  unfolding delete
  put k v m = (k, v) ∷ delete k m

  -- The keys, each once.
  unfoldable pub keys : GoMap V → List String
  keys [] = []
  keys ((k, v) ∷ m) = k ∷ without k (keys m)

  -- `for _, k := range ks { if v, ok := m[k]; ok { res = append(res, v) } }`
  unfoldable pub values_at : List String → GoMap V → List V
  values_at [] m = []
  values_at (k ∷ ks) m =
      let rest = values_at ks m in elim (get k m) [ none ↦ rest | some v ↦ v ∷ rest ]

-- What the Go runtime and its `sort` package decide. A `range` over a map visits each key once,
-- in an order that is not specified; a sort puts a list in an order of its own.
pub record Runtime : Type 0 where
  pub visit : List String → List String
  pub visit-count : (k : String) (ks : List String) → count k (visit ks) ≡ count k ks
  pub sort : List String → List String
  pub sort-count : (k : String) (ks : List String) → count k (sort ks) ≡ count k ks

module _ {ℓ} {V : Type ℓ} (go : Runtime) where
  open go use {visit}

  -- `for k := range m { ids = append(ids, k) }`
  unfoldable pub range_keys : GoMap V → List String
  range_keys m = visit (keys m)

  -- `for _, v := range m { res = append(res, v) }`
  unfoldable pub range_values : GoMap V → List V
  unfolding range_keys
  range_values m = values_at (range_keys m) m
