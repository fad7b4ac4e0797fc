-- ===== src/GoMap/Load.antt =====
-- A map rebuilt from the list of its values, each put back under the key that it carries.
use nico_core_mock.GoMap.{GoMap, Runtime, get, put, range_keys, range_values, values_at}
use nico_core_mock.GoMap.Laws.{contains-range_keys, get-put}
use nico_core_mock.Prelude.{
  List, Option, Option-cases, String, [], arith, contains, empty_text, eq_iff, false, given,
  if◌then◌else◌, inl, inr, or_else, refl, some, value, ◌==◌, ◌∷◌, ◌≡◌,
}

module _ {ℓ} {V : Type ℓ} (key : V → Option String) where
  -- `for _, x := range xs { if x.GetId() == nil || x.GetId().GetValue() == "" { continue };
  --    m[x.GetId().GetValue()] = x }`
  unfoldable pub load : List V → GoMap V → GoMap V
  load [] m = m
  load (x ∷ xs) m = load xs (if given (key x) then put (value (key x)) x m else m)

  -- Every value is stored under the id that it carries, and that is not "".
  pub record IsKeyed (m : GoMap V) : Type ℓ where
    pub at : (k : String) (v : V) → get k m ≡ some v → (key v ≡ some k) × (empty_text k ≡ false)

  load-step :
      (k x : String) (v : V) (m : GoMap V)
      → key v ≡ some x
      → empty_text x ≡ false
      → get k (if given (key v) then put (value (key v)) v m else m)
        ≡ (if x == k then some v else get k m)
  load-step k x v m e h = rw (e, h) (get-put x k v m)

  -- After the load, the keys that the list took values from have them, and the others are as
  -- before.
  pub get-load :
      (k : String) (ks : List String) (m old : GoMap V)
      → IsKeyed m
      → get k (load (values_at ks m) old)
        ≡ (if contains k ks then or_else (get k m) (get k old) else get k old)
  unfolding load values_at contains
  get-load k [] m old w = refl
  get-load k (x ∷ ks) m old w = elim (Option-cases (get x m)) [
    | inl e ↦ rw (e, values_at) (ground (arith, get-load k ks m old w, eq_iff x k))
    | inr (v, e) ↦
        rw (e, values_at)
          (ground (
            arith,
            get-load k ks m (if given (key v) then put (value (key v)) v old else old) w,
            load-step k x v old (w.at x v e).0 (w.at x v e).1,
            eq_iff x k,
          ))
  ]

  -- The values of a map in any order, loaded into another, lay the map over it.
  pub get-load-range_values :
      (go : Runtime) (k : String) (m old : GoMap V)
      → IsKeyed m
      → get k (load (range_values go m) old) ≡ or_else (get k m) (get k old)
  unfolding range_values
  get-load-range_values go k m old w =
      ground (arith, get-load k (range_keys go m) m old w, contains-range_keys go k m)

  pub get-load-range_values_empty :
      (go : Runtime) (k : String) (m : GoMap V)
      → IsKeyed m
      → get k (load (range_values go m) []) ≡ get k m
  unfolding get
  get-load-range_values_empty go k m w = ground (arith, get-load-range_values go k m [] w)
