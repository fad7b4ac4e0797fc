-- ===== src/GoMap/Laws.antt =====
-- The laws of lookup, assignment, deletion and iteration, in the form that decides on the keys.
use nico_core_mock.GoMap.{GoMap, Runtime, delete, get, has, keys, put, range_keys}
use nico_core_mock.Prelude.{
  String, [], arith, contains, contains-count, count, count-without, eq_iff, eq_refl, if◌then◌else◌,
  none, refl, some, ◌==◌, ◌∷◌, ◌≡◌,
}

module _ {ℓ} {V : Type ℓ} where
  pub get-delete :
      (k j : String) (m : GoMap V) → get j (delete k m) ≡ (if k == j then none else get j m)
  unfolding get delete
  get-delete k j [] = ground arith
  get-delete k j ((i, v) ∷ m) = ground (arith, get-delete k j m, eq_iff i k, eq_iff i j, eq_iff k j)

  pub get-put :
      (k j : String) (v : V) (m : GoMap V)
      → get j (put k v m) ≡ (if k == j then some v else get j m)
  unfolding get put
  get-put k j v m = ground (arith, get-delete k j m)

  pub get-put_same : (k : String) (v : V) (m : GoMap V) → get k (put k v m) ≡ some v
  get-put_same k v m = ground (arith, get-put k k v m, eq_refl k)

  pub get-empty : (k : String) → get k (let m : GoMap V = [] in m) ≡ none
  unfolding get
  get-empty k = refl

  -- Each key of the map is counted once, and no other text.
  pub count-keys : (k : String) (m : GoMap V) → count k (keys m) ≡ (if has k m then 1 else 0)
  unfolding count keys get
  count-keys k [] = refl
  count-keys k ((j, v) ∷ m) = ground (arith, count-keys k m, count-without j k (keys m), eq_iff j k)

  pub count-range_keys :
      (go : Runtime) (k : String) (m : GoMap V)
      → count k (range_keys go m) ≡ (if has k m then 1 else 0)
  unfolding range_keys
  count-range_keys go k m = ground (arith, go.visit-count k (keys m), count-keys k m)

  pub contains-range_keys :
      (go : Runtime) (k : String) (m : GoMap V) → contains k (range_keys go m) ≡ has k m
  contains-range_keys go k m =
      ground (arith, contains-count k (range_keys go m), count-range_keys go k m)

pub ruleset map_laws = (get-delete, get-put, get-empty)
