-- ===== src/GoMap/Keyed.antt =====
-- Maps whose values are stored under their own ids, and the writes of the handlers.
use nico_core_mock.GoMap.{GoMap, delete, get, put}
use nico_core_mock.GoMap.Laws.{get-delete, get-put}
use nico_core_mock.GoMap.Load.{IsKeyed, load}
use nico_core_mock.Prelude.{
  Bool-cases, List, Option, String, [], arith, empty_text, eq_iff, false, given, if◌then◌else◌, inl,
  inr, none, refl, some, value, ◌∷◌, ◌≡◌,
}

module _ {ℓ} {V : Type ℓ} {key : V → Option String} where
  pub IsKeyed-empty : IsKeyed key []
  unfolding get
  IsKeyed-empty = record { at = λ k v h. ground arith }

  pub IsKeyed-put :
      (k : String) (v : V) (m : GoMap V)
      → IsKeyed key m
      → key v ≡ some k
      → empty_text k ≡ false
      → IsKeyed key (put k v m)
  IsKeyed-put k v m w e h = record {
    at = λ j x p. ground (arith, get-put k j v m, w.at j x, eq_iff k j);
  }

  pub IsKeyed-delete : (k : String) (m : GoMap V) → IsKeyed key m → IsKeyed key (delete k m)
  IsKeyed-delete k m w = record { at = λ j x p. ground (arith, get-delete k j m, w.at j x) }

  pub IsKeyed-load : (xs : List V) (m : GoMap V) → IsKeyed key m → IsKeyed key (load key xs m)
  unfolding load
  IsKeyed-load [] m w = w
  IsKeyed-load (x ∷ xs) m w = IsKeyed-load xs _ (keyed_step (key x) refl)
    where
      keyed_step :
          (o : Option String) → key x ≡ o → IsKeyed key (if given o then put (value o) x m else m)
      keyed_step none e = w
      keyed_step (some k) e = elim (Bool-cases (empty_text k)) [
        | inl b ↦ rw b w
        | inr b ↦ rw b (IsKeyed-put k x m w e b)
      ]
