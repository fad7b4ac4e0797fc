-- ===== src/GoMap/Each.antt =====
-- Maps all of whose values have a property.
use mathlib.Core.Option.{some-injective}
use nico_core_mock.GoMap.{GoMap, delete, get, put}
use nico_core_mock.GoMap.Laws.{get-delete, get-put}
use nico_core_mock.Prelude.{
  Bool-cases, String, [], ap, arith, if◌then◌else◌, inl, inr, some, subst, sym, ◌==◌, ◌∙◌, ◌≡◌,
}

module _ {ℓ κ} {V : Type ℓ} (P : V → Type κ) where
  pub record Each (m : GoMap V) : Type (ℓ ⊔ κ) where
    pub at : (k : String) (v : V) → get k m ≡ some v → P v

  pub Each-empty : Each []
  unfolding get
  Each-empty = record { at = λ k v h. ground arith }

  pub Each-put : (k : String) (v : V) (m : GoMap V) → P v → Each m → Each (put k v m)
  Each-put k v m p w = record {
    at = λ j x h. elim (Bool-cases (k == j)) [
      | inl same ↦
          subst P
            (some-injective v x
              (sym (ap (λ b. if b then some v else get j m) same) ∙ sym (get-put k j v m) ∙ h))
            p
      | inr other ↦
          w.at j x (sym (ap (λ b. if b then some v else get j m) other) ∙ sym (get-put k j v m) ∙ h)
    ];
  }

  pub Each-delete : (k : String) (m : GoMap V) → Each m → Each (delete k m)
  Each-delete k m w = record { at = λ j x h. w.at j x (ground (arith, get-delete k j m)) }
