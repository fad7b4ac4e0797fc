-- ===== src/Prelude/Lists.antt =====
-- Tests, options and lists of texts.
use Prim.Native.Nat.{ℕ, suc, compare, Ordering}
use Prim.Native.String.{String}
use mathlib.Core.Path.{◌≡◌, refl}
use mathlib.Core.Logic.{◌≢◌, ◌⊎◌, inl, inr}
use mathlib.Core.Bool.{Bool, true, false, not, ◌||◌}
use mathlib.Core.Option.{Option, none, some}
use mathlib.Core.List.{List, [], ◌∷◌}
use native.Mathlib.Omega.{arith}
use text.Mathlib.Text.{◌==◌}
use text.Mathlib.TextEquality.{eq_iff}

infix 1 if◌then◌else◌
abbrev pub if◌then◌else◌ {ℓ} : {A : Type ℓ} → Bool → A → A → A
if true then x else y = x
if false then x else y = y

abbrev pub ltb : ℕ → ℕ → Bool
ltb a b = elim (compare a b) [ Ordering.lt ↦ true | _ ↦ false ]

abbrev pub nat_eq : ℕ → ℕ → Bool
nat_eq a b = elim (compare a b) [ Ordering.eq ↦ true | _ ↦ false ]

pub Bool-cases : (b : Bool) → (b ≡ true) ⊎ (b ≡ false)
Bool-cases true = inl refl
Bool-cases false = inr refl

-- `a == b` on texts that are known to be different.
pub eq_false : (a b : String) → a ≢ b → (a == b) ≡ false
eq_false a b h = ground (arith, eq_iff a b)

module _ {ℓ} {A : Type ℓ} where
  pub Option-cases : (o : Option A) → (o ≡ none) ⊎ ((a : A) × (o ≡ some a))
  Option-cases none = inl refl
  Option-cases (some a) = inr (a, refl)

  abbrev pub is_some : Option A → Bool
  is_some none = false
  is_some (some a) = true

  abbrev pub length : List A → ℕ
  length [] = 0
  length (x ∷ xs) = suc (length xs)

  -- `a`, unless it is nil.
  abbrev pub or_else : Option A → Option A → Option A
  or_else none b = b
  or_else (some a) b = some a

  -- A field that an update request sets only where it is not nil.
  abbrev pub updated : Option A → A → A
  updated none old = old
  updated (some new) old = new

-- A message that wraps one text, as `*VpcId`: nil is `none`. This is the generated getter
-- `GetValue`, which is "" on nil.
abbrev pub value : Option String → String
value none = ""
value (some x) = x

abbrev pub empty_text : String → Bool
empty_text x = x == ""

-- `id != nil && id.Value != ""`.
abbrev pub given : Option String → Bool
given none = false
given (some x) = not (empty_text x)

unfoldable pub contains : String → List String → Bool
contains k [] = false
contains k (x ∷ xs) = x == k || contains k xs

unfoldable pub count : String → List String → ℕ
count k [] = 0
count k (x ∷ xs) = let rest = count k xs in if x == k then suc rest else rest

unfoldable pub without : String → List String → List String
without k [] = []
without k (x ∷ xs) = let rest = without k xs in if x == k then rest else x ∷ rest

pub count-without :
    (k j : String) (xs : List String) → count j (without k xs) ≡ (if k == j then 0 else count j xs)
unfolding count without
count-without k j [] = ground arith
count-without k j (x ∷ xs) =
    ground (arith, count-without k j xs, eq_iff x k, eq_iff x j, eq_iff k j)

-- A text is in a list exactly where its count is not 0.
pub contains-count : (k : String) (xs : List String) → contains k xs ≡ ltb 0 (count k xs)
unfolding contains count
contains-count k [] = refl
contains-count k (x ∷ xs) = ground (arith, contains-count k xs)
