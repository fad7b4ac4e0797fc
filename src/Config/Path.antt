-- ===== src/Config/Path.antt =====
-- dirOf, isAbs, joinPath and strPtr of internal/config/config.go.
use Prim.Native.Char.{code}
use Prim.Native.String.{◌++◌ as append, [] as no_text, ◌∷◌ as cons}
use nico_core_mock.Prelude.{
  Bool, Option, String, empty_text, false, if◌then◌else◌, nat_eq, none, some, ◌==◌, ◌||◌,
}

-- The text before the last slash, if there is one.
unfoldable pub before_last_slash : String → Option String
before_last_slash no_text = none
before_last_slash (cons c s) =
    let rest = before_last_slash s in
    elim rest [ some p ↦ some (cons c p) | none ↦ if nat_eq (code c) 47 then some "" else none ]

unfoldable pub dir_of : String → String
unfolding before_last_slash
dir_of path = elim (before_last_slash path) [ none ↦ "." | some dir ↦ dir ]

unfoldable pub is_abs : String → Bool
is_abs no_text = false
is_abs (cons c s) = nat_eq (code c) 47

unfoldable pub join_path : String → String → String
join_path base rel = if base == "." || empty_text base then rel else append base (append "/" rel)

-- `strPtr`, and a field that is set where the text is not empty.
abbrev pub str_ptr : String → Option String
str_ptr v = if empty_text v then none else some v
