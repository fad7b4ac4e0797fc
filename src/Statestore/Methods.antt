-- ===== src/Statestore/Methods.antt =====
-- internal/statestore/methods.go: which gRPC methods are followed by a save.
use Prim.Native.Char.{Char, code}
use Prim.Native.String.{◌++◌ as append}
use text.Mathlib.Text.{starts_with}
use text.Mathlib.TextLemmas.{nil-append, cons-append}
use nico_core_mock.Prelude.{
  Bool, List, Option, String, [], ap, false, if◌then◌else◌, nat_eq, none, not, some, ◌==◌, ◌||◌,
  ◌∙◌, ◌∷◌, ◌≡◌,
}
use nico_core_mock.Rpc.Method.{full_method}

abbrev pub read_only_prefixes : List String
read_only_prefixes = "Find" ∷ "Get" ∷ "List" ∷ "Search" ∷ "Version" ∷ "Describe" ∷ []

-- What follows the last slash, if there is one.
unfoldable pub after_last_slash : String → Option String
after_last_slash String.[] = none
after_last_slash (String.◌∷◌ c s) =
    let rest = after_last_slash s in
    elim rest [ some r ↦ some r | none ↦ if nat_eq (code c) b'/' then some s else none ]

unfoldable pub method_base_name : String → String
unfolding after_last_slash
method_base_name full_method = elim (after_last_slash full_method) [
  | some name ↦ name
  | none ↦ full_method
]

unfoldable pub has_read_only_prefix : List String → String → Bool
has_read_only_prefix [] name = false
has_read_only_prefix (p ∷ ps) name = starts_with name p || has_read_only_prefix ps name

-- `FindInstancesByIds` is read-only by its prefix and still changes the state.
unfoldable pub is_mutating_name : String → Bool
unfolding has_read_only_prefix
is_mutating_name name =
    name == "FindInstancesByIds" || not (has_read_only_prefix read_only_prefixes name)

unfoldable pub is_mutating_method : String → Bool
unfolding method_base_name is_mutating_name
is_mutating_method full_method = is_mutating_name (method_base_name full_method)

abbrev slash : Char
slash = "/"

slash-append : (name : String) → append "/" name ≡ String.◌∷◌ slash name
slash-append name = cons-append slash "" name ∙ ap (String.◌∷◌ slash) (nil-append name)

after_last_slash-append :
    (service name : String)
    → after_last_slash name ≡ none
    → after_last_slash (append service (append "/" name)) ≡ some name
unfolding after_last_slash
after_last_slash-append String.[] name h =
    rw (nil-append (append "/" name)) (rw (slash-append name) (rw (h, after_last_slash)))
after_last_slash-append (String.◌∷◌ c s) name h =
    rw (cons-append c s (append "/" name)) (rw (after_last_slash-append s name h, after_last_slash))

method_base_name-append :
    (service name : String)
    → after_last_slash name ≡ none
    → method_base_name (append service (append "/" name)) ≡ name
unfolding method_base_name
method_base_name-append service name h =
    rw (after_last_slash-append service name h, method_base_name)

-- The service in front of the name plays no part.
pub is_mutating_method-append :
    (service name : String)
    → after_last_slash name ≡ none
    → is_mutating_method (append service (append "/" name)) ≡ is_mutating_name name
unfolding is_mutating_method
is_mutating_method-append service name h =
    ap is_mutating_name (method_base_name-append service name h)
