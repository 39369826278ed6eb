-- ===== src/Codegen/Scope.antt =====
-- The class Scope of include/cminusf_builder.hpp.
pub mod Laws
use gvn.Prelude.{ℕ, Bool, true, false, Option, none, some, List, [], ◌∷◌, is_eq}
use gvn.Prelude.{if◌then◌else◌, length, ◌==◌}
use gvn.Prelude.Texts.{Text, Text-discrete}
use gvn.Ir.Module.{Value}

-- A `std::map<std::string, Value *>`.
abbrev pub Bindings : Type 0
Bindings = List (Text × Value)

-- `inner`, the last map first.
abbrev pub Scopes : Type 0
Scopes = List Bindings

-- `std::map::find`.
unfoldable pub find_binding : Bindings → Text → Option Value
find_binding [] name = none
find_binding (b ∷ bs) name = if is_eq Text-discrete b.0 name then some b.1 else find_binding bs name

unfoldable pub in_global : Scopes → Bool
in_global inner = length inner == 1

-- `std::map::insert` keeps a binding that is there; there is no map to insert into where no scope
-- was entered.
unfoldable pub push : Scopes → Text → Value → Option (Bool × Scopes)
push [] name val = none
push (bs ∷ inner) name val = elim (find_binding bs name) [
  | none ↦ some (true, ((name, val) ∷ bs) ∷ inner)
  | some v ↦ some (false, bs ∷ inner)
]

-- The innermost binding of the name; `none` is nullptr.
unfoldable pub find : Scopes → Text → Option Value
find [] name = none
find (bs ∷ inner) name = elim (find_binding bs name) [ some v ↦ some v | none ↦ find inner name ]
