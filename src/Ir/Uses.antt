-- ===== src/Ir/Uses.antt =====
-- The operations that keep operands and use lists (src/lightir/User.cpp, src/lightir/Value.cpp).
pub mod Replaced
pub mod All
pub mod Traced
pub mod Moved
use gvn.Prelude.{
  ℕ, Bool, true, false, not, List, [], ◌∷◌, ◌++◌, if◌then◌else◌, ltb, length, set, update, Result,
  ok, fault, no_element, ◌>>=◌,
}
use gvn.Ir.Module.{Module, Value, constant, object, Use, Object, instr, operands_of}

-- Value::add_use.
unfoldable pub add_use : Module → Value → ℕ → ℕ → Module
add_use m (constant c) user n = m
add_use m (object a) user n = record m {
  use_list = update m.use_list a (m.use_list a ++ record { val = user; arg_no = n } ∷ []);
}

-- `operands_[n] = v`.
unfoldable pub write_operand : Object → ℕ → Value → Object
write_operand (instr i) n v = instr (record i { operands = set i.operands n v })
write_operand o n v = o

-- User::set_operand. The use list of the operand that stood there is left as it is.
unfoldable pub set_operand : Module → ℕ → ℕ → Value → Result Module
set_operand m user n v =
    if ltb n (length (operands_of (m.at user)))
    then ok (add_use (record m { at = update m.at user (write_operand (m.at user) n v) }) v user n)
    else fault no_element

-- The loop of Value::replace_use_with_when over the use list `us`: the module, and the uses that
-- are left. The value is not replaced by itself, so nothing is appended to `us` meanwhile.
unfoldable pub replace_uses : Module → Value → (ℕ → Bool) → List Use → Result (Module × List Use)
replace_uses m new pred [] = ok (m, [])
replace_uses m new pred (u ∷ us) =
    if pred u.val
    then (set_operand m u.val u.arg_no new >>= λ m'. replace_uses m' new pred us)
    else (replace_uses m new pred us >>= λ r. ok (r.0, u ∷ r.1))

-- Value::replace_use_with_when of the object `a`.
unfoldable pub replace_use_with_when : Module → ℕ → Value → (ℕ → Bool) → Result Module
replace_use_with_when m a new pred = replace_uses m new pred (m.use_list a) >>= λ r.
    ok (record r.0 { use_list = update r.0.use_list a r.1 })

-- The loop of Value::replace_all_use_with.
unfoldable pub replace_all : Module → Value → List Use → Result Module
replace_all m new [] = ok m
replace_all m new (u ∷ us) = set_operand m u.val u.arg_no new >>= λ m'. replace_all m' new us

-- Value::replace_all_use_with of the object `a`, by another value.
unfoldable pub replace_all_use_with : Module → ℕ → Value → Result Module
replace_all_use_with m a new =
    replace_all m new (m.use_list a) >>= λ m'. ok (record m' { use_list = update m'.use_list a [] })
