-- ===== src/Passes/FuncInfo.antt =====
-- FuncInfo: which functions are pure (include/optimization/FuncInfo.h).
pub mod Purity
use gvn.Prelude.{
  ℕ, zero, suc, Bool, true, false, not, ◌||◌, ◌&&◌, Option, none, some, List, [], ◌∷◌, ◌++◌,
  if◌then◌else◌, get_elem?, update, contains, is_eq, length, Result, ok, fault, no_element,
  out_of_fuel, ◌>>=◌,
}
use gvn.Prelude.Texts.{Text-discrete, text}
use gvn.Ir.Types.{Tys, none_left, param, is_integer_type, is_float_type, is_pointer_type}
use gvn.Ir.Opcodes.{OpId}
use gvn.Ir.Module.{
  Module, Value, constant, object, Instr, Use, Object, Func, as_instr, as_func, get_type, instrs_of,
  blocks_of, get_function,
}
use gvn.Passes.Worklist.{Search, loop}

-- `operands_[i]`, undefined out of range.
abbrev pub operand : Instr → ℕ → Result Value
operand i n = elim (get_elem? i.operands n) [ none ↦ fault no_element | some v ↦ ok v ]

-- The first operand of pointer type.
unfoldable pub first_pointer : Module → List Value → Option Value
first_pointer m [] = none
first_pointer m (v ∷ vs) = if is_pointer_type (get_type m v) then some v else first_pointer m vs

-- The operand at which get_first_addr goes on, or `none` where it returns its argument.
unfoldable pub addr_next : Module → Value → Result (Option Value)
addr_next m (constant c) = ok none
addr_next m (object a) = elim (as_instr (m.at a)) [
  | none ↦ ok none
  | some i ↦ elim i.op_id [
    | OpId.alloca ↦ ok none
    | OpId.getelementptr ↦ operand i 0 >>= λ v. ok (some v)
    | OpId.load ↦ ok none
    | _ ↦ ok (first_pointer m i.operands)
  ]
]

-- The recursion takes fuel.
unfoldable pub get_first_addr : ℕ → Module → Value → Result Value
get_first_addr zero m v = fault out_of_fuel
get_first_addr (suc fuel) m v =
    addr_next m v >>= λ o. elim o [ none ↦ ok v | some w ↦ get_first_addr fuel m w ]

-- `addr and addr->is_alloca()`
unfoldable pub is_alloca_addr : Module → Value → Bool
is_alloca_addr m (constant c) = false
is_alloca_addr m (object a) = elim (as_instr (m.at a)) [
  | none ↦ false
  | some i ↦ elim i.op_id [ OpId.alloca ↦ true | _ ↦ false ]
]

-- is_local_load at operand 0, is_local_store at operand 1.
unfoldable pub is_local : ℕ → Module → Instr → ℕ → Result Bool
is_local fuel m i n = do v ← operand i n; addr ← get_first_addr fuel m v; ok (is_alloca_addr m addr)

unfoldable pub is_side_effect_inst : ℕ → Module → Instr → Result Bool
is_side_effect_inst fuel m i = elim i.op_id [
  | OpId.store ↦ is_local fuel m i 1 >>= λ b. ok (not b)
  | OpId.load ↦ is_local fuel m i 0 >>= λ b. ok (not b)
  | _ ↦ ok false
]

-- An address that holds no instruction has no effect.
unfoldable pub object_effect : ℕ → Module → Object → Result Bool
object_effect fuel m o = elim (as_instr o) [
  | none ↦ ok false
  | some i ↦ is_side_effect_inst fuel m i
]

-- The loop over the instructions of a block, and over the blocks; both stop at the first effect.
unfoldable pub block_effect : ℕ → Module → List ℕ → Result Bool
block_effect fuel m [] = ok false
block_effect fuel m (a ∷ as') = object_effect fuel m (m.at a) >>= λ b. elim b [
  | true ↦ ok true
  | false ↦ block_effect fuel m as'
]

unfoldable pub body_effect : ℕ → Module → List ℕ → Result Bool
body_effect fuel m [] = ok false
body_effect fuel m (b ∷ bs) = block_effect fuel m (instrs_of (m.at b)) >>= λ e. elim e [
  | true ↦ ok true
  | false ↦ body_effect fuel m bs
]

-- Every parameter is an integer or a float.
unfoldable pub plain_params : Tys → Bool
plain_params none_left = true
plain_params (param t ts) = (is_integer_type t || is_float_type t) && plain_params ts

abbrev pub is_empty : List ℕ → Bool
is_empty [] = true
is_empty (x ∷ xs) = false

abbrev pub params_of : Object → Tys
params_of (Object.func f) = f.params
params_of _ = none_left

-- What trivial_mark writes to `is_pure[func]`.
unfoldable pub trivial_mark : ℕ → Module → ℕ → Result Bool
trivial_mark fuel m f =
    if is_empty (blocks_of (m.at f)) || is_eq Text-discrete (m.name f) (text "main")
    then ok false
    else if not (plain_params (params_of (m.at f)))
    then ok false
    else body_effect fuel m (blocks_of (m.at f)) >>= λ e. ok (not e)

-- The first loop of run.
unfoldable pub mark_all : ℕ → Module → List ℕ → Search → Result Search
mark_all fuel m [] s = ok s
mark_all fuel m (f ∷ fs) s = trivial_mark fuel m f >>= λ p.
    mark_all fuel m fs
      (record { flag = update s.flag f p; work = if p then s.work else s.work ++ f ∷ [] })

-- The functions that process visits: those of the instructions in the use list.
unfoldable pub users : Module → List Use → List ℕ
users m [] = []
users m (u ∷ us) = elim (as_instr (m.at u.val)) [
  | none ↦ users m us
  | some i ↦ get_function m i ∷ users m us
]

unfoldable pub callers : Module → ℕ → List ℕ
callers m f = users m (m.use_list f)

-- The map at the end of the second loop.
abbrev pub final_flags : Option Search → Result (ℕ → Bool)
final_flags none = fault out_of_fuel
final_flags (some t) = ok t.flag

-- FuncInfo::run, from the map `is_pure` that the object holds. `process` clears the flag of a pure
-- caller and queues it, so the mark is `false`.
unfoldable pub run : ℕ → Module → (ℕ → Bool) → Result (ℕ → Bool)
run fuel m is_pure = mark_all fuel m m.function_list (record { flag = is_pure; work = [] }) >>= λ s.
    final_flags (loop false (callers m) (length m.function_list) s)
