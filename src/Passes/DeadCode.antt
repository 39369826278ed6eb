-- ===== src/Passes/DeadCode.antt =====
-- DeadCode: mark what is useful, sweep the rest (include/optimization/DeadCode.h), with the use
-- lists that the sweep maintains (User::remove_use_of_ops, Value::remove_use).
pub mod Marking
pub mod Sweeping
pub mod Uses
use gvn.Prelude.{
  ℕ, zero, suc, ◌+◌, Bool, true, false, not, ◌||◌, ◌&&◌, Option, none, some, List, [], ◌∷◌, ◌++◌,
  if◌then◌else◌, ◌==◌, update, contains, keep, length, Result, ok, fault, no_element, out_of_fuel,
  ◌>>=◌,
}
use gvn.Ir.Opcodes.{OpId}
use gvn.Ir.Module.{
  Module, Value, constant, object, Instr, Use, Object, Block, instr, block, as_instr, as_func,
  as_block, operands_of, instrs_of, blocks_of, get_function, parent_of,
}
use gvn.Passes.Worklist.{Search, loop}
use gvn.Passes.FuncInfo.{operand, run}

-- The callee as is_critical reads it: `at` of FuncInfo throws on a null or unknown function.
unfoldable pub callee_is_pure : Module → (ℕ → Bool) → Value → Result Bool
callee_is_pure m is_pure (constant c) = fault no_element
callee_is_pure m is_pure (object a) =
    if contains m.function_list a then ok (is_pure a) else fault no_element

unfoldable pub is_critical : Module → (ℕ → Bool) → Instr → Result Bool
is_critical m is_pure i = elim i.op_id [
  | OpId.call ↦ operand i 0 >>= λ v. callee_is_pure m is_pure v >>= λ p. ok (not p)
  | OpId.br ↦ ok true
  | OpId.ret ↦ ok true
  | OpId.store ↦ ok true
  | _ ↦ ok false
]

abbrev pub object_critical : Module → (ℕ → Bool) → Object → Result Bool
object_critical m is_pure o = elim (as_instr o) [
  | none ↦ ok false
  | some i ↦ is_critical m is_pure i
]

-- The instructions of a function in the order of its blocks.
unfoldable pub block_instrs : Module → List ℕ → List ℕ
block_instrs m [] = []
block_instrs m (b ∷ bs) = instrs_of (m.at b) ++ block_instrs m bs

abbrev pub instrs : Module → ℕ → List ℕ
instrs m f = block_instrs m (blocks_of (m.at f))

-- The first loop of mark(Function *).
unfoldable pub mark_critical : Module → (ℕ → Bool) → List ℕ → Search → Result Search
mark_critical m is_pure [] s = ok s
mark_critical m is_pure (a ∷ as') s = object_critical m is_pure (m.at a) >>= λ c.
    mark_critical m is_pure as'
      (if c then record { flag = update s.flag a true; work = s.work ++ a ∷ [] } else s)

-- The definitions that mark(Instruction *) visits: operands that are instructions of the function.
unfoldable pub operand_defs : Module → ℕ → List Value → List ℕ
operand_defs m f [] = []
operand_defs m f (constant c ∷ vs) = operand_defs m f vs
operand_defs m f (object d ∷ vs) =
    let rest = operand_defs m f vs in
    elim (as_instr (m.at d)) [
      | none ↦ rest
      | some i ↦ if get_function m i == f then d ∷ rest else rest
    ]

unfoldable pub defs : Module → ℕ → List ℕ
defs m a = elim (as_instr (m.at a)) [
  | none ↦ []
  | some i ↦ operand_defs m (get_function m i) i.operands
]

abbrev pub final_marks : Option Search → Result (ℕ → Bool)
final_marks none = fault out_of_fuel
final_marks (some t) = ok t.flag

-- mark(Function *): the queue starts with at most all instructions and gains each at most once.
unfoldable pub mark : Module → (ℕ → Bool) → ℕ → Result (ℕ → Bool)
mark m is_pure f =
    mark_critical m is_pure (instrs m f) (record { flag = λ _. false; work = [] }) >>= λ s.
    final_marks (loop true (defs m) (length (instrs m f) + length (instrs m f)) s)

-- Value::remove_use.
unfoldable pub remove_use : Module → Value → ℕ → Module
remove_use m (constant c) user = m
remove_use m (object a) user = record m {
  use_list = update m.use_list a (keep (λ u. not (u.val == user)) (m.use_list a));
}

-- User::remove_use_of_ops.
unfoldable pub remove_uses : Module → List Value → ℕ → Module
remove_uses m [] user = m
remove_uses m (v ∷ vs) user = remove_uses (remove_use m v user) vs user

unfoldable pub remove_use_of_ops : Module → ℕ → Module
remove_use_of_ops m a = remove_uses m (operands_of (m.at a)) a

unfoldable pub remove_all_uses : Module → List ℕ → Module
remove_all_uses m [] = m
remove_all_uses m (a ∷ as') = remove_all_uses (remove_use_of_ops m a) as'

-- `get_parent()->get_instructions().erase(inst)`; the object itself stays at its address.
unfoldable pub erase_from : ℕ → Object → Object
erase_from a (block b) = block (record b { instr_list = keep (λ v. not (v == a)) b.instr_list })
erase_from a o = o

unfoldable pub unlink : Module → Object → ℕ → Module
unlink m (instr i) a = record m { at = update m.at i.parent (erase_from a (m.at i.parent)) }
unlink m _ a = m

unfoldable pub erase : Module → ℕ → Module
erase m a = unlink m (m.at a) a

unfoldable pub erase_all : Module → List ℕ → Module
erase_all m [] = m
erase_all m (a ∷ as') = erase_all (erase m a) as'

-- The instructions that sweep deletes.
abbrev pub wait_del : Module → (ℕ → Bool) → ℕ → List ℕ
wait_del m marked f = keep (λ v. not (marked v)) (instrs m f)

-- sweep: the module, and how many instructions were deleted.
unfoldable pub sweep : Module → (ℕ → Bool) → ℕ → Module × ℕ
sweep m marked f = (
  erase_all (remove_all_uses m (wait_del m marked f)) (wait_del m marked f),
  length (wait_del m marked f),
)

-- A round over the functions: `ins_count` goes up by what was deleted, and the round has changed
-- the module if anything was.
unfoldable pub round : Module → (ℕ → Bool) → List ℕ → ℕ → Result (Module × ℕ)
round m is_pure [] n = ok (m, n)
round m is_pure (f ∷ fs) n =
    mark m is_pure f >>= λ marked. let (m', k) = sweep m marked f in round m' is_pure fs (n + k)

-- The `do ... while (changed)` loop, with the count of the deleted instructions.
unfoldable pub rounds : ℕ → Module → (ℕ → Bool) → ℕ → Result (Module × ℕ)
rounds zero m is_pure n = fault out_of_fuel
rounds (suc fuel) m is_pure n = round m is_pure m.function_list 0 >>= λ (m', k).
    if k == 0 then ok (m', n) else rounds fuel m' is_pure (n + k)

-- How many instructions the functions hold.
unfoldable pub total : Module → List ℕ → ℕ
total m [] = 0
total m (f ∷ fs) = length (instrs m f) + total m fs

-- DeadCode::run: the purity of the functions is found once, and every round but the last deletes
-- an instruction.
unfoldable pub run_dead_code : ℕ → Module → (ℕ → Bool) → Result (Module × ℕ)
run_dead_code fuel m is_pure =
    run fuel m is_pure >>= λ flags. rounds (suc (total m m.function_list)) m flags 0
