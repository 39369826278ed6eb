-- ===== src/Codegen/Builder.antt =====
-- The operations of the IRBuilder (include/lightir/IRBuilder.h) and the constructors that they call
-- (src/lightir/Instruction.cpp). An instruction goes to the end of the insertion point's block.
use gvn.Prelude.{
  ℕ, zero, suc, ◌+◌, ◌-◌, ok, Bool, true, false, not, ◌||◌, Option, none, some, List, [], ◌∷◌, ◌==◌,
  ltb, length, if◌then◌else◌, no_element,
}
use gvn.Prelude.Texts.{Text}
use gvn.Ir.Types.{
  Ty, Tys, void_ty, pointer, array, int1_ty, is_integer_type, is_float_type, is_array_type,
}
use gvn.Ir.Opcodes.{OpId, CmpOp}
use gvn.Ir.Constants.{null_const}
use gvn.Ir.Module.{
  Module, Value, constant, object, Object, instr, Func, as_func, as_block, get_type, instrs_of,
}
use gvn.Codegen.State.{Build, ◌>>=◌, ◌>>◌, return, fail, require, check, gets}
use gvn.Codegen.Create.{
  insert_instr, add_pred, add_next, insert_block_at, insert_func, insert_global, count_args,
}

abbrev pub has {ℓ} : {A : Type ℓ} → Option A → Bool
has none = false
has (some x) = true

-- A `Value *` as a `Function *`.
abbrev pub called : Module → Value → Option Func
called m (constant c) = none
called m (object a) = as_func (m.at a)

abbrev pub type_of : Value → Build Ty
type_of v = gets λ s. get_type s.ir_module v

-- Type::get_pointer_element_type; `none` is nullptr.
unfoldable pub get_pointer_element_type : Ty → Option Ty
get_pointer_element_type (pointer t) = some t
get_pointer_element_type _ = none

-- The constructors of Instruction and of its subclass, at the end of the block `bb`.
unfoldable pub create_in : ℕ → OpId → Ty → List Value → CmpOp → Ty → Build Value
create_in bb op ty vs cmp own s = ok (
  object s.next,
  record s {
    ir_module = insert_instr s.ir_module s.next (record {
      op_id = op;
      ty = ty;
      operands = vs;
      parent = bb;
      cmp_op = cmp;
      own_ty = own;
      l_val = constant null_const;
    });
    next = suc s.next;
  },
)

-- `BB_`, through which every constructor writes.
abbrev pub get_insert_block : Build ℕ
get_insert_block = gets (λ s. s.insert_block) >>= require

unfoldable pub create : OpId → Ty → List Value → CmpOp → Ty → Build Value
create op ty vs cmp own = get_insert_block >>= λ bb. create_in bb op ty vs cmp own

-- create_iadd, create_isub, create_imul, create_isdiv, create_fadd, create_fsub, create_fmul and
-- create_fdiv.
unfoldable pub create_binary : OpId → Ty → Value → Value → Build Value
create_binary op ty l r = create op ty (l ∷ r ∷ []) CmpOp.eq void_ty

unfoldable pub create_icmp : CmpOp → Value → Value → Build Value
create_icmp c l r = create OpId.cmp int1_ty (l ∷ r ∷ []) c void_ty

unfoldable pub create_fcmp : CmpOp → Value → Value → Build Value
create_fcmp c l r = create OpId.fcmp int1_ty (l ∷ r ∷ []) c void_ty

unfoldable pub create_zext : Value → Ty → Build Value
create_zext v ty = create OpId.zext ty (v ∷ []) CmpOp.eq ty

unfoldable pub create_sitofp : Value → Ty → Build Value
create_sitofp v ty = create OpId.sitofp ty (v ∷ []) CmpOp.eq ty

unfoldable pub create_fptosi : Value → Ty → Build Value
create_fptosi v ty = create OpId.fptosi ty (v ∷ []) CmpOp.eq ty

unfoldable pub create_alloca : Ty → Build Value
create_alloca ty = create OpId.alloca (pointer ty) [] CmpOp.eq ty

unfoldable pub create_store : Value → Value → Build Value
create_store v ptr = create OpId.store void_ty (v ∷ ptr ∷ []) CmpOp.eq void_ty

-- The assertion that `ptr` is a pointer.
unfoldable pub create_load : Value → Build Value
create_load ptr = do
  t ← type_of ptr
  el ← require (get_pointer_element_type t)
  create OpId.load el (ptr ∷ []) CmpOp.eq void_ty

-- The loop of GetElementPtrInst::get_element_type over the indices after the first, `k` in number:
-- `arr` is `arr_ty` and `ty` is `ty`.
unfoldable pub index_type : Ty → Ty → ℕ → Build Ty
index_type arr ty zero = return ty
index_type (array t n) ty (suc k) =
    check (not (ltb 0 k) || is_array_type t)
    >> index_type (if is_array_type t then t else array t n) t k
index_type arr ty (suc k) = fail no_element

-- GetElementPtrInst::get_element_type, with its assertion.
unfoldable pub get_element_type : Value → List Value → Build Ty
get_element_type ptr idxs = do
  t ← type_of ptr
  el ← require (get_pointer_element_type t)
  check (is_array_type el || is_integer_type el || is_float_type el)
  if is_array_type el then index_type el el (length idxs - 1) else return el

unfoldable pub create_gep : Value → List Value → Build Value
create_gep ptr idxs = do
  el ← get_element_type ptr idxs
  create OpId.getelementptr (pointer el) (ptr ∷ idxs) CmpOp.eq el

-- The callee must be a function, and its type must have as many parameters as there are arguments.
unfoldable pub create_call : Value → List Value → Build Value
create_call callee args = do
  f ← gets (λ s. called s.ir_module callee) >>= require
  check (count_args f.params == length args)
  create OpId.call f.return_ty (callee ∷ args) CmpOp.eq void_ty

-- A `BasicBlock *`, as the target of a branch is.
unfoldable pub target : ℕ → Build Unit
target q = do m ← gets (λ s. s.ir_module); b ← require (as_block (m.at q)); return tt

-- BranchInst::create_br and BranchInst::create_cond_br list the edges first.
unfoldable pub add_edges : (Module → ℕ → Module) → Build Unit
add_edges f = do bb ← get_insert_block; λ s. ok (tt, record s { ir_module = f s.ir_module bb })

unfoldable pub create_br : ℕ → Build Value
create_br q = do
  target q
  add_edges λ m bb. add_next (add_pred m bb q) bb q
  create OpId.br void_ty (object q ∷ []) CmpOp.eq void_ty

unfoldable pub create_cond_br : Value → ℕ → ℕ → Build Value
create_cond_br cond t f = do
  target t
  target f
  add_edges λ m bb. add_next (add_next (add_pred (add_pred m bb t) bb f) bb f) bb t
  create OpId.br void_ty (cond ∷ object t ∷ object f ∷ []) CmpOp.eq void_ty

unfoldable pub create_ret : Value → Build Value
create_ret v = create OpId.ret void_ty (v ∷ []) CmpOp.eq void_ty

unfoldable pub create_void_ret : Build Value
create_void_ret = create OpId.ret void_ty [] CmpOp.eq void_ty

-- BasicBlock::create in `cur_fun`.
unfoldable pub create_block : Text → Build ℕ
create_block name = do
  f ← gets (λ s. s.cur_fun) >>= require
  λ s. ok (
    s.next,
    record s { ir_module = insert_block_at s.ir_module s.next name f; next = suc s.next },
  )

unfoldable pub create_function : Ty → Tys → Text → Build ℕ
create_function ret ts name s = ok (
  s.next,
  record s {
    ir_module = insert_func s.ir_module s.next ret ts name;
    next = suc s.next + count_args ts;
  },
)

unfoldable pub create_global : Ty → Text → Build Value
create_global ty name s = ok (
  object s.next,
  record s { ir_module = insert_global s.ir_module s.next ty name; next = suc s.next },
)

-- BasicBlock::get_terminator: the last instruction, if it returns or branches.
abbrev pub last : List ℕ → Option ℕ
last [] = none
last (i ∷ []) = some i
last (i ∷ j ∷ is) = last (j ∷ is)

abbrev pub ends : OpId → Bool
ends OpId.ret = true
ends OpId.br = true
ends _ = false

abbrev pub is_terminator : Object → Bool
is_terminator (instr i) = ends i.op_id
is_terminator _ = false

abbrev pub terminator_of : Module → Option ℕ → Option ℕ
terminator_of m none = none
terminator_of m (some i) = if is_terminator (m.at i) then some i else none

unfoldable pub get_terminator : Module → ℕ → Option ℕ
get_terminator m b = terminator_of m (last (instrs_of (m.at b)))

-- `builder->get_insert_block()->get_terminator() != nullptr`
unfoldable pub is_ended : Build Bool
is_ended = do bb ← get_insert_block; gets λ s. has (get_terminator s.ir_module bb)
