-- ===== src/Ir/Module.antt =====
-- The objects of a module and the lists that join them: Value, User, Instruction, BasicBlock,
-- Function and Module of include/lightir. An address is a number, and the module maps addresses to
-- objects, names and use lists.
use gvn.Prelude.{ℕ, Bool, true, false, ◌&&◌, Option, none, some, List, []}
use gvn.Prelude.{◌==◌, is_eq, length, ℕ_discrete}
use gvn.Prelude.Texts.{Text}
use gvn.Ir.Types.{Ty, Tys, function_ty, label_ty, pointer, is_void_type}
use gvn.Ir.Opcodes.{OpId, CmpOp, OpId-discrete}
use gvn.Ir.Constants.{Constant, Constant-discrete, constant_ty}

-- A `Value *`: a constant, or the address of any other object.
pub data Value : Type 0 where
  constant : Constant → Value
  object : ℕ → Value

unfoldable pub Value-discrete : Discrete Value
Value-discrete = hlevel (ℕ_discrete, Constant-discrete)

-- An entry of a use list: the instruction that uses the value, and as which operand.
pub record Use : Type 0 where
  pub val : ℕ
  pub arg_no : ℕ

-- An instruction of any class. `cmp_op` is read of CmpInst and FCmpInst only; `own_ty` is
-- `element_ty_` of a GetElementPtrInst, `alloca_ty_` of an AllocaInst and `dest_ty_` of a cast;
-- `l_val` is read of PhiInst only.
pub record Instr : Type 0 where
  pub op_id : OpId
  pub ty : Ty
  pub operands : List Value
  pub parent : ℕ
  pub cmp_op : CmpOp
  pub own_ty : Ty
  pub l_val : Value

pub record Block : Type 0 where
  pub parent : ℕ
  pub instr_list : List ℕ
  pub pre_bbs : List ℕ
  pub succ_bbs : List ℕ

pub record Func : Type 0 where
  pub return_ty : Ty
  pub params : Tys
  pub arguments : List ℕ
  pub basic_blocks : List ℕ

-- What stands at an address.
pub data Object : Type 0 where
  instr : Instr → Object
  block : Block → Object
  func : Func → Object
  argument : Ty → Object
  global : Ty → Object

-- `use_list` is kept for objects; no code reads the use list of a constant.
pub record Module : Type 0 where
  pub at : ℕ → Object
  pub name : ℕ → Text
  pub use_list : ℕ → List Use
  pub function_list : List ℕ
  pub global_list : List ℕ

-- dynamic_cast<Instruction *> and its kin.
abbrev pub as_instr : Object → Option Instr
as_instr (instr i) = some i
as_instr _ = none

abbrev pub as_block : Object → Option Block
as_block (block b) = some b
as_block _ = none

abbrev pub as_func : Object → Option Func
as_func (func f) = some f
as_func _ = none

abbrev pub as_constant : Value → Option Constant
as_constant (constant c) = some c
as_constant (object a) = none

abbrev pub is_constant : Value → Bool
is_constant (constant c) = true
is_constant (object a) = false

abbrev pub object_ty : Object → Ty
object_ty (instr i) = i.ty
object_ty (block b) = label_ty
object_ty (func f) = function_ty f.return_ty f.params
object_ty (argument t) = t
object_ty (global t) = pointer t

abbrev pub get_type : Module → Value → Ty
get_type m (constant c) = constant_ty c
get_type m (object a) = object_ty (m.at a)

-- Value::get_name; a constant has the empty name.
abbrev pub get_name : Module → Value → Text
get_name m (constant c) = []
get_name m (object a) = m.name a

-- The lists of a block and of a function; an address of another kind has none.
abbrev pub instrs_of : Object → List ℕ
instrs_of (block b) = b.instr_list
instrs_of _ = []

abbrev pub operands_of : Object → List Value
operands_of (instr i) = i.operands
operands_of _ = []

abbrev pub blocks_of : Object → List ℕ
blocks_of (func f) = f.basic_blocks
blocks_of _ = []

abbrev pub args_of : Object → List ℕ
args_of (func f) = f.arguments
args_of _ = []

abbrev pub pres_of : Object → List ℕ
pres_of (block b) = b.pre_bbs
pres_of _ = []

abbrev pub succs_of : Object → List ℕ
succs_of (block b) = b.succ_bbs
succs_of _ = []

abbrev pub parent_of : Object → ℕ
parent_of (instr i) = i.parent
parent_of (block b) = b.parent
parent_of _ = 0

abbrev pub op_eq : OpId → OpId → Bool
op_eq a b = is_eq OpId-discrete a b

unfoldable pub value_eq : Value → Value → Bool
value_eq a b = is_eq Value-discrete a b

-- Instruction::is_void.
unfoldable pub is_void : Instr → Bool
is_void i = elim i.op_id [
  | OpId.ret ↦ true
  | OpId.br ↦ true
  | OpId.store ↦ true
  | OpId.call ↦ is_void_type i.ty
  | _ ↦ false
]

-- is_add, ..., is_fdiv of Instruction::isBinary.
abbrev pub is_arithmetic : OpId → Bool
is_arithmetic OpId.add = true
is_arithmetic OpId.sub = true
is_arithmetic OpId.mul = true
is_arithmetic OpId.sdiv = true
is_arithmetic OpId.fadd = true
is_arithmetic OpId.fsub = true
is_arithmetic OpId.fmul = true
is_arithmetic OpId.fdiv = true
is_arithmetic _ = false

-- Instruction::isBinary.
unfoldable pub is_binary : Instr → Bool
is_binary i = is_arithmetic i.op_id && length i.operands == 2

-- Instruction::get_function: the parent of the parent.
unfoldable pub get_function : Module → Instr → ℕ
get_function m i = parent_of (m.at i.parent)
