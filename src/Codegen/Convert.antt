-- ===== src/Codegen/Convert.antt =====
-- The conversions of operands and arguments, and the switches of the visits of expressions
-- (src/cminusfc/cminusf_builder.cpp).
use gvn.Prelude.{ℕ, Bool, false, Option, none, some, if◌then◌else◌, no_element}
use gvn.Prelude.Integers.{pos}
use gvn.Ast.Types.{
  CminusType, type_int, RelOp, op_le, op_lt, op_gt, op_ge, op_eq, op_neq, AddOp, op_plus, op_minus,
  MulOp, op_mul, op_div,
}
use gvn.Ir.Types.{
  Ty, Tys, none_left, param, float_ty, int32_ty, is_eq_type, is_integer_type, is_pointer_type,
}
use gvn.Ir.Opcodes.{OpId, CmpOp}
use gvn.Ir.Constants.{int_const}
use gvn.Ir.Module.{Value, constant}
use gvn.Codegen.State.{Build, ◌>>=◌, return, fail}
use gvn.Codegen.Builder.{
  type_of, create_binary, create_icmp, create_fcmp, create_sitofp, create_fptosi,
}

abbrev pub is_int : Value → Build Bool
is_int v = do t ← type_of v; return (is_integer_type t)

-- `promote`: whether both are integers, and the two values, converted where their types differ.
unfoldable pub promote : Value → Value → Build (Bool × Value × Value)
promote l r = do
  lt ← type_of l
  rt ← type_of r
  if is_eq_type lt rt
      then return (is_integer_type lt, l, r)
      else if is_integer_type lt
      then (create_sitofp l float_ty >>= λ l'. return (false, l', r))
      else (create_sitofp r float_ty >>= λ r'. return (false, l, r'))

-- CONST_INT.
abbrev pub const_int : ℕ → Value
const_int n = constant (int_const 32 (pos n))

abbrev pub var_ty : CminusType → Ty
var_ty type_int = int32_ty
var_ty _ = float_ty

abbrev pub cmp_of : RelOp → CmpOp
cmp_of op_lt = CmpOp.lt
cmp_of op_le = CmpOp.le
cmp_of op_ge = CmpOp.ge
cmp_of op_gt = CmpOp.gt
cmp_of op_eq = CmpOp.eq
cmp_of op_neq = CmpOp.ne

-- The switches of the visits of ASTSimpleExpression, ASTAdditiveExpression and ASTTerm.
unfoldable pub create_compare : RelOp → Bool × Value × Value → Build Value
create_compare o p = if p.0 then create_icmp (cmp_of o) p.1 p.2 else create_fcmp (cmp_of o) p.1 p.2

abbrev pub int_or_float : OpId → OpId → Bool × Value × Value → Build Value
int_or_float i f p =
    if p.0 then create_binary i int32_ty p.1 p.2 else create_binary f float_ty p.1 p.2

unfoldable pub create_add : AddOp → Bool × Value × Value → Build Value
create_add op_plus p = int_or_float OpId.add OpId.fadd p
create_add op_minus p = int_or_float OpId.sub OpId.fsub p

unfoldable pub create_mul : MulOp → Bool × Value × Value → Build Value
create_mul op_mul p = int_or_float OpId.mul OpId.fmul p
create_mul op_div p = int_or_float OpId.sdiv OpId.fdiv p

abbrev pub convert_to : Tys → Ty → Value → Build Value
convert_to none_left t v = fail no_element
convert_to (param p ps) t v =
    if is_eq_type p t
    then return v
    else if is_integer_type t
    then create_sitofp v float_ty
    else create_fptosi v int32_ty

abbrev pub next_param : Tys → Tys
next_param none_left = none_left
next_param (param p ps) = ps

-- Whether an element type, which nullptr is not, is this type.
abbrev pub points_to : Option Ty → Ty → Bool
points_to none t = false
points_to (some el) t = is_eq_type el t

-- An argument is converted where it is no pointer and its type is not the parameter's; to read a
-- parameter past the last is undefined.
abbrev pub convert_arg : Tys → Value → Build Value
convert_arg ps v = do t ← type_of v; if is_pointer_type t then return v else convert_to ps t v
