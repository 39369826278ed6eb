-- ===== src/Gvn/Fold.antt =====
-- ConstFolder::compute (src/optimization/GVN.cpp). What C++ leaves undefined is a fault: a read
-- through the null pointer of a failed dynamic_cast, a signed result that does not fit an `int`,
-- and a division by zero.
pub mod Laws
use gvn.Prelude.{
  ℕ, Bool, true, false, if◌then◌else◌, Result, ok, fault, null_access, overflow, division_by_zero,
  ◌>>=◌, not,
}
use gvn.Prelude.Integers.{ℤ, pos, negsuc, ◌+ℤ◌, ◌-ℤ◌, ◌*ℤ◌, ◌/ℤ◌, ltb_ℤ, leb_ℤ, eqb_ℤ, fits_int}
use gvn.Ir.Opcodes.{OpId, CmpOp, eq, ne, gt, ge, lt, le}
use gvn.Ir.Constants.{Constant, int_const, fp_const, zero_const, null_const, FloatOps}

-- get_const_int_value, get_const_fp_value.
unfoldable pub get_const_int_value : Constant → Result ℤ
get_const_int_value (int_const w v) = ok v
get_const_int_value _ = fault null_access

unfoldable pub get_const_fp_value : Constant → Result ℕ
get_const_fp_value (fp_const b) = ok b
get_const_fp_value _ = fault null_access

-- ConstantInt::get(int), of a result that must fit.
abbrev pub get_int : ℤ → Result Constant
get_int v = if fits_int v then ok (int_const 32 v) else fault overflow

-- ConstantInt::get(bool).
abbrev pub get_bool : Bool → Constant
get_bool b = int_const 1 (if b then pos 1 else pos 0)

-- The `/` of `int`.
abbrev pub divide : ℤ → ℤ → Result Constant
divide a b = if eqb_ℤ b (pos 0) then fault division_by_zero else get_int (a /ℤ b)

unfoldable pub int_arith : OpId → ℤ → ℤ → Result Constant
int_arith OpId.add a b = get_int (a +ℤ b)
int_arith OpId.sub a b = get_int (a -ℤ b)
int_arith OpId.mul a b = get_int (a *ℤ b)
int_arith OpId.sdiv a b = divide a b
int_arith _ a b = ok null_const

-- The comparisons of two `int`s.
unfoldable pub int_compare : CmpOp → ℤ → ℤ → Bool
int_compare eq a b = eqb_ℤ a b
int_compare ne a b = not (eqb_ℤ a b)
int_compare gt a b = ltb_ℤ b a
int_compare ge a b = leb_ℤ b a
int_compare lt a b = ltb_ℤ a b
int_compare le a b = leb_ℤ a b

module _ (fl : FloatOps) where
  open fl use {fp_add, fp_sub, fp_mul, fp_div, fp_eq, fp_lt, fp_le, of_int, to_int}

  unfoldable pub fp_arith : OpId → ℕ → ℕ → Constant
  fp_arith OpId.fadd a b = fp_const (fp_add a b)
  fp_arith OpId.fsub a b = fp_const (fp_sub a b)
  fp_arith OpId.fmul a b = fp_const (fp_mul a b)
  fp_arith OpId.fdiv a b = fp_const (fp_div a b)
  fp_arith _ a b = null_const

  -- The comparisons of two `float`s; `a > b` is `b < a`.
  unfoldable pub fp_compare : CmpOp → ℕ → ℕ → Bool
  fp_compare eq a b = fp_eq a b
  fp_compare ne a b = not (fp_eq a b)
  fp_compare gt a b = fp_lt b a
  fp_compare ge a b = fp_le b a
  fp_compare lt a b = fp_lt a b
  fp_compare le a b = fp_le a b

  abbrev pub on_ints : Constant → Constant → (ℤ → ℤ → Result Constant) → Result Constant
  on_ints v w f = do a ← get_const_int_value v; b ← get_const_int_value w; f a b

  abbrev pub on_fps : Constant → Constant → (ℕ → ℕ → Result Constant) → Result Constant
  on_fps v w f = do a ← get_const_fp_value v; b ← get_const_fp_value w; f a b

  -- compute(OpID, Constant *, Constant *).
  unfoldable pub compute_op : OpId → Constant → Constant → Result Constant
  compute_op OpId.add v w = on_ints v w (int_arith OpId.add)
  compute_op OpId.sub v w = on_ints v w (int_arith OpId.sub)
  compute_op OpId.mul v w = on_ints v w (int_arith OpId.mul)
  compute_op OpId.sdiv v w = on_ints v w (int_arith OpId.sdiv)
  compute_op OpId.fadd v w = on_fps v w (λ a b. ok (fp_arith OpId.fadd a b))
  compute_op OpId.fsub v w = on_fps v w (λ a b. ok (fp_arith OpId.fsub a b))
  compute_op OpId.fmul v w = on_fps v w (λ a b. ok (fp_arith OpId.fmul a b))
  compute_op OpId.fdiv v w = on_fps v w (λ a b. ok (fp_arith OpId.fdiv a b))
  compute_op _ v w = ok null_const

  -- compute(Instruction *, Constant *, Constant *), of an instruction with this opcode and, for
  -- `cmp` and `fcmp`, this comparison.
  unfoldable pub compute_instr : OpId → CmpOp → Constant → Constant → Result Constant
  compute_instr OpId.cmp c v w = on_ints v w (λ a b. ok (get_bool (int_compare c a b)))
  compute_instr OpId.fcmp c v w = on_fps v w (λ a b. ok (get_bool (fp_compare c a b)))
  compute_instr OpId.add c v w = on_ints v w (int_arith OpId.add)
  compute_instr OpId.sub c v w = on_ints v w (int_arith OpId.sub)
  compute_instr OpId.mul c v w = on_ints v w (int_arith OpId.mul)
  compute_instr OpId.sdiv c v w = on_ints v w (int_arith OpId.sdiv)
  compute_instr OpId.fadd c v w = on_fps v w (λ a b. ok (fp_arith OpId.fadd a b))
  compute_instr OpId.fsub c v w = on_fps v w (λ a b. ok (fp_arith OpId.fsub a b))
  compute_instr OpId.fmul c v w = on_fps v w (λ a b. ok (fp_arith OpId.fmul a b))
  compute_instr OpId.fdiv c v w = on_fps v w (λ a b. ok (fp_arith OpId.fdiv a b))
  compute_instr _ c v w = ok null_const

  -- compute(Instruction *, Constant *).
  unfoldable pub compute_unary : OpId → Constant → Result Constant
  compute_unary OpId.sitofp v = get_const_int_value v >>= λ a. ok (fp_const (of_int a))
  compute_unary OpId.fptosi v = get_const_fp_value v >>= λ b. to_int b >>= λ a. get_int a
  compute_unary OpId.zext v = get_const_int_value v >>= λ a. get_int a
  compute_unary _ v = ok null_const
