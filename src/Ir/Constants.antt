-- ===== src/Ir/Constants.antt =====
-- Constants (include/lightir/Constant.h, src/lightir/Constant.cpp) and the `float` arithmetic of
-- the C++ implementation, which is a parameter.
use gvn.Prelude.{ℕ, Bool, ℕ_discrete, Result}
use gvn.Prelude.Integers.{ℤ, ℤ_discrete}
use gvn.Ir.Types.{Ty, Ty-discrete, integer, float_ty, void_ty}

-- A `Constant *`. ConstantInt::get and ConstantZero::get keep one object for each content, so an
-- address is its content here: `int_const w v` is a ConstantInt of type `iw`. `fp_const a` is the
-- ConstantFP object `a`, as ConstantFP::get keeps one object for all floats that are `==` (a NaN,
-- of which it makes a new object each time, is left out). `null_const` is nullptr.
pub data Constant : Type 0 where
  int_const : ℕ → ℤ → Constant
  fp_const : ℕ → Constant
  zero_const : Ty → Constant
  null_const : Constant

unfoldable pub Constant-discrete : Discrete Constant
Constant-discrete = hlevel (ℕ_discrete, ℤ_discrete, Ty-discrete)

abbrev pub constant_ty : Constant → Ty
constant_ty (int_const w v) = integer w
constant_ty (fp_const b) = float_ty
constant_ty (zero_const t) = t
constant_ty null_const = void_ty

-- The `float` operations that the constant folder calls, from the ConstantFP objects of the
-- operands to that of the result: the operators, the comparisons `==`, `<` and `<=`, the conversion
-- from `int`, and the conversion to `int`, which is undefined where the value does not fit.
pub record FloatOps : Type 0 where
  pub fp_add : ℕ → ℕ → ℕ
  pub fp_sub : ℕ → ℕ → ℕ
  pub fp_mul : ℕ → ℕ → ℕ
  pub fp_div : ℕ → ℕ → ℕ
  pub fp_eq : ℕ → ℕ → Bool
  pub fp_lt : ℕ → ℕ → Bool
  pub fp_le : ℕ → ℕ → Bool
  pub of_int : ℤ → ℕ
  pub to_int : ℕ → Result ℤ
