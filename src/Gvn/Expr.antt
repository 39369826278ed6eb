-- ===== src/Gvn/Expr.antt =====
-- GVNExpression: value expressions and their comparison (include/optimization/GVN.h, the
-- operators == at the end of src/optimization/GVN.cpp).
pub mod Equality
use gvn.Prelude.{ℕ, zero, suc, Bool, true, false, not, ◌||◌, ◌&&◌, is_eq, ℕ_discrete}
use gvn.Prelude.Texts.{Text, Text-discrete}
use gvn.Ir.Types.{Ty, is_eq_type, Ty-discrete}
use gvn.Ir.Opcodes.{OpId, CmpOp, OpId-discrete, CmpOp-discrete}
use gvn.Ir.Constants.{Constant, Constant-discrete}

-- A `std::shared_ptr<Expression>`; `null` is nullptr. The address of the object does not show, but
-- for a value phi, which has one of its own (Phi in Class). A function is its address.
mutual
  pub data Expr : Type 0 where
    null : Expr
    constant : Constant → Expr
    bin : OpId → Expr → Expr → Expr
    phi : Expr → Expr → Expr
    var : Text → Expr
    cmp : CmpOp → Expr → Expr → Expr
    fcmp : CmpOp → Expr → Expr → Expr
    call : ℕ → Args → Expr
    gep : Ty → Args → Expr
    only : OpId → Expr → Expr

  pub data Args : Type 0 where
    no_args : Args
    arg : Expr → Args → Args

abbrev pub is_null : Expr → Bool
is_null null = true
is_null _ = false

-- `*lhs == *rhs` on expressions, with `equiv` of each class. The arguments of calls and
-- getelementptrs are compared as pointers, where two null pointers are equal. Other null
-- pointers inside an expression, which the comparison would dereference, are equal here.
unfoldable mutual
  pub expr_eq : Expr → Expr → Bool
  expr_eq null null = true
  expr_eq (constant c) (constant d) = is_eq Constant-discrete c d
  expr_eq (bin o a b) (bin p c d) = is_eq OpId-discrete o p && expr_eq a c && expr_eq b d
  expr_eq (phi a b) (phi c d) = expr_eq a c && expr_eq b d
  expr_eq (var s) (var t) = is_eq Text-discrete s t
  expr_eq (cmp o a b) (cmp p c d) = is_eq CmpOp-discrete o p && expr_eq a c && expr_eq b d
  expr_eq (fcmp o a b) (fcmp p c d) = is_eq CmpOp-discrete o p && expr_eq a c && expr_eq b d
  expr_eq (call f as') (call g bs) = is_eq ℕ_discrete f g && args_eq as' bs
  expr_eq (gep t as') (gep u bs) = is_eq Ty-discrete t u && args_eq as' bs
  expr_eq (only o a) (only p b) = is_eq OpId-discrete o p && expr_eq a b
  expr_eq _ _ = false

  pub args_eq : Args → Args → Bool
  args_eq no_args no_args = true
  args_eq (arg a as') (arg b bs) =
      (is_null a && is_null b || not (is_null a) && not (is_null b) && expr_eq a b)
      && args_eq as' bs
  args_eq _ _ = false

-- operator== on shared pointers: both null, or neither and equal.
unfoldable pub ptr_eq : Expr → Expr → Bool
ptr_eq a b = is_null a && is_null b || not (is_null a) && not (is_null b) && expr_eq a b
