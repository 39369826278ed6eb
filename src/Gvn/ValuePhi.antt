-- ===== src/Gvn/ValuePhi.antt =====
-- GVN::valuePhiFunc and GVN::getVN (src/optimization/GVN.cpp).
pub mod Depth
use gvn.Prelude.{
  ℕ, zero, suc, ◌+◌, Bool, true, false, not, ◌&&◌, ◌||◌, Option, none, some, List, [], ◌∷◌,
  if◌then◌else◌, Result, ok, fault, no_element, null_access, out_of_fuel, ◌>>=◌,
}
use gvn.Ir.Opcodes.{OpId}
use gvn.Ir.Constants.{FloatOps}
use gvn.Ir.Module.{Module, pres_of}
use gvn.Gvn.Fold.{compute_op}
use gvn.Gvn.Expr.{Expr, null, constant, bin, phi, is_null, expr_eq}
use gvn.Gvn.Class.{CongruenceClass, Partitions, Phi, phi_expr}

-- getVN: the value expression of the first class that has this one.
unfoldable pub get_vn : Partitions → Expr → Expr
get_vn [] ve = null
get_vn (c ∷ cs) ve =
    if not (is_null c.value_expr) && expr_eq c.value_expr ve then c.value_expr else get_vn cs ve

abbrev pub is_nil : Partitions → Bool
is_nil [] = true
is_nil (c ∷ cs) = false

-- `list::front` and `list::back`, undefined on an empty list.
abbrev pub front : List ℕ → Result ℕ
front [] = fault no_element
front (b ∷ bs) = ok b

unfoldable pub back : List ℕ → Result ℕ
back [] = fault no_element
back (b ∷ []) = ok b
back (b ∷ c ∷ bs) = back (c ∷ bs)

-- A binary expression over two phis: the operator, and the left and right sides of both.
pub record OverPhis : Type 0 where
  pub op : OpId
  pub lhs_left : Expr
  pub lhs_right : Expr
  pub rhs_left : Expr
  pub rhs_right : Expr

unfoldable pub over_phis : Expr → Option OverPhis
over_phis (bin o (phi a b) (phi c d)) =
    some (record { op = o; lhs_left = a; lhs_right = b; rhs_left = c; rhs_right = d })
over_phis _ = none

-- The returned phi: an object of its own, where both sides were found.
unfoldable pub make_phi : Expr → Expr → ℕ → Option Phi × ℕ
make_phi vi vj n =
    if is_null vi || is_null vj
    then (none, n)
    else (some (record { addr = n; lhs = vi; rhs = vj }), n + 1)

module _ (fl : FloatOps) (m : Module) (pout : ℕ → Partitions) where
  -- The operator on one side: folded where both operands are constants. The tests for a constant
  -- access the left operand, and then, if it is one, the right.
  unfoldable pub side : OpId → Expr → Expr → Result Expr
  side o (constant c) (constant d) = compute_op fl o c d >>= λ r. ok (constant r)
  side o null b = fault null_access
  side o (constant c) null = fault null_access
  side o a b = ok (bin o a b)

  -- A side is looked up at the end of the predecessor, and computed there if it is not found.
  abbrev pub look_up :
      (Expr → Partitions → ℕ → ℕ → Result (Option Phi × ℕ)) → Expr → ℕ → ℕ → Result (Expr × ℕ)
  look_up again v b n = elim (is_null (get_vn (pout b) v)) [
    | true ↦ again v (pout b) b n >>= λ r. ok (phi_expr r.0, r.1)
    | false ↦ ok (get_vn (pout b) v, n)
  ]

  abbrev pub both_sides :
      (Expr → Partitions → ℕ → ℕ → Result (Option Phi × ℕ))
      → OverPhis
      → ℕ
      → ℕ
      → Result (Option Phi × ℕ)
  both_sides again e bb n = do
    v1 ← side e.op e.lhs_left e.rhs_left
    v2 ← side e.op e.lhs_right e.rhs_right
    b1 ← front (pres_of (m.at bb))
    i ← look_up again v1 b1 n
    b2 ← back (pres_of (m.at bb))
    j ← look_up again v2 b2 i.1
    ok (make_phi i.0 j.0 j.1)

  -- valuePhiFunc in the block `now_bb`, with the address of the next PhiExpression; the recursion
  -- takes fuel.
  unfoldable pub value_phi_func : ℕ → Expr → Partitions → ℕ → ℕ → Result (Option Phi × ℕ)
  value_phi_func zero ve p bb n = fault out_of_fuel
  value_phi_func (suc fuel) ve p bb n =
      let again = value_phi_func fuel in
      if is_null ve || is_nil p
      then ok (none, n)
      else elim (over_phis ve) [ none ↦ ok (none, n) | some e ↦ both_sides again e bb n ]
