-- ===== src/Codegen/Visit.antt =====
-- The visits of expressions (CminusfBuilder::visit).
use gvn.Prelude.{ℕ, Bool, true, false, ◌||◌, List, [], ◌∷◌, ◌++◌, if◌then◌else◌}
use gvn.Prelude.Texts.{Text, text}
use gvn.Ast.Types.{
  Num, int_num, float_num, Expr, assign, simple, compare, Var, scalar, element, Additive, one_term,
  add, Term, one_factor, mul, Factor, paren, read, call, num, Exprs, no_exprs, expr,
}
use gvn.Ir.Types.{
  Ty, Tys, float_ty, int32_ty, is_eq_type, is_void_type, is_integer_type, is_float_type,
  is_pointer_type,
}
use gvn.Ir.Opcodes.{CmpOp}
use gvn.Ir.Constants.{fp_const}
use gvn.Ir.Module.{Value, constant}
use gvn.Codegen.Scope.{find}
use gvn.Codegen.State.{
  Build, ◌>>=◌, ◌>>◌, return, require, gets, put_val, put_lvalue, set_insert_point, current_fun,
}
use gvn.Codegen.Builder.{
  type_of, get_pointer_element_type, called, create_icmp, create_zext, create_sitofp, create_fptosi,
  create_store, create_load, create_gep, create_call, create_cond_br, create_ret, create_void_ret,
  create_block,
}
use gvn.Codegen.Convert.{
  promote, const_int, create_compare, create_add, create_mul, next_param, points_to, convert_arg,
}

-- ConstantFP::get, from the bits of a `float` to the object that stands for it, is a parameter.
module _ (fp_get : ℕ → ℕ) where
  abbrev pub const_fp : ℕ → Value
  const_fp b = constant (fp_const (fp_get b))

  abbrev pub num_value : Num → Value
  num_value (int_num n) = const_int n
  num_value (float_num b) = const_fp b

  -- visit(ASTNum)
  unfoldable pub visit_num : Num → Build Unit
  visit_num n = put_val (num_value n)

  -- The return of a zero of the function's return type.
  unfoldable pub create_zero_ret : Ty → Build Value
  create_zero_ret ty =
      if is_void_type ty
      then create_void_ret
      else if is_float_type ty
      then create_ret (const_fp 0)
      else create_ret (const_int 0)

  unfoldable pub create_default_ret : Build Value
  create_default_ret = do f ← current_fun; create_zero_ret f.return_ty

  -- visit(ASTVar) without an index.
  unfoldable pub visit_scalar : Bool → Ty → Value → Build Unit
  visit_scalar lvalue el var =
      if lvalue
      then put_val var >> put_lvalue false
      else if is_integer_type el || is_float_type el || is_pointer_type el
      then create_load var >>= put_val
      else create_gep var (const_int 0 ∷ const_int 0 ∷ []) >>= put_val

  unfoldable pub int_index : Ty → Value → Build Value
  int_index t val = if is_float_type t then create_fptosi val int32_ty else return val

  -- The block that leaves with an error where the index is negative, and the block that goes on.
  unfoldable pub check_index : Value → Build Value
  check_index val = do
    except ← create_block []
    cont ← create_block []
    t ← type_of val
    val' ← int_index t val
    is_neg ← create_icmp CmpOp.lt val' (const_int 0)
    create_cond_br is_neg except cont
    set_insert_point except
    s ← gets (λ s. s.scope)
    neg_fun ← require (find s (text "neg_idx_except"))
    create_call neg_fun []
    create_default_ret
    set_insert_point cont
    return val'

  -- The address of an element.
  unfoldable pub element_ptr : Ty → Value → Value → Build Value
  element_ptr el var val =
      if is_integer_type el || is_float_type el
      then create_gep var (val ∷ [])
      else if is_pointer_type el
      then (create_load var >>= λ p. create_gep p (val ∷ []))
      else create_gep var (const_int 0 ∷ val ∷ [])

  unfoldable pub visit_element : Bool → Ty → Value → Build Unit
  visit_element lvalue el var = do
    v ← gets (λ s. s.tmp_val)
    val ← check_index v
    ptr ← element_ptr el var val
    if lvalue then put_val ptr >> put_lvalue false else create_load ptr >>= put_val

  -- The head of visit(ASTVar): the variable, the type it points to, and whether its address is
  -- asked for.
  unfoldable pub find_var : Text → Build (Bool × Ty × Value)
  find_var id = do
    s ← gets (λ s. s.scope)
    var ← require (find s id)
    t ← type_of var
    el ← require (get_pointer_element_type t)
    lvalue ← gets (λ s. s.require_lvalue)
    put_lvalue false
    return (lvalue, el, var)

  -- The end of visit(ASTAssignExpression): a conversion, where the types differ, and the store.
  unfoldable pub store_converted : Value → Value → Build Unit
  store_converted result addr = do
    at ← type_of addr
    rt ← type_of result
    result' ←
        (if points_to (get_pointer_element_type at) rt
          then return result
          else if is_eq_type rt int32_ty
          then create_sitofp result float_ty
          else create_fptosi result int32_ty)
    create_store result' addr
    put_val result'

  unfoldable mutual
    pub visit_expr : Expr → Build Unit
    visit_expr (assign var e) = do
      visit_expr e
      result ← gets (λ s. s.tmp_val)
      put_lvalue true
      visit_var var
      addr ← gets (λ s. s.tmp_val)
      store_converted result addr
    visit_expr (simple a) = visit_additive a
    visit_expr (compare l o r) = do
      visit_additive l
      l_val ← gets (λ s. s.tmp_val)
      visit_additive r
      r_val ← gets (λ s. s.tmp_val)
      p ← promote l_val r_val
      c ← create_compare o p
      v ← create_zext c int32_ty
      put_val v

    pub visit_var : Var → Build Unit
    visit_var (scalar id) = find_var id >>= λ p. visit_scalar p.0 p.1 p.2
    visit_var (element id e) = do p ← find_var id; visit_expr e; visit_element p.0 p.1 p.2

    pub visit_additive : Additive → Build Unit
    visit_additive (one_term t) = visit_term t
    visit_additive (add a o t) = do
      visit_additive a
      l_val ← gets (λ s. s.tmp_val)
      visit_term t
      r_val ← gets (λ s. s.tmp_val)
      p ← promote l_val r_val
      v ← create_add o p
      put_val v

    pub visit_term : Term → Build Unit
    visit_term (one_factor f) = visit_factor f
    visit_term (mul t o f) = do
      visit_term t
      l_val ← gets (λ s. s.tmp_val)
      visit_factor f
      r_val ← gets (λ s. s.tmp_val)
      p ← promote l_val r_val
      v ← create_mul o p
      put_val v

    pub visit_factor : Factor → Build Unit
    visit_factor (paren e) = visit_expr e
    visit_factor (read v) = visit_var v
    visit_factor (call id args) = do
      s ← gets (λ s. s)
      callee ← require (find s.scope id)
      f ← require (called s.ir_module callee)
      vs ← visit_args f.params args []
      v ← create_call callee vs
      put_val v
    visit_factor (num n) = visit_num n

    -- The loop of visit(ASTCall), with the arguments so far.
    pub visit_args : Tys → Exprs → List Value → Build (List Value)
    visit_args ps no_exprs vs = return vs
    visit_args ps (expr e es) vs = do
      visit_expr e
      v ← gets (λ s. s.tmp_val)
      v' ← convert_arg ps v
      put_val v'
      visit_args (next_param ps) es (vs ++ v' ∷ [])
