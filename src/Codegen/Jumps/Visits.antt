-- ===== src/Codegen/Jumps/Visits.antt =====
-- The blocks that the visits of expressions leave (CminusfBuilder::visit of the expressions).
use gvn.Prelude.{ℕ, Bool, true, List, [], ◌∷◌, ◌++◌}
use gvn.Prelude.Texts.{Text, text}
use gvn.Ast.Types.{
  Num, Expr, assign, simple, compare, Var, scalar, element, Additive, one_term, add, Term,
  one_factor, mul, Factor, paren, read, call, num, Exprs, no_exprs, expr,
}
use gvn.Ir.Types.{Ty, Tys, int32_ty}
use gvn.Ir.Opcodes.{CmpOp}
use gvn.Ir.Module.{Value}
use gvn.Codegen.Scope.{Scopes, find}
use gvn.Codegen.Builder.{type_of, called}
use gvn.Codegen.State.{current_fun}
use gvn.Codegen.Convert.{const_int, next_param}
use gvn.Codegen.Visit.{
  visit_num, create_zero_ret, create_default_ret, int_index, visit_scalar, check_index, element_ptr,
  visit_element, find_var, store_converted, visit_expr, visit_var, visit_additive, visit_term,
  visit_factor, visit_args,
}
use gvn.Codegen.Triple.{Triple, seq, chooses}
use gvn.Codegen.Calm.{
  IsOpen, IsEnded, Calm, calm_rules, then-Calm, gets-Calm, return-Calm, require-Calm, put_val-Calm,
  put_lvalue-Calm,
}
use gvn.Codegen.Calm.Creates.{
  create_icmp-Calm, create_zext-Calm, create_sitofp-Calm, create_fptosi-Calm, create_store-Calm,
  create_load-Calm, create_gep-Calm, create_call-Calm, promote-Calm, create_compare-Calm,
  create_add-Calm, create_mul-Calm, convert_arg-Calm,
}
use gvn.Codegen.Jumps.{
  create_ret-ends, create_void_ret-ends, create_cond_br-ends, create_block-IsOpen,
  set_insert_point-IsOpen, set_insert_point-second,
}

ruleset creates = (
  calm_rules, create_icmp-Calm, create_zext-Calm, create_sitofp-Calm, create_fptosi-Calm,
  create_store-Calm, create_load-Calm, create_gep-Calm, create_call-Calm, promote-Calm,
  create_compare-Calm, create_add-Calm, create_mul-Calm, convert_arg-Calm,
)

pub type_of-Calm : (v : Value) → Calm (type_of v)
type_of-Calm v = gets-Calm _

pub current_fun-Calm : Calm current_fun
current_fun-Calm = search calm_rules depth 12

module _ (fp_get : ℕ → ℕ) where
  visit_num-Calm : (n : Num) → Calm (visit_num fp_get n)
  unfolding visit_num
  visit_num-Calm n = put_val-Calm _

  create_zero_ret-ends :
      (t : Ty) {sc : Scopes} {e : Bool} {ps : List ℕ}
      → Triple (IsOpen sc e ps) (create_zero_ret fp_get t) λ _. IsEnded sc e ps
  unfolding create_zero_ret
  create_zero_ret-ends t = search (chooses, create_void_ret-ends, create_ret-ends)

  pub create_default_ret-ends :
      (sc : Scopes) (e : Bool) (ps : List ℕ)
      → Triple (IsOpen sc e ps) (create_default_ret fp_get) λ _. IsEnded sc e ps
  unfolding create_default_ret
  create_default_ret-ends sc e ps =
      seq (current_fun-Calm.calm sc e ps) λ f. create_zero_ret-ends f.return_ty

  int_index-Calm : (t : Ty) (v : Value) → Calm (int_index fp_get t v)
  unfolding int_index
  int_index-Calm t v = search creates depth 12

  visit_scalar-Calm : (b : Bool) (t : Ty) (v : Value) → Calm (visit_scalar fp_get b t v)
  unfolding visit_scalar
  visit_scalar-Calm b t v = search creates depth 12

  element_ptr-Calm : (t : Ty) (v w : Value) → Calm (element_ptr fp_get t v w)
  unfolding element_ptr
  element_ptr-Calm t v w = search creates depth 12

  check_index-Calm : (v : Value) → Calm (check_index fp_get v)
  unfolding check_index
  check_index-Calm v = record {
    calm = λ sc e ps. seq (create_block-IsOpen []) λ except. seq (create_block-IsOpen []) λ cont.
        seq ((type_of-Calm v).calm sc e _) λ t. seq ((int_index-Calm t v).calm sc e _) λ val.
          seq ((create_icmp-Calm CmpOp.lt val (const_int 0)).calm sc e _) λ is_neg.
            seq (create_cond_br-ends is_neg except cont) λ _.
              seq (set_insert_point-second except cont) λ _.
                seq ((gets-Calm λ s. s.scope).calm sc e _) λ inner.
                  seq ((require-Calm (find inner (text "neg_idx_except"))).calm sc e _) λ neg_fun.
                    seq ((create_call-Calm neg_fun []).calm sc e _) λ _.
                      seq (create_default_ret-ends sc e _)
                        λ _. seq (set_insert_point-IsOpen cont) λ _. (return-Calm val).calm sc e ps;
  }

  visit_element-Calm : (b : Bool) (t : Ty) (v : Value) → Calm (visit_element fp_get b t v)
  unfolding visit_element
  visit_element-Calm b t v = search (creates, check_index-Calm, element_ptr-Calm) depth 12

  find_var-Calm : (id : Text) → Calm (find_var fp_get id)
  unfolding find_var
  find_var-Calm id = search calm_rules depth 16

  store_converted-Calm : (v w : Value) → Calm (store_converted fp_get v w)
  unfolding store_converted
  store_converted-Calm v w = search creates depth 16

  -- An expression ends in a block that has no terminator.
  mutual
    unfolding visit_expr visit_var visit_additive visit_term visit_factor visit_args

    pub visit_expr-Calm : (x : Expr) → Calm (visit_expr fp_get x)
    visit_expr-Calm (assign v x) = then-Calm (visit_expr-Calm x) λ _.
        then-Calm (gets-Calm λ s. s.tmp_val) λ result. then-Calm (put_lvalue-Calm true) λ _.
          then-Calm (visit_var-Calm v)
            λ _. then-Calm (gets-Calm λ s. s.tmp_val) λ addr. store_converted-Calm result addr
    visit_expr-Calm (simple a) = visit_additive-Calm a
    visit_expr-Calm (compare l o r) = then-Calm (visit_additive-Calm l) λ _.
        then-Calm (gets-Calm λ s. s.tmp_val) λ l_val. then-Calm (visit_additive-Calm r) λ _.
          then-Calm (gets-Calm λ s. s.tmp_val) λ r_val. then-Calm (promote-Calm l_val r_val) λ p.
            then-Calm (create_compare-Calm o p)
              λ c. then-Calm (create_zext-Calm c int32_ty) λ v. put_val-Calm v

    visit_var-Calm : (v : Var) → Calm (visit_var fp_get v)
    visit_var-Calm (scalar id) = then-Calm (find_var-Calm id) λ p. visit_scalar-Calm p.0 p.1 p.2
    visit_var-Calm (element id x) =
        then-Calm (find_var-Calm id)
          λ p. then-Calm (visit_expr-Calm x) λ _. visit_element-Calm p.0 p.1 p.2

    visit_additive-Calm : (a : Additive) → Calm (visit_additive fp_get a)
    visit_additive-Calm (one_term t) = visit_term-Calm t
    visit_additive-Calm (add a o t) = then-Calm (visit_additive-Calm a) λ _.
        then-Calm (gets-Calm λ s. s.tmp_val) λ l_val. then-Calm (visit_term-Calm t) λ _.
          then-Calm (gets-Calm λ s. s.tmp_val) λ r_val.
            then-Calm (promote-Calm l_val r_val)
              λ p. then-Calm (create_add-Calm o p) λ v. put_val-Calm v

    visit_term-Calm : (t : Term) → Calm (visit_term fp_get t)
    visit_term-Calm (one_factor f) = visit_factor-Calm f
    visit_term-Calm (mul t o f) = then-Calm (visit_term-Calm t) λ _.
        then-Calm (gets-Calm λ s. s.tmp_val) λ l_val. then-Calm (visit_factor-Calm f) λ _.
          then-Calm (gets-Calm λ s. s.tmp_val) λ r_val.
            then-Calm (promote-Calm l_val r_val)
              λ p. then-Calm (create_mul-Calm o p) λ v. put_val-Calm v

    visit_factor-Calm : (f : Factor) → Calm (visit_factor fp_get f)
    visit_factor-Calm (paren x) = visit_expr-Calm x
    visit_factor-Calm (read v) = visit_var-Calm v
    visit_factor-Calm (call id xs) = then-Calm (gets-Calm λ s. s) λ s.
        then-Calm (require-Calm (find s.scope id)) λ callee.
          then-Calm (require-Calm (called s.ir_module callee)) λ f.
            then-Calm (visit_args-Calm xs f.params [])
              λ vs. then-Calm (create_call-Calm callee vs) λ v. put_val-Calm v
    visit_factor-Calm (num n) = visit_num-Calm n

    visit_args-Calm : (xs : Exprs) (ps : Tys) (vs : List Value) → Calm (visit_args fp_get ps xs vs)
    visit_args-Calm no_exprs ps vs = return-Calm vs
    visit_args-Calm (expr x xs) ps vs = then-Calm (visit_expr-Calm x) λ _.
        then-Calm (gets-Calm λ s. s.tmp_val) λ v.
          then-Calm (convert_arg-Calm ps v) λ v'.
            then-Calm (put_val-Calm v') λ _. visit_args-Calm xs (next_param ps) (vs ++ v' ∷ [])
