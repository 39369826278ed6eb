-- ===== src/Codegen/Statement.antt =====
-- The visits of declarations of variables and of statements (CminusfBuilder::visit).
use gvn.Prelude.{ℕ, Bool, false, not, Option, none, some, List, [], ◌∷◌, if◌then◌else◌, no_element}
use gvn.Prelude.Texts.{Text}
use gvn.Ast.Types.{
  CminusType, Num, int_num, float_num, VarDeclaration, Stmt, compound, expression_stmt, empty_stmt,
  selection, selection_else, iteration, return_void, return_stmt, Stmts, no_stmts, stmt,
}
use gvn.Ir.Types.{Ty, float_ty, array, int32_ty, is_eq_type, is_integer_type}
use gvn.Ir.Opcodes.{CmpOp}
use gvn.Ir.Module.{Value}
use gvn.Codegen.Scope.{in_global}
use gvn.Codegen.State.{
  Build, ◌>>=◌, ◌>>◌, return, fail, gets, put_val, put_pre_enter, set_insert_point, enter_scope,
  exit_scope, push_scope, current_fun,
}
use gvn.Codegen.Builder.{
  type_of, create_icmp, create_fcmp, create_sitofp, create_fptosi, create_alloca, create_br,
  create_cond_br, create_ret, create_void_ret, create_block, create_global, is_ended,
}
use gvn.Codegen.Convert.{const_int, var_ty}
use gvn.Codegen.Visit.{const_fp, visit_expr}

-- The type of a declared variable.
abbrev pub declared_ty : CminusType → Option Num → Build Ty
declared_ty t none = return (var_ty t)
declared_ty t (some (int_num n)) = return (array (var_ty t) n)
declared_ty t (some (float_num b)) = fail no_element

-- The object of a variable.
unfoldable pub declare_var : Bool → Ty → Text → Build Value
declare_var is_global ty id = if is_global then create_global ty id else create_alloca ty

-- visit(ASTVarDeclaration)
unfoldable pub visit_var_declaration : VarDeclaration → Build Unit
visit_var_declaration d = do
  ty ← declared_ty d.ty d.num
  s ← gets (λ s. s.scope)
  v ← declare_var (in_global s) ty d.id
  push_scope d.id v

-- The loops over the declarations of a compound statement.
unfoldable pub visit_var_declarations : List VarDeclaration → Build Unit
visit_var_declarations [] = return tt
visit_var_declarations (d ∷ ds) = visit_var_declaration d >> visit_var_declarations ds

-- `create_br` where the block has no terminator yet.
unfoldable pub fall_to : ℕ → Build Unit
fall_to q = do ended ← is_ended; if ended then return tt else create_br q >> return tt

-- A compound statement enters a scope, but for the body of a function, whose scope is there; this
-- is `need_exit_scope`.
unfoldable pub enter_compound : Build Bool
enter_compound = do
  pre ← gets (λ s. s.pre_enter_scope)
  if pre then put_pre_enter false else enter_scope
  return (not pre)

unfoldable pub exit_compound : Bool → Build Unit
exit_compound need_exit = if need_exit then exit_scope else return tt

module _ (fp_get : ℕ → ℕ) where
  -- The comparison of a condition with zero.
  unfoldable pub create_condition : Value → Build Value
  create_condition v = do
    t ← type_of v
    if is_integer_type t
        then create_icmp CmpOp.ne v (const_int 0)
        else create_fcmp CmpOp.ne v (const_fp fp_get 0)

  -- visit(ASTReturnStmt) with an expression: the conversion and the return.
  unfoldable pub returned : Ty → Ty → Value → Build Value
  returned ret ty v =
      if is_eq_type ret ty
      then return v
      else if is_integer_type ret
      then create_fptosi v int32_ty
      else create_sitofp v float_ty

  unfoldable pub return_converted : Value → Build Unit
  return_converted v = do
    f ← current_fun
    t ← type_of v
    v' ← returned f.return_ty t v
    put_val v'
    create_ret v'
    return tt

  unfoldable mutual
    pub visit_stmt : Stmt → Build Unit
    visit_stmt (compound ds ss) = do
      need_exit ← enter_compound
      visit_var_declarations ds
      visit_stmts ss
      exit_compound need_exit
    visit_stmt (expression_stmt e) = visit_expr fp_get e
    visit_stmt empty_stmt = return tt
    visit_stmt (selection e st) = do
      visit_expr fp_get e
      v ← gets (λ s. s.tmp_val)
      true_bb ← create_block []
      cont_bb ← create_block []
      c ← create_condition v
      create_cond_br c true_bb cont_bb
      set_insert_point true_bb
      visit_stmt st
      fall_to cont_bb
      set_insert_point cont_bb
    visit_stmt (selection_else e st st') = do
      visit_expr fp_get e
      v ← gets (λ s. s.tmp_val)
      true_bb ← create_block []
      cont_bb ← create_block []
      c ← create_condition v
      false_bb ← create_block []
      create_cond_br c true_bb false_bb
      set_insert_point true_bb
      visit_stmt st
      fall_to cont_bb
      set_insert_point false_bb
      visit_stmt st'
      fall_to cont_bb
      set_insert_point cont_bb
    visit_stmt (iteration e st) = do
      expr_bb ← create_block []
      fall_to expr_bb
      set_insert_point expr_bb
      visit_expr fp_get e
      v ← gets (λ s. s.tmp_val)
      true_bb ← create_block []
      cont_bb ← create_block []
      c ← create_condition v
      create_cond_br c true_bb cont_bb
      set_insert_point true_bb
      visit_stmt st
      fall_to expr_bb
      set_insert_point cont_bb
    visit_stmt return_void = create_void_ret >> return tt
    visit_stmt (return_stmt e) = do
      visit_expr fp_get e
      v ← gets (λ s. s.tmp_val)
      return_converted v

    -- The loop over the statements, which stops where the block has got a terminator.
    pub visit_stmts : Stmts → Build Unit
    visit_stmts no_stmts = return tt
    visit_stmts (stmt st ss) = do
      visit_stmt st
      ended ← is_ended
      if ended then return tt else visit_stmts ss
