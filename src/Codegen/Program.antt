-- ===== src/Codegen/Program.antt =====
-- The visits of functions and programs (CminusfBuilder::visit), and the constructor of
-- CminusfBuilder.
use gvn.Prelude.{ℕ, true, false, none, List, [], ◌∷◌, if◌then◌else◌, Result, no_element}
use gvn.Prelude.Texts.{Text, text}
use gvn.Ast.Types.{
  CminusType, type_int, type_float, type_void, Param, compound, FunDeclaration, Declaration,
  var_declaration, fun_declaration,
}
use gvn.Ir.Types.{Ty, Tys, none_left, param, void_ty, float_ty, pointer, int32_ty}
use gvn.Ir.Constants.{null_const}
use gvn.Ir.Module.{Module, constant, object, argument, args_of}
use gvn.Codegen.State.{
  Codegen, Build, ◌>>=◌, ◌>>◌, return, fail, gets, put_fun, put_pre_enter, set_insert_point,
  enter_scope, exit_scope, push_scope,
}
use gvn.Codegen.Builder.{create_alloca, create_store, create_block, create_function, is_ended}
use gvn.Codegen.Convert.{var_ty}
use gvn.Codegen.Visit.{create_default_ret}
use gvn.Codegen.Statement.{visit_stmt, visit_var_declaration}

abbrev pub return_type : CminusType → Ty
return_type type_int = int32_ty
return_type type_float = float_ty
return_type type_void = void_ty

unfoldable pub param_type : Param → Ty
param_type p = if p.isarray then pointer (var_ty p.ty) else var_ty p.ty

abbrev pub param_types : List Param → Tys
param_types [] = none_left
param_types (p ∷ ps) = param (param_type p) (param_types ps)

-- The loop that stores the arguments.
unfoldable pub store_args : List Param → List ℕ → Build Unit
store_args [] args = return tt
store_args (p ∷ ps) [] = fail no_element
store_args (p ∷ ps) (a ∷ args) = do
  alloc ← create_alloca (param_type p)
  create_store (object a) alloc
  push_scope p.id alloc
  store_args ps args

module _ (fp_get : ℕ → ℕ) where
  -- The return that a body without one gets.
  unfoldable pub end_function : Build Unit
  end_function = do
    ended ← is_ended
    if ended then return tt else create_default_ret fp_get >> return tt

  -- visit(ASTFunDeclaration)
  unfoldable pub visit_fun_declaration : FunDeclaration → Build Unit
  visit_fun_declaration d = do
    f ← create_function (return_type d.ty) (param_types d.params) d.id
    push_scope d.id (object f)
    put_fun f
    bb ← create_block (text "entry")
    set_insert_point bb
    enter_scope
    put_pre_enter true
    m ← gets (λ s. s.ir_module)
    store_args d.params (args_of (m.at f))
    visit_stmt fp_get (compound d.local_declarations d.statement_list)
    end_function
    exit_scope

  unfoldable pub visit_declaration : Declaration → Build Unit
  visit_declaration (var_declaration d) = visit_var_declaration d
  visit_declaration (fun_declaration d) = visit_fun_declaration d

  unfoldable pub visit_declarations : List Declaration → Build Unit
  visit_declarations [] = return tt
  visit_declarations (d ∷ ds) = visit_declaration d >> visit_declarations ds

-- The constructor of CminusfBuilder: an empty module with the functions of the runtime.
abbrev empty_module : Module
empty_module = record {
  at = λ a. argument void_ty;
  name = λ a. [];
  use_list = λ a. [];
  function_list = [];
  global_list = [];
}

abbrev pub empty_state : Codegen
empty_state = record {
  ir_module = empty_module;
  next = 0;
  insert_block = none;
  scope = [] ∷ [];
  tmp_val = constant null_const;
  require_lvalue = false;
  cur_fun = none;
  pre_enter_scope = false;
}

-- The code makes the four functions before it pushes their names, which changes neither.
unfoldable pub declare_runtime : Ty → Tys → Text → Build Unit
declare_runtime ret ts name = create_function ret ts name >>= λ f. push_scope name (object f)

unfoldable pub declare_runtimes : Build Unit
declare_runtimes = do
  declare_runtime int32_ty none_left (text "input")
  declare_runtime void_ty (param int32_ty none_left) (text "output")
  declare_runtime void_ty (param float_ty none_left) (text "outputFloat")
  declare_runtime void_ty none_left (text "neg_idx_except")

-- The module of a program: the constructor, then visit(ASTProgram).
unfoldable pub build_program : (ℕ → ℕ) → List Declaration → Result (Unit {0} × Codegen)
build_program fp_get ds = (declare_runtimes >> visit_declarations fp_get ds) empty_state
