-- ===== src/Tests/Codegen.antt =====
-- Runs of the code generator (src/cminusfc/cminusf_builder.cpp).
use gvn.Prelude.{
  ℕ, ◌≡◌, ◌≢◌, ◌≤◌, ◌<◌, contains, refl, sym, Bool, true, false, ◌&&◌, List, [], ◌∷◌, ok, none,
  some, All, inl, inr, arith, ◌==◌, ==_iff, Bool-cases, update, is_eq, ℕ_discrete,
}
use gvn.Prelude.Texts.{text, Text-discrete}
use gvn.Ast.Types.{
  type_int, int_num, simple, compare, scalar, one_term, one_factor, read, num, op_lt, Declaration,
  fun_declaration, var_declaration, Expr, element, assign, selection_else, iteration, return_stmt,
  return_void, expression_stmt, no_stmts, stmt, Factor, Stmt, compound,
}
use gvn.Ir.Types.{void_ty, is_eq_type, Ty-discrete}
use gvn.Ir.Uses.{add_use}
use gvn.Ir.Constants.{fp_const, null_const}
use gvn.Ir.Module.{Block, block, Value, constant, argument, blocks_of, succs_of, pres_of}
use gvn.Codegen.Scope.{Scopes, push, find, find_binding, in_global}
use gvn.Codegen.Scope.Laws.{bound, find-push}
use gvn.Codegen.State.{Codegen, set_insert_point, enter_scope, exit_scope, push_scope}
use gvn.Codegen.Create.{
  empty_block, insert_instr, add_object, add_uses, add_instruction, add_pre, add_succ, add_block,
  add_pred, add_next, insert_block_at, add_args, insert_func, insert_global,
}
use gvn.Codegen.Builder.{
  is_ended, get_terminator, create_function, create_global, create_block, create_void_ret,
  create_ret, create_br, create_cond_br, add_edges, target, create_call, create_gep,
  get_element_type, index_type, create_load, create_store, create_alloca, create_fptosi,
  create_sitofp, create_zext, create_fcmp, create_icmp, create_binary, create, create_in,
  get_pointer_element_type,
}
use gvn.Codegen.Convert.{const_int, promote, create_compare, create_add, create_mul}
use gvn.Codegen.Visit.{
  visit_num, create_zero_ret, create_default_ret, visit_scalar, int_index, check_index, element_ptr,
  visit_element, find_var, store_converted, visit_expr, visit_var, visit_additive, visit_term,
  visit_factor, visit_args,
}
use gvn.Codegen.Statement.{
  visit_stmt, visit_stmts, visit_var_declarations, visit_var_declaration, declare_var, fall_to,
  enter_compound, exit_compound, create_condition, return_converted, returned,
}
use gvn.Codegen.Program.{
  build_program, declare_runtimes, declare_runtime, visit_declarations, visit_declaration,
  visit_fun_declaration, end_function, store_args, param_type,
}
use gvn.Codegen.Blocks.{status, code, listed}
use gvn.Codegen.Blocks.Laid.{Avoids, IsDone}
use gvn.Codegen.Calm.{IsOpen}
use gvn.Codegen.Jumps.{IsLeft}
use gvn.Codegen.Jumps.Statements.{visit_stmt-IsLeft}
use gvn.Codegen.Mirrored.{graph_of, build_program-IsMirrored}
use gvn.Dominators.Sound.{IsMirrored}
use gvn.Codegen.Promote.{Agrees, promote-Agrees}
use gvn.Codegen.Ended.{IsTerminated, build_program-IsTerminated}

abbrev of_factor : Factor → Expr
of_factor f = simple (one_term (one_factor f))

-- int a[10]; int main(int n) { int i; i = n; while (i < 10) { if (i) a[i] = n; else return 1; output(n); } return 0; }
abbrev sample : List Declaration
sample =
    var_declaration (record { ty = type_int; id = text "a"; num = some (int_num 10) })
    ∷ fun_declaration (record {
      ty = type_int;
      id = text "main";
      params = record { ty = type_int; id = text "n"; isarray = false } ∷ [];
      local_declarations = record { ty = type_int; id = text "i"; num = none } ∷ [];
      statement_list =
          stmt (expression_stmt (assign (scalar (text "i")) (of_factor (read (scalar (text "n"))))))
            (stmt
              (iteration
                (compare (one_term (one_factor (read (scalar (text "i"))))) op_lt
                  (one_term (one_factor (num (int_num 10)))))
                (selection_else (of_factor (read (scalar (text "i"))))
                  (expression_stmt (
                    assign (element (text "a") (of_factor (read (scalar (text "i")))))
                      (of_factor (read (scalar (text "n"))))))
                  (return_stmt (of_factor (num (int_num 1))))))
              (stmt (return_stmt (of_factor (num (int_num 0)))) no_stmts));
    })
    ∷ []

sample_run : (s : Codegen) × (build_program (λ b. b) sample ≡ ok (tt, s))
unfolding build_program declare_runtimes declare_runtime visit_declarations visit_declaration
    visit_fun_declaration end_function store_args param_type visit_stmt visit_stmts
    visit_var_declarations visit_var_declaration declare_var fall_to enter_compound exit_compound
    create_condition return_converted returned visit_expr visit_var visit_additive visit_term
    visit_factor visit_args visit_num create_zero_ret create_default_ret visit_scalar int_index
    check_index element_ptr visit_element find_var store_converted promote create_compare create_add
    create_mul is_ended get_terminator create_function create_global create_block create_void_ret
    create_ret create_br create_cond_br add_edges target create_call create_gep get_element_type
    index_type create_load create_store create_alloca create_fptosi create_sitofp create_zext
    create_fcmp create_icmp create_binary create create_in get_pointer_element_type set_insert_point
    enter_scope exit_scope push_scope push find find_binding in_global insert_instr add_object
    add_uses add_instruction add_pre add_succ add_block add_pred add_next insert_block_at add_args
    insert_func insert_global is_eq is_eq_type Text-discrete ℕ_discrete add_use Ty-discrete
sample_run = (_, refl)

-- The blocks of the body: the entry, the head of the loop, its body and its end, one branch, the end
-- of both, the other branch, and the two blocks of the test of the index.
sample_blocks :
    blocks_of (sample_run.0.ir_module.at 7) ≡ 9 ∷ 15 ∷ 20 ∷ 21 ∷ 25 ∷ 26 ∷ 28 ∷ 32 ∷ 33 ∷ []
unfolding sample_run
sample_blocks = refl

loop_head : (b : Block) × (sample_run.0.ir_module.at 15 ≡ block b)
unfolding sample_run build_program declare_runtimes declare_runtime visit_declarations
    visit_declaration visit_fun_declaration end_function store_args param_type visit_stmt
    visit_stmts visit_var_declarations visit_var_declaration declare_var fall_to enter_compound
    exit_compound create_condition return_converted returned visit_expr visit_var visit_additive
    visit_term visit_factor visit_args visit_num create_zero_ret create_default_ret visit_scalar
    int_index check_index element_ptr visit_element find_var store_converted promote create_compare
    create_add create_mul is_ended get_terminator create_function create_global create_block
    create_void_ret create_ret create_br create_cond_br add_edges target create_call create_gep
    get_element_type index_type create_load create_store create_alloca create_fptosi create_sitofp
    create_zext create_fcmp create_icmp create_binary create create_in get_pointer_element_type
    set_insert_point enter_scope exit_scope push_scope push find find_binding in_global insert_instr
    add_object add_uses add_instruction add_pre add_succ add_block add_pred add_next insert_block_at
    add_args insert_func insert_global is_eq is_eq_type Text-discrete ℕ_discrete add_use Ty-discrete
loop_head = (_, refl)

build_program-IsTerminated_example : IsTerminated sample_run.0.ir_module loop_head.0.instr_list
build_program-IsTerminated_example =
    build_program-IsTerminated (λ b. b) sample sample_run.0 sample_run.1 15 loop_head.0 loop_head.1

build_program-IsMirrored_example : IsMirrored (graph_of sample_run.0.ir_module 7)
build_program-IsMirrored_example =
    build_program-IsMirrored (λ b. b) sample sample_run.0 sample_run.1 7

-- A function with a block, into which code goes.
abbrev start : Codegen
start = record {
  ir_module = record {
    at = update (λ a. argument void_ty) 0 (empty_block 1);
    name = λ a. [];
    use_list = λ a. [];
    function_list = [];
    global_list = [];
  };
  next = 2;
  insert_block = some 0;
  scope = [] ∷ [] ∷ [];
  tmp_val = constant null_const;
  require_lvalue = false;
  cur_fun = some 1;
  pre_enter_scope = false;
}

start-IsDone : (x : ℕ) → Avoids x (0 ∷ []) → IsDone (status start.ir_module x)
unfolding status
start-IsDone x a = elim (Bool-cases (0 == x)) [
  | inl e ↦ absurd (a.0 (sym ((==_iff 0 x).0 e)))
  | inr e ↦ rw e tt
]

start-bounded : (x : ℕ) → All (λ i. i < 2) (listed (code (start.ir_module.at x)))
start-bounded x = elim (Bool-cases (0 == x)) [ inl e ↦ rw e tt | inr e ↦ rw e tt ]

start-fresh : (x : ℕ) → 2 ≤ x → code (start.ir_module.at x) ≡ none
start-fresh x k = elim (Bool-cases (0 == x)) [
  | inl e ↦ absurd (omega (arith, k, (==_iff 0 x).0 e))
  | inr e ↦ rw e refl
]

start-edges :
    (x y : ℕ)
    → contains (succs_of (start.ir_module.at x)) y ≡ true
    → contains (pres_of (start.ir_module.at y)) x ≡ true
start-edges x y k = elim (Bool-cases (0 == x)) [
  | inl e ↦ absurd (no_edge (rw e at k))
  | inr e ↦ absurd (no_edge (rw e at k))
]
  where
    no_edge : contains [] y ≢ true
    no_edge h = cc

start-IsOpen : IsOpen start.scope false [] start
unfolding status
start-IsOpen = record {
  bb = 0;
  here = refl;
  laid = record {
    bounded = start-bounded;
    waiting = (omega arith, refl, tt, tt);
    others = start-IsDone;
  };
  linked = record { fresh = start-fresh; edges = start-edges };
  scoped = refl;
  pre = refl;
}

-- { int x; x = 1; return; }
abbrev body : Stmt
body = compound (record { ty = type_int; id = text "x"; num = none } ∷ []) (
    stmt (expression_stmt (assign (scalar (text "x")) (of_factor (num (int_num 1)))))
      (stmt return_void no_stmts))

body_run : (s : Codegen) × (visit_stmt (λ b. b) body start ≡ ok (tt, s))
unfolding build_program declare_runtimes declare_runtime visit_declarations visit_declaration
    visit_fun_declaration end_function store_args param_type visit_stmt visit_stmts
    visit_var_declarations visit_var_declaration declare_var fall_to enter_compound exit_compound
    create_condition return_converted returned visit_expr visit_var visit_additive visit_term
    visit_factor visit_args visit_num create_zero_ret create_default_ret visit_scalar int_index
    check_index element_ptr visit_element find_var store_converted promote create_compare create_add
    create_mul is_ended get_terminator create_function create_global create_block create_void_ret
    create_ret create_br create_cond_br add_edges target create_call create_gep get_element_type
    index_type create_load create_store create_alloca create_fptosi create_sitofp create_zext
    create_fcmp create_icmp create_binary create create_in get_pointer_element_type set_insert_point
    enter_scope exit_scope push_scope push find find_binding in_global insert_instr add_object
    add_uses add_instruction add_pre add_succ add_block add_pred add_next insert_block_at add_args
    insert_func insert_global is_eq is_eq_type Text-discrete ℕ_discrete add_use Ty-discrete
body_run = (_, refl)

visit_stmt-IsLeft_example : IsLeft start.scope false [] body_run.0
visit_stmt-IsLeft_example =
    visit_stmt-IsLeft (λ b. b) body [] start body_run.0 start-IsOpen body_run.1

promote-Agrees_example :
    (p : Bool × Value × Value) × (s' : Codegen) × (promote
        (const_int 1)
        (constant (fp_const 0))
        start
      ≡ ok (p, s'))
    × Agrees s' p
promote-Agrees_example =
    promote-Agrees (const_int 1) (constant (fp_const 0)) start 0 refl (inl refl) (inr refl) tt tt

abbrev inner : Scopes
inner = ((text "x", const_int 1) ∷ []) ∷ []

find-push_example :
    find inner (text "y")
    ≡ bound
        (true && is_eq Text-discrete (text "x") (text "y"))
        (const_int 1)
        (find ([] ∷ []) (text "y"))
unfolding push find_binding
find-push_example = find-push ([] ∷ []) inner (text "x") (text "y") (const_int 1) true refl
