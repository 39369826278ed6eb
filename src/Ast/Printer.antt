-- ===== src/Ast/Printer.antt =====
-- ASTPrinter (src/common/ast.cpp): the visits, which write to `std::cout`. A pointer that may be null
-- is a constructor of its own, and `accept` finds the class of its object.
pub mod Outline
pub mod Writes
use gvn.Prelude.{ℕ, zero, suc, ◌+◌, ◌-◌, Bool, true, false, Option, none, some, List, [], ◌∷◌, ◌++◌}
use gvn.Prelude.Texts.{Text, text}
use gvn.Ast.Types.{
  RelOp, op_le, op_lt, op_gt, op_ge, op_eq, op_neq, AddOp, op_plus, op_minus, MulOp, op_mul, op_div,
  Num, int_num, float_num, Expr, assign, simple, compare, Var, scalar, element, Additive, one_term,
  add, Term, one_factor, mul, Factor, paren, read, call, num, Exprs, no_exprs, expr, VarDeclaration,
  Param, Stmt, compound, expression_stmt, empty_stmt, selection, selection_else, iteration,
  return_void, return_stmt, Stmts, no_stmts, stmt, FunDeclaration, Declaration, var_declaration,
  fun_declaration,
}
use gvn.Ast.Numbers.{to_string}

-- The member `depth` and what is written so far.
pub record Printer : Type 0 where
  pub depth : ℕ
  pub out : Text

-- `std::string(N, '-')`
unfoldable pub dashes : ℕ → Text
dashes zero = []
dashes (suc n) = 45 ∷ dashes n

-- A line of output: the dashes, the text and `std::endl`.
unfoldable pub print_line : Text → Printer → Printer
print_line s p = record { depth = p.depth; out = p.out ++ (dashes p.depth ++ s ++ 10 ∷ []) }

unfoldable pub add_depth : Printer → Printer
add_depth p = record { depth = p.depth + 2; out = p.out }

unfoldable pub remove_depth : Printer → Printer
remove_depth p = record { depth = p.depth - 2; out = p.out }

unfoldable pub rel_op_text : RelOp → Text
rel_op_text op_lt = text "<"
rel_op_text op_le = text "<="
rel_op_text op_ge = text ">="
rel_op_text op_gt = text ">"
rel_op_text op_eq = text "=="
rel_op_text op_neq = text "!="

unfoldable pub add_op_text : AddOp → Text
add_op_text op_plus = text "+"
add_op_text op_minus = text "-"

unfoldable pub mul_op_text : MulOp → Text
mul_op_text op_mul = text "*"
mul_op_text op_div = text "/"

unfoldable pub visit_param : Param → Printer → Printer
visit_param q p = elim q.isarray [
  | true ↦ print_line (text "param: " ++ q.id ++ text "[]") p
  | false ↦ print_line (text "param: " ++ q.id) p
]

unfoldable pub visit_params : List Param → Printer → Printer
visit_params [] p = p
visit_params (q ∷ qs) p = visit_params qs (visit_param q p)

-- The text that the stream writes for a `float` is a parameter.
module _ (float_out : ℕ → Text) where
  unfoldable pub visit_num : Num → Printer → Printer
  visit_num (int_num n) p = print_line (text "num (int): " ++ to_string n) p
  visit_num (float_num b) p = print_line (text "num (float): " ++ float_out b) p

  unfoldable mutual
    pub visit_expr : Expr → Printer → Printer
    visit_expr (assign v e) p =
        remove_depth
          (visit_expr e (visit_var v (add_depth (print_line (text "assign-expression") p))))
    visit_expr (simple a) p =
        remove_depth (visit_additive a (add_depth (print_line (text "simple-expression") p)))
    visit_expr (compare a o b) p = remove_depth (
        visit_additive b (
          visit_additive a
            (add_depth (print_line (text "simple-expression" ++ text ": " ++ rel_op_text o) p))))

    pub visit_var : Var → Printer → Printer
    visit_var (scalar s) p = print_line (text "var: " ++ s) p
    visit_var (element s e) p =
        remove_depth (visit_expr e (add_depth (print_line (text "var: " ++ s ++ text "[]") p)))

    pub visit_additive : Additive → Printer → Printer
    visit_additive (one_term t) p =
        remove_depth (visit_term t (add_depth (print_line (text "additive-expression") p)))
    visit_additive (add a o t) p = remove_depth (
        visit_term t (
          visit_additive a
            (add_depth (print_line (text "additive-expression" ++ text ": " ++ add_op_text o) p))))

    pub visit_term : Term → Printer → Printer
    visit_term (one_factor f) p =
        remove_depth (visit_factor f (add_depth (print_line (text "term") p)))
    visit_term (mul t o f) p = remove_depth (
        visit_factor f
          (visit_term t (add_depth (print_line (text "term" ++ text ": " ++ mul_op_text o) p))))

    -- ASTFactor::accept
    pub visit_factor : Factor → Printer → Printer
    visit_factor (paren e) p = visit_expr e p
    visit_factor (read v) p = visit_var v p
    visit_factor (call s es) p =
        remove_depth (visit_exprs es (add_depth (print_line (text "call: " ++ s ++ text "()") p)))
    visit_factor (num n) p = visit_num n p

    pub visit_exprs : Exprs → Printer → Printer
    visit_exprs no_exprs p = p
    visit_exprs (expr e es) p = visit_exprs es (visit_expr e p)

  unfoldable pub visit_var_declaration : VarDeclaration → Printer → Printer
  visit_var_declaration d p = elim d.num [
    | none ↦ print_line (text "var-declaration: " ++ d.id) p
    | some n ↦
        remove_depth
          (visit_num n (add_depth (print_line (text "var-declaration: " ++ d.id ++ text "[]") p)))
  ]

  unfoldable pub visit_var_declarations : List VarDeclaration → Printer → Printer
  visit_var_declarations [] p = p
  visit_var_declarations (d ∷ ds) p = visit_var_declarations ds (visit_var_declaration d p)

  unfoldable mutual
    pub visit_stmt : Stmt → Printer → Printer
    visit_stmt (compound ds ss) p = remove_depth (
        visit_stmts ss
          (visit_var_declarations ds (add_depth (print_line (text "compound-stmt") p))))
    visit_stmt (expression_stmt e) p =
        remove_depth (visit_expr e (add_depth (print_line (text "expression-stmt") p)))
    visit_stmt empty_stmt p = remove_depth (add_depth (print_line (text "expression-stmt") p))
    visit_stmt (selection e s) p =
        remove_depth
          (visit_stmt s (visit_expr e (add_depth (print_line (text "selection-stmt") p))))
    visit_stmt (selection_else e s t) p = remove_depth (
        visit_stmt t
          (visit_stmt s (visit_expr e (add_depth (print_line (text "selection-stmt") p)))))
    visit_stmt (iteration e s) p =
        remove_depth
          (visit_stmt s (visit_expr e (add_depth (print_line (text "iteration-stmt") p))))
    visit_stmt return_void p = print_line (text "return-stmt" ++ text ": void") p
    visit_stmt (return_stmt e) p =
        remove_depth (visit_expr e (add_depth (print_line (text "return-stmt") p)))

    pub visit_stmts : Stmts → Printer → Printer
    visit_stmts no_stmts p = p
    visit_stmts (stmt s ss) p = visit_stmts ss (visit_stmt s p)

  -- ASTDeclaration::accept
  unfoldable pub visit_declaration : Declaration → Printer → Printer
  visit_declaration (var_declaration d) p = visit_var_declaration d p
  visit_declaration (fun_declaration d) p = remove_depth (
      visit_stmt (compound d.local_declarations d.statement_list)
        (visit_params d.params (add_depth (print_line (text "fun-declaration: " ++ d.id) p))))

  unfoldable pub visit_declarations : List Declaration → Printer → Printer
  visit_declarations [] p = p
  visit_declarations (d ∷ ds) p = visit_declarations ds (visit_declaration d p)

  unfoldable pub visit_program : List Declaration → Printer → Printer
  visit_program ds p =
      remove_depth (visit_declarations ds (add_depth (print_line (text "program") p)))
