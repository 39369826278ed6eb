-- ===== src/Tests/Ast.antt =====
-- The abstract syntax tree of a small program.
use gvn.Prelude.{ℕ, suc, ◌≡◌, refl, ap, true, false, none, some, [], ◌∷◌, Result, ok, ◌>>=◌, arith}
use gvn.Prelude.Texts.{Text, text}
use gvn.Ast.Tree.{size}
use gvn.Ast.Nodes.{build, fits_node, fits_nodes}
use gvn.Ast.Types.{
  type_int, type_float, op_lt, op_plus, op_mul, int_num, float_num, Expr, assign, simple, compare,
  scalar, element, Additive, one_term, add, one_factor, mul, Factor, paren, read, call, num,
  no_exprs, expr, Stmt, expression_stmt, empty_stmt, selection_else, iteration, return_stmt, Stmts,
  no_stmts, stmt, Declaration, var_declaration, fun_declaration, Node,
}
use gvn.Ast.Numbers.{digits_value, to_string, digits_value-to_string}
use gvn.Ast.Fits.{
  FitsAll, FitsDeclaration, FitsExpr, FitsVar, FitsAdditive, FitsTerm, FitsFactor, FitsExprs,
  FitsStmt, FitsStmts,
}
use gvn.Ast.Grammar.{program_tree}
use gvn.Ast.Grammar
use gvn.Ast.Numbers
use gvn.Ast.Transform.{transform}
use gvn.Ast.Transform.Declarations.{transform-program_tree}
use gvn.Ast.Printer.{visit_program}
use gvn.Ast.Printer.Outline.{render, outline_program}
use gvn.Ast.Printer.Writes.{wrote, visit_program-render}

-- A float by the digits of its bits.
abbrev digits_stof : Text → Result ℕ
digits_stof s = ok (digits_value 0 s)

abbrev factor_sum : Factor → Additive
factor_sum f = one_term (one_factor f)

abbrev factor_expr : Factor → Expr
factor_expr f = simple (factor_sum f)

-- `float a[3];`
abbrev table : Declaration
table = var_declaration (record { ty = type_float; id = text "a"; num = some (int_num 3) })

-- `int f(int p[], int q) { int y; y = 2 * (p[1] + q); if (y < 3) return f(p, y); else ; while (y) y = 1.5; }`
abbrev variable : Text → Factor
variable s = read (scalar s)

abbrev twice_sum : Expr
twice_sum =
    let p = factor_sum (read (element (text "p") (factor_expr (num (int_num 1))))) in
    simple (
      one_term (
        mul (one_factor (num (int_num 2))) op_mul
          (paren (simple (add p op_plus (one_factor (variable (text "q"))))))))

abbrev branch : Stmt
branch =
    let p = factor_expr (variable (text "p")) in
    let y = factor_expr (variable (text "y")) in
    selection_else (compare (factor_sum (variable (text "y"))) op_lt (factor_sum (num (int_num 3))))
      (return_stmt (factor_expr (call (text "f") (expr p (expr y no_exprs))))) empty_stmt

abbrev body : Stmts
body = stmt (expression_stmt (assign (scalar (text "y")) twice_sum)) (
    stmt branch (
      stmt
        (iteration (factor_expr (variable (text "y")))
          (expression_stmt (assign (scalar (text "y")) (factor_expr (num (float_num 1069547520))))))
        no_stmts))

abbrev function : Declaration
function = fun_declaration (record {
  ty = type_int;
  id = text "f";
  params =
      record { ty = type_int; id = text "p"; isarray = true }
      ∷ record { ty = type_int; id = text "q"; isarray = false }
      ∷ [];
  local_declarations = record { ty = type_int; id = text "y"; num = none } ∷ [];
  statement_list = body;
})

program-Fits : FitsAll FitsDeclaration (table ∷ function ∷ [])
unfolding FitsExpr FitsVar FitsAdditive FitsTerm FitsFactor FitsExprs FitsStmt FitsStmts
program-Fits = ground arith

abbrev enough : ℕ
enough = suc (size (program_tree to_string table (function ∷ [])))

program_nodes : fits_node (program_tree to_string table (function ∷ [])) ≡ true
unfolding fits_node fits_nodes to_string Numbers.digits Grammar.left2 Grammar.left3
    Grammar.type_text Grammar.rel_text Grammar.add_text Grammar.mul_text Grammar.param_tree
    Grammar.num_tree Grammar.size_text Grammar.var_declaration_tree Grammar.params_tree
    Grammar.declaration_body Grammar.declaration_tree Grammar.program_tree Grammar.expr_tree
    Grammar.var_tree Grammar.additive_tree Grammar.term_tree Grammar.factor_tree Grammar.args_tree
    Grammar.expr_trees Grammar.stmt_body Grammar.stmt_trees
program_nodes = refl

transform-program_tree_example :
    (build (program_tree to_string table (function ∷ [])) >>= transform digits_stof enough)
    ≡ ok (Node.program (table ∷ function ∷ []))
transform-program_tree_example =
    transform-program_tree digits_stof to_string (λ b. ap ok (digits_value-to_string b)) table
      (function ∷ []) enough program-Fits program_nodes (omega arith)

-- At depth 4, after some output.
visit_program-render_example :
    visit_program to_string (table ∷ function ∷ []) (record { depth = 4; out = text "x" })
    ≡ wrote
        (record { depth = 4; out = text "x" })
        (render 4 (outline_program to_string (table ∷ function ∷ [])))
visit_program-render_example =
    visit_program-render to_string (table ∷ function ∷ []) (record { depth = 4; out = text "x" })
