-- ===== src/Ast/Printer/Outline.antt =====
-- What the printer writes: the outline of a tree of lines.
use gvn.Prelude.{ℕ, ◌+◌, true, false, none, some, List, [], ◌∷◌, ◌++◌}
use gvn.Prelude.Texts.{Text, text}
use gvn.Ast.Tree.{Tree, Trees, node, no_trees, tree}
use gvn.Ast.Types.{
  Num, int_num, float_num, Expr, assign, simple, compare, Var, scalar, element, Additive, one_term,
  add, Term, one_factor, mul, Factor, paren, read, call, num, Exprs, no_exprs, expr, VarDeclaration,
  Param, Stmt, compound, expression_stmt, empty_stmt, selection, selection_else, iteration,
  return_void, return_stmt, Stmts, no_stmts, stmt, Declaration, var_declaration, fun_declaration,
}
use gvn.Ast.Numbers.{to_string}
use gvn.Ast.Printer.{dashes, rel_op_text, add_op_text, mul_op_text}

-- Each node on a line of its own, two dashes deeper than its parent.
unfoldable mutual
  pub render : ℕ → Tree → Text
  render d (node s ts) = dashes d ++ s ++ 10 ∷ [] ++ renders (d + 2) ts

  pub renders : ℕ → Trees → Text
  renders d no_trees = []
  renders d (tree t ts) = render d t ++ renders d ts

unfoldable pub outline_param : Param → Tree
outline_param q = elim q.isarray [
  | true ↦ node (text "param: " ++ q.id ++ text "[]") no_trees
  | false ↦ node (text "param: " ++ q.id) no_trees
]

unfoldable pub outline_params : List Param → Trees → Trees
outline_params [] ts = ts
outline_params (q ∷ qs) ts = tree (outline_param q) (outline_params qs ts)

-- What the outline shows of each object; a `float` by `float_out`.
module _ (float_out : ℕ → Text) where
  unfoldable pub outline_num : Num → Tree
  outline_num (int_num n) = node (text "num (int): " ++ to_string n) no_trees
  outline_num (float_num b) = node (text "num (float): " ++ float_out b) no_trees

  unfoldable mutual
    pub outline_expr : Expr → Tree
    outline_expr (assign v e) =
        node (text "assign-expression") (tree (outline_var v) (tree (outline_expr e) no_trees))
    outline_expr (simple a) = node (text "simple-expression") (tree (outline_additive a) no_trees)
    outline_expr (compare a o b) =
        node (text "simple-expression" ++ text ": " ++ rel_op_text o)
          (tree (outline_additive a) (tree (outline_additive b) no_trees))

    pub outline_var : Var → Tree
    outline_var (scalar s) = node (text "var: " ++ s) no_trees
    outline_var (element s e) =
        node (text "var: " ++ s ++ text "[]") (tree (outline_expr e) no_trees)

    pub outline_additive : Additive → Tree
    outline_additive (one_term t) =
        node (text "additive-expression") (tree (outline_term t) no_trees)
    outline_additive (add a o t) =
        node (text "additive-expression" ++ text ": " ++ add_op_text o)
          (tree (outline_additive a) (tree (outline_term t) no_trees))

    pub outline_term : Term → Tree
    outline_term (one_factor f) = node (text "term") (tree (outline_factor f) no_trees)
    outline_term (mul t o f) =
        node (text "term" ++ text ": " ++ mul_op_text o)
          (tree (outline_term t) (tree (outline_factor f) no_trees))

    pub outline_factor : Factor → Tree
    outline_factor (paren e) = outline_expr e
    outline_factor (read v) = outline_var v
    outline_factor (call s es) = node (text "call: " ++ s ++ text "()") (outline_exprs es)
    outline_factor (num n) = outline_num n

    pub outline_exprs : Exprs → Trees
    outline_exprs no_exprs = no_trees
    outline_exprs (expr e es) = tree (outline_expr e) (outline_exprs es)

  unfoldable pub outline_var_declaration : VarDeclaration → Tree
  outline_var_declaration d = elim d.num [
    | none ↦ node (text "var-declaration: " ++ d.id) no_trees
    | some n ↦ node (text "var-declaration: " ++ d.id ++ text "[]") (tree (outline_num n) no_trees)
  ]

  -- The declarations, before the rest.
  unfoldable pub outline_var_declarations : List VarDeclaration → Trees → Trees
  outline_var_declarations [] ts = ts
  outline_var_declarations (d ∷ ds) ts =
      tree (outline_var_declaration d) (outline_var_declarations ds ts)

  unfoldable mutual
    pub outline_stmt : Stmt → Tree
    outline_stmt (compound ds ss) =
        node (text "compound-stmt") (outline_var_declarations ds (outline_stmts ss))
    outline_stmt (expression_stmt e) =
        node (text "expression-stmt") (tree (outline_expr e) no_trees)
    outline_stmt empty_stmt = node (text "expression-stmt") no_trees
    outline_stmt (selection e s) =
        node (text "selection-stmt") (tree (outline_expr e) (tree (outline_stmt s) no_trees))
    outline_stmt (selection_else e s t) =
        node (text "selection-stmt")
          (tree (outline_expr e) (tree (outline_stmt s) (tree (outline_stmt t) no_trees)))
    outline_stmt (iteration e s) =
        node (text "iteration-stmt") (tree (outline_expr e) (tree (outline_stmt s) no_trees))
    outline_stmt return_void = node (text "return-stmt" ++ text ": void") no_trees
    outline_stmt (return_stmt e) = node (text "return-stmt") (tree (outline_expr e) no_trees)

    pub outline_stmts : Stmts → Trees
    outline_stmts no_stmts = no_trees
    outline_stmts (stmt s ss) = tree (outline_stmt s) (outline_stmts ss)

  unfoldable pub outline_declaration : Declaration → Tree
  outline_declaration (var_declaration d) = outline_var_declaration d
  outline_declaration (fun_declaration d) = node (text "fun-declaration: " ++ d.id) (
      outline_params d.params
        (tree (outline_stmt (compound d.local_declarations d.statement_list)) no_trees))

  unfoldable pub outline_declarations : List Declaration → Trees
  outline_declarations [] = no_trees
  outline_declarations (d ∷ ds) = tree (outline_declaration d) (outline_declarations ds)

  abbrev pub outline_program : List Declaration → Tree
  outline_program ds = node (text "program") (outline_declarations ds)
