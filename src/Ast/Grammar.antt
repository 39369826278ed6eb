-- ===== src/Ast/Grammar.antt =====
-- The tree that the grammar of src/parser/syntax_analyzer.y builds for a program: one node for each
-- rule, one without children for each token, and `epsilon` below an empty list. The names are the
-- texts as they are; Ast/Nodes.antt has what a node takes of them.
use gvn.Prelude.{ℕ, true, false, none, some, List, [], ◌∷◌, map}
use gvn.Prelude.Texts.{Text, text}
use gvn.Ast.Tree.{Tree, node, no_trees, tree}
use gvn.Ast.Types.{
  CminusType, type_int, type_float, type_void, RelOp, op_le, op_lt, op_gt, op_ge, op_eq, op_neq,
  AddOp, op_plus, op_minus, MulOp, op_mul, op_div, Num, int_num, float_num, Expr, assign, simple,
  compare, Var, scalar, element, Additive, one_term, add, Term, one_factor, mul, Factor, paren,
  read, call, num, Exprs, no_exprs, expr, VarDeclaration, Param, Stmt, compound, expression_stmt,
  empty_stmt, selection, selection_else, iteration, return_void, return_stmt, Stmts, no_stmts, stmt,
  Declaration, var_declaration, fun_declaration,
}
use gvn.Ast.Numbers.{to_string}

abbrev pub token : Text → Tree
token s = node s no_trees

abbrev pub rule0 : Text → Tree
rule0 s = node s (tree (token (text "epsilon")) no_trees)

abbrev pub rule1 : Text → Tree → Tree
rule1 s a = node s (tree a no_trees)

abbrev pub rule2 : Text → Tree → Tree → Tree
rule2 s a b = node s (tree a (tree b no_trees))

abbrev pub rule3 : Text → Tree → Tree → Tree → Tree
rule3 s a b c = node s (tree a (tree b (tree c no_trees)))

abbrev pub rule4 : Text → Tree → Tree → Tree → Tree → Tree
rule4 s a b c d = node s (tree a (tree b (tree c (tree d no_trees))))

-- A list built from the left: `list : list item`, and `list : list separator item`.
unfoldable pub left2 : Text → Tree → List Tree → Tree
left2 s base [] = base
left2 s base (t ∷ ts) = left2 s (rule2 s base t) ts

unfoldable pub left3 : Text → Tree → Tree → List Tree → Tree
left3 s base sep [] = base
left3 s base sep (t ∷ ts) = left3 s (rule3 s base sep t) sep ts

unfoldable pub type_text : CminusType → Text
type_text type_int = text "int"
type_text type_float = text "float"
type_text type_void = text "void"

abbrev pub type_tree : CminusType → Tree
type_tree t = rule1 (text "type-specifier") (token (type_text t))

unfoldable pub rel_text : RelOp → Text
rel_text op_le = text "<="
rel_text op_lt = text "<"
rel_text op_gt = text ">"
rel_text op_ge = text ">="
rel_text op_eq = text "=="
rel_text op_neq = text "!="

unfoldable pub add_text : AddOp → Text
add_text op_plus = text "+"
add_text op_minus = text "-"

unfoldable pub mul_text : MulOp → Text
mul_text op_mul = text "*"
mul_text op_div = text "/"

abbrev pub statement_tree : Tree → Tree
statement_tree t = rule1 (text "statement") t

unfoldable pub param_tree : Param → Tree
param_tree p = elim p.isarray [
  | false ↦ rule2 (text "param") (type_tree p.ty) (token p.id)
  | true ↦ rule4 (text "param") (type_tree p.ty) (token p.id) (token (text "[")) (token (text "]"))
]

-- The tree of a program, with the token of a `float`.
module _ (float_text : ℕ → Text) where
  unfoldable pub num_tree : Num → Tree
  num_tree (int_num n) = rule1 (text "integer") (token (to_string n))
  num_tree (float_num b) = rule1 (text "float") (token (float_text b))

  unfoldable mutual
    pub expr_tree : Expr → Tree
    expr_tree (assign v e) = rule3 (text "expression") (var_tree v) (token (text "=")) (expr_tree e)
    expr_tree (simple a) =
        rule1 (text "expression") (rule1 (text "simple-expression") (additive_tree a))
    expr_tree (compare a o b) = rule1 (text "expression") (
        rule3 (text "simple-expression") (additive_tree a)
          (rule1 (text "relop") (token (rel_text o))) (additive_tree b))

    pub var_tree : Var → Tree
    var_tree (scalar s) = rule1 (text "var") (token s)
    var_tree (element s e) =
        rule4 (text "var") (token s) (token (text "[")) (expr_tree e) (token (text "]"))

    pub additive_tree : Additive → Tree
    additive_tree (one_term t) = rule1 (text "additive-expression") (term_tree t)
    additive_tree (add a o t) =
        rule3 (text "additive-expression") (additive_tree a)
          (rule1 (text "addop") (token (add_text o))) (term_tree t)

    pub term_tree : Term → Tree
    term_tree (one_factor f) = rule1 (text "term") (factor_tree f)
    term_tree (mul t o f) =
        rule3 (text "term") (term_tree t) (rule1 (text "mulop") (token (mul_text o)))
          (factor_tree f)

    pub factor_tree : Factor → Tree
    factor_tree (paren e) =
        rule3 (text "factor") (token (text "(")) (expr_tree e) (token (text ")"))
    factor_tree (read v) = rule1 (text "factor") (var_tree v)
    factor_tree (call s es) =
        rule1 (text "factor")
          (rule4 (text "call") (token s) (token (text "(")) (args_tree es) (token (text ")")))
    factor_tree (num n) = rule1 (text "factor") (num_tree n)

    pub args_tree : Exprs → Tree
    args_tree no_exprs = rule0 (text "args")
    args_tree (expr e es) = rule1 (text "args") (
        left3 (text "arg-list") (rule1 (text "arg-list") (expr_tree e)) (token (text ","))
          (expr_trees es))

    pub expr_trees : Exprs → List Tree
    expr_trees no_exprs = []
    expr_trees (expr e es) = expr_tree e ∷ expr_trees es

  -- The token between the brackets of an array.
  unfoldable pub size_text : Num → Text
  size_text (int_num n) = to_string n
  size_text (float_num b) = float_text b

  unfoldable pub var_declaration_tree : VarDeclaration → Tree
  var_declaration_tree d = elim d.num [
    | none ↦ rule3 (text "var-declaration") (type_tree d.ty) (token d.id) (token (text ";"))
    | some n ↦ node (text "var-declaration") (
        tree (type_tree d.ty) (
          tree (token d.id) (
            tree (token (text "[")) (
              tree (token (size_text n))
                (tree (token (text "]")) (tree (token (text ";")) no_trees))))))
  ]

  abbrev pub var_declaration_trees : List VarDeclaration → List Tree
  var_declaration_trees ds = map var_declaration_tree ds

  abbrev pub compound_tree : List Tree → List Tree → Tree
  compound_tree ds ss =
      rule4 (text "compound-stmt") (token (text "{"))
        (left2 (text "local-declarations") (rule0 (text "local-declarations")) ds)
        (left2 (text "statement-list") (rule0 (text "statement-list")) ss) (token (text "}"))

  unfoldable mutual
    -- The tree below `statement`.
    pub stmt_body : Stmt → Tree
    stmt_body (compound ds ss) = compound_tree (var_declaration_trees ds) (stmt_trees ss)
    stmt_body (expression_stmt e) = rule2 (text "expression-stmt") (expr_tree e) (token (text ";"))
    stmt_body empty_stmt = rule1 (text "expression-stmt") (token (text ";"))
    stmt_body (selection e s) = node (text "selection-stmt") (
        tree (token (text "if")) (
          tree (token (text "(")) (
            tree (expr_tree e)
              (tree (token (text ")")) (tree (statement_tree (stmt_body s)) no_trees)))))
    stmt_body (selection_else e s t) = node (text "selection-stmt") (
        tree (token (text "if")) (
          tree (token (text "(")) (
            tree (expr_tree e) (
              tree (token (text ")")) (
                tree (statement_tree (stmt_body s))
                  (tree (token (text "else")) (tree (statement_tree (stmt_body t)) no_trees)))))))
    stmt_body (iteration e s) = node (text "iteration-stmt") (
        tree (token (text "while")) (
          tree (token (text "(")) (
            tree (expr_tree e)
              (tree (token (text ")")) (tree (statement_tree (stmt_body s)) no_trees)))))
    stmt_body return_void = rule2 (text "return-stmt") (token (text "return")) (token (text ";"))
    stmt_body (return_stmt e) =
        rule3 (text "return-stmt") (token (text "return")) (expr_tree e) (token (text ";"))

    pub stmt_trees : Stmts → List Tree
    stmt_trees no_stmts = []
    stmt_trees (stmt s ss) = statement_tree (stmt_body s) ∷ stmt_trees ss

  unfoldable pub params_tree : List Param → Tree
  params_tree [] = rule1 (text "params") (token (text "void"))
  params_tree (p ∷ ps) = rule1 (text "params") (
      left3 (text "param-list") (rule1 (text "param-list") (param_tree p)) (token (text ","))
        (map param_tree ps))

  unfoldable pub declaration_body : Declaration → Tree
  declaration_body (var_declaration d) = var_declaration_tree d
  declaration_body (fun_declaration d) = node (text "fun-declaration") (
      tree (type_tree d.ty) (
        tree (token d.id) (
          tree (token (text "(")) (
            tree (params_tree d.params) (
              tree (token (text ")")) (
                tree
                  (compound_tree (var_declaration_trees d.local_declarations)
                    (stmt_trees d.statement_list))
                  no_trees))))))

  unfoldable pub declaration_tree : Declaration → Tree
  declaration_tree d = rule1 (text "declaration") (declaration_body d)

  -- A program has at least one declaration.
  unfoldable pub program_tree : Declaration → List Declaration → Tree
  program_tree d ds = rule1 (text "program") (
      left2 (text "declaration-list") (rule1 (text "declaration-list") (declaration_tree d))
        (map declaration_tree ds))
