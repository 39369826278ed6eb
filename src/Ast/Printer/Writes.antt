-- ===== src/Ast/Printer/Writes.antt =====
-- The visits write the outline and leave the depth as it was.
use gvn.Prelude.{
  ℕ, ◌+◌, ◌≡◌, ap, ap₂, sym, ◌∙◌, Bool, true, false, Option, none, some, List, [], ◌∷◌, ◌++◌,
  append-nil, append_assoc, arith,
}
use gvn.Prelude.Texts.{Text, text}
use gvn.Ast.Tree.{Tree, Trees, node, no_trees, tree}
use gvn.Ast.Types.{
  Num, int_num, float_num, Expr, assign, simple, compare, Var, scalar, element, Additive, one_term,
  add, Term, one_factor, mul, Factor, paren, read, call, num, Exprs, no_exprs, expr, VarDeclaration,
  Param, Stmt, compound, expression_stmt, empty_stmt, selection, selection_else, iteration,
  return_void, return_stmt, Stmts, no_stmts, stmt, Declaration, var_declaration, fun_declaration,
}
use gvn.Ast.Numbers.{to_string}
use gvn.Ast.Printer.{
  Printer, dashes, print_line, add_depth, remove_depth, visit_num, visit_expr, visit_var,
  visit_additive, visit_term, visit_factor, visit_exprs, visit_var_declaration,
  visit_var_declarations, visit_stmt, visit_stmts, visit_param, visit_params, visit_declaration,
  visit_declarations, visit_program,
}
use gvn.Ast.Printer.Outline.{
  render, renders, outline_num, outline_expr, outline_var, outline_additive, outline_term,
  outline_factor, outline_exprs, outline_var_declaration, outline_var_declarations, outline_stmt,
  outline_stmts, outline_param, outline_params, outline_declaration, outline_declarations,
  outline_program,
}

-- The printer after it has written a text.
abbrev pub wrote : Printer → Text → Printer
wrote p s = record { depth = p.depth; out = p.out ++ s }

-- A visit writes one tree, or several.
abbrev Draws : (Printer → Printer) → Tree → Type 0
Draws k t = (p : Printer) → k p ≡ wrote p (render p.depth t)

abbrev Writes : (Printer → Printer) → Trees → Type 0
Writes k ts = (p : Printer) → k p ≡ wrote p (renders p.depth ts)

wrote-wrote : (p : Printer) (s u : Text) → wrote (wrote p s) u ≡ wrote p (s ++ u)
wrote-wrote p s u = ap (λ z. record { depth = p.depth; out = z }) (append_assoc p.out s u)

none-Writes : Writes (λ p. p) no_trees
unfolding renders
none-Writes p = ap (λ z. record { depth = p.depth; out = z }) (sym (append-nil p.out))

then-Writes :
    {k l : Printer → Printer} (t : Tree) (ts : Trees)
    → Draws k t
    → Writes l ts
    → Writes (λ p. l (k p)) (tree t ts)
unfolding renders
then-Writes {l = l} t ts draws writes p =
    ap l (draws p)
    ∙ writes (wrote p (render p.depth t))
    ∙ wrote-wrote p (render p.depth t) (renders p.depth ts)

line-Draws : (s : Text) → Draws (print_line s) (node s no_trees)
unfolding render renders print_line
line-Draws s p = ap (λ z. wrote p z) (sym (append-nil (dashes p.depth ++ s ++ 10 ∷ [])))

block-Draws :
    (s : Text) {k : Printer → Printer} (ts : Trees)
    → Writes k ts
    → Draws (λ p. remove_depth (k (add_depth (print_line s p)))) (node s ts)
unfolding render print_line add_depth remove_depth
block-Draws s {k} ts writes p =
    let line = dashes p.depth ++ s ++ 10 ∷ [] in
    ap remove_depth (writes (record { depth = p.depth + 2; out = p.out ++ line }))
    ∙ ap₂ (λ d o. record { depth = d; out = o }) (omega arith)
        (append_assoc p.out line (renders (p.depth + 2) ts))

module _ (float_out : ℕ → Text) where
  num-Draws : (n : Num) → Draws (visit_num float_out n) (outline_num float_out n)
  unfolding visit_num outline_num
  num-Draws (int_num n) = line-Draws (text "num (int): " ++ to_string n)
  num-Draws (float_num b) = line-Draws (text "num (float): " ++ float_out b)

  mutual
    unfolding visit_expr visit_var visit_additive visit_term visit_factor visit_exprs outline_expr
        outline_var outline_additive outline_term outline_factor outline_exprs

    expr-Draws : (e : Expr) → Draws (visit_expr float_out e) (outline_expr float_out e)
    expr-Draws (assign v e) =
        block-Draws _ _ (then-Writes _ _ (var-Draws v) (then-Writes _ _ (expr-Draws e) none-Writes))
    expr-Draws (simple a) = block-Draws _ _ (then-Writes _ _ (additive-Draws a) none-Writes)
    expr-Draws (compare a o b) =
        block-Draws _ _
          (then-Writes _ _ (additive-Draws a) (then-Writes _ _ (additive-Draws b) none-Writes))

    var-Draws : (v : Var) → Draws (visit_var float_out v) (outline_var float_out v)
    var-Draws (scalar s) = line-Draws (text "var: " ++ s)
    var-Draws (element s e) = block-Draws _ _ (then-Writes _ _ (expr-Draws e) none-Writes)

    additive-Draws :
        (a : Additive) → Draws (visit_additive float_out a) (outline_additive float_out a)
    additive-Draws (one_term t) = block-Draws _ _ (then-Writes _ _ (term-Draws t) none-Writes)
    additive-Draws (add a o t) =
        block-Draws _ _
          (then-Writes _ _ (additive-Draws a) (then-Writes _ _ (term-Draws t) none-Writes))

    term-Draws : (t : Term) → Draws (visit_term float_out t) (outline_term float_out t)
    term-Draws (one_factor f) = block-Draws _ _ (then-Writes _ _ (factor-Draws f) none-Writes)
    term-Draws (mul t o f) =
        block-Draws _ _
          (then-Writes _ _ (term-Draws t) (then-Writes _ _ (factor-Draws f) none-Writes))

    factor-Draws : (f : Factor) → Draws (visit_factor float_out f) (outline_factor float_out f)
    factor-Draws (paren e) = expr-Draws e
    factor-Draws (read v) = var-Draws v
    factor-Draws (call s es) = block-Draws _ _ (exprs-Writes es)
    factor-Draws (num n) = num-Draws n

    exprs-Writes : (es : Exprs) → Writes (visit_exprs float_out es) (outline_exprs float_out es)
    exprs-Writes no_exprs = none-Writes
    exprs-Writes (expr e es) = then-Writes _ _ (expr-Draws e) (exprs-Writes es)

  var_declaration-Draws :
      (d : VarDeclaration)
      → Draws (visit_var_declaration float_out d) (outline_var_declaration float_out d)
  unfolding visit_var_declaration outline_var_declaration
  var_declaration-Draws d = by_num d.num
    where
      by_num :
          (n : Option Num)
          → Draws
              (visit_var_declaration float_out (record { ty = d.ty; id = d.id; num = n }))
              (outline_var_declaration float_out (record { ty = d.ty; id = d.id; num = n }))
      by_num none = line-Draws (text "var-declaration: " ++ d.id)
      by_num (some n) =
          block-Draws (text "var-declaration: " ++ d.id ++ text "[]") _
            (then-Writes _ _ (num-Draws n) none-Writes)

  var_declarations-Writes :
      (ds : List VarDeclaration) {l : Printer → Printer} (ts : Trees)
      → Writes l ts
      → Writes
          (λ p. l (visit_var_declarations float_out ds p))
          (outline_var_declarations float_out ds ts)
  unfolding visit_var_declarations outline_var_declarations
  var_declarations-Writes [] ts writes = writes
  var_declarations-Writes (d ∷ ds) ts writes =
      then-Writes _ _ (var_declaration-Draws d) (var_declarations-Writes ds ts writes)

  mutual
    unfolding visit_stmt visit_stmts outline_stmt outline_stmts

    stmt-Draws : (s : Stmt) → Draws (visit_stmt float_out s) (outline_stmt float_out s)
    stmt-Draws (compound ds ss) = block-Draws _ _ (var_declarations-Writes ds _ (stmts-Writes ss))
    stmt-Draws (expression_stmt e) = block-Draws _ _ (then-Writes _ _ (expr-Draws e) none-Writes)
    stmt-Draws empty_stmt = block-Draws _ _ none-Writes
    stmt-Draws (selection e s) =
        block-Draws _ _
          (then-Writes _ _ (expr-Draws e) (then-Writes _ _ (stmt-Draws s) none-Writes))
    stmt-Draws (selection_else e s t) = block-Draws _ _ (
        then-Writes _ _ (expr-Draws e)
          (then-Writes _ _ (stmt-Draws s) (then-Writes _ _ (stmt-Draws t) none-Writes)))
    stmt-Draws (iteration e s) =
        block-Draws _ _
          (then-Writes _ _ (expr-Draws e) (then-Writes _ _ (stmt-Draws s) none-Writes))
    stmt-Draws return_void = line-Draws (text "return-stmt" ++ text ": void")
    stmt-Draws (return_stmt e) = block-Draws _ _ (then-Writes _ _ (expr-Draws e) none-Writes)

    stmts-Writes : (ss : Stmts) → Writes (visit_stmts float_out ss) (outline_stmts float_out ss)
    stmts-Writes no_stmts = none-Writes
    stmts-Writes (stmt s ss) = then-Writes _ _ (stmt-Draws s) (stmts-Writes ss)

  param-Draws : (q : Param) → Draws (visit_param q) (outline_param q)
  unfolding visit_param outline_param
  param-Draws q = by_isarray q.isarray
    where
      by_isarray :
          (b : Bool)
          → Draws
              (visit_param (record { ty = q.ty; id = q.id; isarray = b }))
              (outline_param (record { ty = q.ty; id = q.id; isarray = b }))
      by_isarray true = line-Draws (text "param: " ++ q.id ++ text "[]")
      by_isarray false = line-Draws (text "param: " ++ q.id)

  params-Writes :
      (qs : List Param) {l : Printer → Printer} (ts : Trees)
      → Writes l ts
      → Writes (λ p. l (visit_params qs p)) (outline_params qs ts)
  unfolding visit_params outline_params
  params-Writes [] ts writes = writes
  params-Writes (q ∷ qs) ts writes = then-Writes _ _ (param-Draws q) (params-Writes qs ts writes)

  declaration-Draws :
      (d : Declaration) → Draws (visit_declaration float_out d) (outline_declaration float_out d)
  unfolding visit_declaration outline_declaration
  declaration-Draws (var_declaration d) = var_declaration-Draws d
  declaration-Draws (fun_declaration d) = block-Draws (text "fun-declaration: " ++ d.id) _ (
      params-Writes d.params _
        (then-Writes _ _ (stmt-Draws (compound d.local_declarations d.statement_list)) none-Writes))

  declarations-Writes :
      (ds : List Declaration)
      → Writes (visit_declarations float_out ds) (outline_declarations float_out ds)
  unfolding visit_declarations outline_declarations
  declarations-Writes [] = none-Writes
  declarations-Writes (d ∷ ds) = then-Writes _ _ (declaration-Draws d) (declarations-Writes ds)

  -- The printer, at any depth, writes a program as its outline at that depth (each object on a line
  -- of its own, under the object that holds it, two dashes deeper), and its depth is then what it
  -- was.
  pub visit_program-render :
      (ds : List Declaration) (p : Printer)
      → visit_program float_out ds p ≡ wrote p (render p.depth (outline_program float_out ds))
  unfolding visit_program
  visit_program-render ds p = block-Draws (text "program") _ (declarations-Writes ds) p
