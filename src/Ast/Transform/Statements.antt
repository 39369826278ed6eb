-- ===== src/Ast/Transform/Statements.antt =====
-- The trees of declarations of variables and of statements are transformed back.
use gvn.Prelude.{
  ℕ, zero, suc, ◌<◌, ◌≤◌, ◌≡◌, refl, ap, ◌∙◌, true, Option, none, some, List, [], ◌∷◌, map, Result,
  ok, arith, is_eq, ℕ_discrete,
}
use gvn.Prelude.Texts.{Text, text, Text-discrete}
use gvn.Ast.Tree.{Tree, name, children, size, list_size}
use gvn.Ast.Types.{
  CminusType, type_int, type_float, type_void, Num, int_num, float_num, VarDeclaration, Stmt,
  compound, expression_stmt, empty_stmt, selection, selection_else, iteration, return_void,
  return_stmt, Stmts, no_stmts, stmt, var_declaration, Node,
}
use gvn.Ast.Numbers.{stoi-to_string}
use gvn.Ast.Fits.{is_value_type, FitsAll, FitsSize, FitsVarDeclaration, FitsStmt, FitsStmts}
use gvn.Ast.Grammar.{
  rule0, statement_tree, type_text, size_text, var_declaration_tree, var_declaration_trees,
  compound_tree, stmt_body, stmt_trees,
}
use gvn.Ast.Kinds.{Kind, kind_of}
use gvn.Ast.Parts.{traverse, as_statement, as_var_declaration, to_stmts, var_type}
use gvn.Ast.Transform.{
  transform, transform_kind, transform_var_declaration, transform_compound,
  transform_expression_stmt, transform_selection, transform_iteration, transform_return,
}
use gvn.Ast.Transform.Steps
use gvn.Ast.Transform.Steps.{transform_named}
use gvn.Ast.Transform.Lists.{spine2-rule0, size-left2}
use gvn.Ast.Transform.Expressions.{Back, step, expr-Back}

pub var_type-type_text : (t : CminusType) → is_value_type t ≡ true → var_type (type_text t) ≡ t
unfolding var_type type_text is_eq Text-discrete ℕ_discrete
var_type-type_text type_int h = refl
var_type-type_text type_float h = refl
var_type-type_text type_void h = ground arith

abbrev stmts_list : Stmts → List Stmt
stmts_list no_stmts = []
stmts_list (stmt s ss) = s ∷ stmts_list ss

to_stmts-stmts_list : (ss : Stmts) → to_stmts (stmts_list ss) ≡ ss
to_stmts-stmts_list no_stmts = refl
to_stmts-stmts_list (stmt s ss) = ap (λ z. stmt s z) (to_stmts-stmts_list ss)

-- A list whose members are transformed back is.
pub traverse-map :
    {A : Type 0} (rec : Tree → Result Node) (cast : Node → Result A) (tree_of : A → Tree)
    (node_of : A → Node) (P : A → Type 0) (f : ℕ)
    → ((a : A) → cast (node_of a) ≡ ok a)
    → ((a : A) → P a → size (tree_of a) < f → rec (tree_of a) ≡ ok (node_of a))
    → (xs : List A) → FitsAll P xs
    → list_size (map tree_of xs) < f
    → traverse rec cast (map tree_of xs) ≡ ok xs
unfolding traverse
traverse-map rec cast tree_of node_of P f cast_of back [] h lt = refl
traverse-map rec cast tree_of node_of P f cast_of back (x ∷ xs) h lt = rw (
  back x h.0 (omega arith),
  cast_of x,
  traverse-map rec cast tree_of node_of P f cast_of back xs h.1 (omega arith),
)

-- The token of a `float` is read by the library's `stof`.
module _ (stof : Text → Result ℕ) (float_text : ℕ → Text)
    (law : (b : ℕ) → stof (float_text b) ≡ ok b) where
  transform_var_declaration-tree :
      (rec : Tree → Result Node) (d : VarDeclaration)
      → FitsVarDeclaration d
      → transform_var_declaration stof rec (children (var_declaration_tree float_text d))
        ≡ ok (Node.declaration (var_declaration d))
  unfolding transform_var_declaration var_declaration_tree size_text is_eq ℕ_discrete
  transform_var_declaration-tree rec d h = by_num d.num h.1
    where
      by_num :
          (n : Option Num)
          → FitsSize n
          → transform_var_declaration stof rec (
              children (var_declaration_tree float_text (record { ty = d.ty; id = d.id; num = n })))
            ≡ ok (Node.declaration (var_declaration (record { ty = d.ty; id = d.id; num = n })))
      by_num none s = rw (var_type-type_text d.ty h.0)
      by_num (some (int_num n)) s = rw (var_type-type_text d.ty h.0, stoi-to_string n s)
      by_num (some (float_num b)) s = elim s [ ]

  name-var_declaration_tree :
      (d : VarDeclaration) → name (var_declaration_tree float_text d) ≡ text "var-declaration"
  unfolding var_declaration_tree
  name-var_declaration_tree d = by_num d.num
    where
      by_num :
          (n : Option Num)
          → name (var_declaration_tree float_text (record { ty = d.ty; id = d.id; num = n }))
            ≡ text "var-declaration"
      by_num none = refl
      by_num (some n) = refl

  pub var_declaration-Back :
      (f : ℕ) (d : VarDeclaration)
      → FitsVarDeclaration d
      → size (var_declaration_tree float_text d) < f
      → Back stof float_text law f
          (var_declaration_tree float_text d)
          (Node.declaration (var_declaration d))
  unfolding transform_kind
  var_declaration-Back zero d h lt = elim lt [ ]
  var_declaration-Back (suc f) d h lt =
      transform_named stof (var_declaration_tree float_text d) Kind.var_decl f
        (ap kind_of (name-var_declaration_tree d) ∙ Steps.kind_of_var_decl)
      ∙ (transform_var_declaration-tree (transform stof f) d h)

  var_declarations_back :
      (f : ℕ) (ds : List VarDeclaration)
      → FitsAll FitsVarDeclaration ds
      → list_size (var_declaration_trees float_text ds) < f
      → traverse (transform stof f) as_var_declaration (var_declaration_trees float_text ds) ≡ ok ds
  var_declarations_back f ds h lt =
      traverse-map (transform stof f) as_var_declaration (var_declaration_tree float_text)
        (λ d. Node.declaration (var_declaration d)) FitsVarDeclaration f (λ d. refl)
        (var_declaration-Back f) ds h lt

  -- Fuel for the tree of a compound statement is fuel for its declarations and its statements.
  compound_size :
      {f : ℕ} (dts sts : List Tree)
      → size (compound_tree float_text dts sts) ≤ f
      → (list_size dts < f) × (list_size sts < f)
  unfolding size
  compound_size dts sts lt =
      let d = size-left2 (text "local-declarations") (rule0 (text "local-declarations")) dts in
      let s = size-left2 (text "statement-list") (rule0 (text "statement-list")) sts in
      (omega (arith, d, s), omega (arith, d, s))

  -- The declarations and the statements between braces.
  pub transform_compound-compound_tree :
      (f : ℕ) (ds : List VarDeclaration) (sts : List Tree) (ss : Stmts)
      → FitsAll FitsVarDeclaration ds
      → size (compound_tree float_text (var_declaration_trees float_text ds) sts) ≤ f
      → traverse (transform stof f) as_statement sts ≡ ok (stmts_list ss)
      → transform_compound stof
          (transform stof f)
          (children (compound_tree float_text (var_declaration_trees float_text ds) sts))
        ≡ ok (Node.statement (compound ds ss))
  unfolding transform_compound size
  transform_compound-compound_tree f ds sts ss h lt e = rw (
    spine2-rule0 (text "local-declarations") (var_declaration_trees float_text ds),
    var_declarations_back f ds h (compound_size (var_declaration_trees float_text ds) sts lt).0,
    spine2-rule0 (text "statement-list") sts,
    e,
    to_stmts-stmts_list ss,
  )

  abbrev pub StmtBack : ℕ → Type 0
  StmtBack f =
      (s : Stmt)
      → FitsStmt s
      → size (statement_tree (stmt_body float_text s)) < f
      → Back stof float_text law f (statement_tree (stmt_body float_text s)) (Node.statement s)

  pub stmts_back :
      (f : ℕ)
      → StmtBack f
      → (ss : Stmts) → FitsStmts ss
      → list_size (stmt_trees float_text ss) < f
      → traverse (transform stof f) as_statement (stmt_trees float_text ss) ≡ ok (stmts_list ss)
  unfolding traverse stmt_trees FitsStmts
  stmts_back f back no_stmts h lt = refl
  stmts_back f back (stmt s ss) h lt =
      rw (back s h.0 (omega arith), stmts_back f back ss h.1 (omega arith))

  mutual
    unfolding stmt_body size FitsStmt transform_kind transform_expression_stmt transform_selection
        transform_iteration transform_return is_eq Text-discrete ℕ_discrete

    pub stmt-Back :
        (f : ℕ) (s : Stmt)
        → FitsStmt s
        → size (statement_tree (stmt_body float_text s)) < f
        → Back stof float_text law f (statement_tree (stmt_body float_text s)) (Node.statement s)
    stmt-Back zero s h lt = elim lt [ ]
    stmt-Back (suc f) s h lt =
        step stof float_text law _ _ f _ _ Steps.kind_of_statement (body-Back f s h (omega arith))

    body-Back :
        (f : ℕ) (s : Stmt)
        → FitsStmt s
        → size (stmt_body float_text s) < f
        → Back stof float_text law f (stmt_body float_text s) (Node.statement s)
    body-Back zero s h lt = elim lt [ ]
    body-Back (suc f) (compound ds ss) h lt =
        step stof float_text law _ _ f _ _ Steps.kind_of_compound_stmt (
          transform_compound-compound_tree f ds (stmt_trees float_text ss) ss h.0 (omega arith) (
            stmts_back f (stmt-Back f) ss h.1
              (compound_size (var_declaration_trees float_text ds) (stmt_trees float_text ss)
                (omega arith)).1))
    body-Back (suc f) (expression_stmt e) h lt =
        step stof float_text law _ _ f _ _ Steps.kind_of_expression_statement
          (rw (expr-Back stof float_text law f e h (omega arith)))
    body-Back (suc f) empty_stmt h lt =
        step stof float_text law _ _ f _ _ Steps.kind_of_expression_statement refl
    body-Back (suc f) (selection e s) h lt =
        step stof float_text law _ _ f _ _ Steps.kind_of_selection_stmt (
          rw (expr-Back stof float_text law f e h.0 (omega arith), stmt-Back f s h.1 (omega arith)))
    body-Back (suc f) (selection_else e s t) h lt =
        step stof float_text law _ _ f _ _ Steps.kind_of_selection_stmt (
          rw (
            expr-Back stof float_text law f e h.0 (omega arith),
            stmt-Back f s h.1 (omega arith),
            stmt-Back f t h.2 (omega arith),
          ))
    body-Back (suc f) (iteration e s) h lt =
        step stof float_text law _ _ f _ _ Steps.kind_of_iteration_stmt (
          rw (expr-Back stof float_text law f e h.0 (omega arith), stmt-Back f s h.1 (omega arith)))
    body-Back (suc f) return_void h lt =
        step stof float_text law _ _ f _ _ Steps.kind_of_return_statement refl
    body-Back (suc f) (return_stmt e) h lt =
        step stof float_text law _ _ f _ _ Steps.kind_of_return_statement
          (rw (expr-Back stof float_text law f e h (omega arith)))

  pub compound-Back :
      (f : ℕ) (ds : List VarDeclaration) (ss : Stmts)
      → FitsAll FitsVarDeclaration ds
      → FitsStmts ss
      → size (
          compound_tree float_text (var_declaration_trees float_text ds) (stmt_trees float_text ss))
        < f
      → Back stof float_text law f
          (compound_tree float_text
            (var_declaration_trees float_text ds)
            (stmt_trees float_text ss))
          (Node.statement (compound ds ss))
  unfolding stmt_body FitsStmt
  compound-Back f ds ss h k lt = body-Back f (compound ds ss) (h, k) lt
