-- ===== src/Ast/Fits.antt =====
-- The programs whose trees the transformation of src/common/ast.cpp reads back.
use gvn.Prelude.{◌≤◌, ◌≡◌, Bool, true, false, Option, none, some, List, [], ◌∷◌}
use gvn.Ast.Types.{
  CminusType, type_void, Num, int_num, float_num, Expr, assign, simple, compare, Var, scalar,
  element, Additive, one_term, add, Term, one_factor, mul, Factor, paren, read, call, num, Exprs,
  no_exprs, expr, VarDeclaration, Param, Stmt, compound, expression_stmt, empty_stmt, selection,
  selection_else, iteration, return_void, return_stmt, Stmts, no_stmts, stmt, Declaration,
  var_declaration, fun_declaration,
}
use gvn.Ast.Numbers.{int_max}

-- What a program must meet to have a tree: each number is an `int`, and no variable or parameter is
-- `void` (the rules allow that, and the transformation reads it as `float`).
abbrev pub FitsNum : Num → Type 0
FitsNum (int_num n) = n ≤ int_max
FitsNum (float_num b) = Unit

abbrev pub is_value_type : CminusType → Bool
is_value_type type_void = false
is_value_type _ = true

abbrev pub FitsSize : Option Num → Type 0
FitsSize none = Unit
FitsSize (some (int_num n)) = n ≤ int_max
FitsSize (some (float_num b)) = ⊥

abbrev pub FitsVarDeclaration : VarDeclaration → Type 0
FitsVarDeclaration d = (is_value_type d.ty ≡ true) × FitsSize d.num

abbrev pub FitsAll : {A : Type 0} → (A → Type 0) → List A → Type 0
FitsAll P [] = Unit
FitsAll P (x ∷ xs) = P x × FitsAll P xs

unfoldable mutual
  pub FitsExpr : Expr → Type 0
  FitsExpr (assign v e) = FitsVar v × FitsExpr e
  FitsExpr (simple a) = FitsAdditive a
  FitsExpr (compare a o b) = FitsAdditive a × FitsAdditive b

  pub FitsVar : Var → Type 0
  FitsVar (scalar s) = Unit
  FitsVar (element s e) = FitsExpr e

  pub FitsAdditive : Additive → Type 0
  FitsAdditive (one_term t) = FitsTerm t
  FitsAdditive (add a o t) = FitsAdditive a × FitsTerm t

  pub FitsTerm : Term → Type 0
  FitsTerm (one_factor f) = FitsFactor f
  FitsTerm (mul t o f) = FitsTerm t × FitsFactor f

  pub FitsFactor : Factor → Type 0
  FitsFactor (paren e) = FitsExpr e
  FitsFactor (read v) = FitsVar v
  FitsFactor (call s es) = FitsExprs es
  FitsFactor (num n) = FitsNum n

  pub FitsExprs : Exprs → Type 0
  FitsExprs no_exprs = Unit
  FitsExprs (expr e es) = FitsExpr e × FitsExprs es

unfoldable mutual
  pub FitsStmt : Stmt → Type 0
  FitsStmt (compound ds ss) = FitsAll FitsVarDeclaration ds × FitsStmts ss
  FitsStmt (expression_stmt e) = FitsExpr e
  FitsStmt empty_stmt = Unit
  FitsStmt (selection e s) = FitsExpr e × FitsStmt s
  FitsStmt (selection_else e s t) = FitsExpr e × FitsStmt s × FitsStmt t
  FitsStmt (iteration e s) = FitsExpr e × FitsStmt s
  FitsStmt return_void = Unit
  FitsStmt (return_stmt e) = FitsExpr e

  pub FitsStmts : Stmts → Type 0
  FitsStmts no_stmts = Unit
  FitsStmts (stmt s ss) = FitsStmt s × FitsStmts ss

abbrev pub FitsParam : Param → Type 0
FitsParam p = is_value_type p.ty ≡ true

abbrev pub FitsDeclaration : Declaration → Type 0
FitsDeclaration (var_declaration d) = FitsVarDeclaration d
FitsDeclaration (fun_declaration d) =
    FitsAll FitsParam d.params
    × FitsAll FitsVarDeclaration d.local_declarations
    × FitsStmts d.statement_list
