-- ===== src/Ast/Types.antt =====
-- The classes of the abstract syntax tree (include/ast.hpp). Where a pointer may be null, there is a
-- constructor for each case; a subclass is a constructor of its base.
use gvn.Prelude.{ℕ, Bool, Option, List}
use gvn.Prelude.Texts.{Text}

pub data CminusType : Type 0 where
  type_int type_float type_void : CminusType

pub data RelOp : Type 0 where
  op_le op_lt op_gt op_ge op_eq op_neq : RelOp

pub data AddOp : Type 0 where
  op_plus op_minus : AddOp

pub data MulOp : Type 0 where
  op_mul op_div : MulOp

-- ASTNum: an `int`, which is never negative here, or a `float`, by its bits.
pub data Num : Type 0 where
  int_num : ℕ → Num
  float_num : ℕ → Num

-- ASTExpression is `assign` (ASTAssignExpression), `simple` or `compare` (ASTSimpleExpression
-- without and with a right side). ASTFactor is an expression, an ASTVar, an ASTCall or an ASTNum.
mutual
  pub data Expr : Type 0 where
    assign : Var → Expr → Expr
    simple : Additive → Expr
    compare : Additive → RelOp → Additive → Expr

  pub data Var : Type 0 where
    scalar : Text → Var
    element : Text → Expr → Var

  pub data Additive : Type 0 where
    one_term : Term → Additive
    add : Additive → AddOp → Term → Additive

  pub data Term : Type 0 where
    one_factor : Factor → Term
    mul : Term → MulOp → Factor → Term

  pub data Factor : Type 0 where
    paren : Expr → Factor
    read : Var → Factor
    call : Text → Exprs → Factor
    num : Num → Factor

  pub data Exprs : Type 0 where
    no_exprs : Exprs
    expr : Expr → Exprs → Exprs

pub record VarDeclaration : Type 0 where
  pub ty : CminusType
  pub id : Text
  pub num : Option Num

pub record Param : Type 0 where
  pub ty : CminusType
  pub id : Text
  pub isarray : Bool

-- ASTStatement: `compound`, `expression_stmt` (`empty_stmt` without an expression), `selection` (or
-- `selection_else`), `iteration` and `return_stmt` (or `return_void`).
mutual
  pub data Stmt : Type 0 where
    compound : List VarDeclaration → Stmts → Stmt
    expression_stmt : Expr → Stmt
    empty_stmt : Stmt
    selection : Expr → Stmt → Stmt
    selection_else : Expr → Stmt → Stmt → Stmt
    iteration : Expr → Stmt → Stmt
    return_void : Stmt
    return_stmt : Expr → Stmt

  pub data Stmts : Type 0 where
    no_stmts : Stmts
    stmt : Stmt → Stmts → Stmts

pub record FunDeclaration : Type 0 where
  pub ty : CminusType
  pub id : Text
  pub params : List Param
  pub local_declarations : List VarDeclaration
  pub statement_list : Stmts

pub data Declaration : Type 0 where
  var_declaration : VarDeclaration → Declaration
  fun_declaration : FunDeclaration → Declaration

-- An `ASTNode *`.
pub data Node : Type 0 where
  program : List Declaration → Node
  declaration : Declaration → Node
  param : Param → Node
  statement : Stmt → Node
  expression : Expr → Node
  variable : Var → Node
  additive : Additive → Node
  term : Term → Node
  call_node : Text → Exprs → Node
  number : Num → Node
