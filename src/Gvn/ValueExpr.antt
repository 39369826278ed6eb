-- ===== src/Gvn/ValueExpr.antt =====
-- GVN::valueExpr: the value expression of an instruction (src/optimization/GVN.cpp).
use gvn.Prelude.{
  ℕ, Bool, not, List, [], ◌∷◌, if◌then◌else◌, is_eq, contains, Result, ok, fault, no_element, ◌>>=◌,
}
use gvn.Prelude.Texts.{Text, Text-discrete}
use gvn.Ir.Opcodes.{OpId}
use gvn.Ir.Constants.{FloatOps, null_const}
use gvn.Ir.Module.{Module, Value, constant, object, Instr, get_name, is_void, is_binary, value_eq}
use gvn.Passes.FuncInfo.{operand}
use gvn.Gvn.Fold.{compute_instr, compute_unary}
use gvn.Gvn.Expr.{Expr, Args, null, var, bin, cmp, fcmp, only, gep, no_args, arg, is_null}
use gvn.Gvn.Class.{CongruenceClass, Partitions, phi_expr}

-- An operand while the classes are searched: the value, which becomes a constant once a class that
-- a constant leads is found, and the expression found so far.
pub record Found : Type 0 where
  pub value : Value
  pub expr : Expr

abbrev pub names_eq : Text → Text → Bool
names_eq s t = is_eq Text-discrete s t

-- A leader that is nullptr is no constant.
abbrev pub leader_or : Value → Value → Value
leader_or (constant null_const) v = v
leader_or (constant c) v = constant c
leader_or (object a) v = v

abbrev pub prefer : Expr → Expr → Expr
prefer e old = if is_null e then old else e

-- The body of the loops: `vv` has the operand's name.
unfoldable pub take_class : CongruenceClass → Found → Found
take_class cc' f = record {
  value = leader_or cc'.leader f.value;
  expr = prefer cc'.value_expr (prefer (phi_expr cc'.value_phi) f.expr);
}

unfoldable pub visit_member : Module → CongruenceClass → Found → ℕ → Found
visit_member m cc' f vv = if names_eq (get_name m f.value) (m.name vv) then take_class cc' f else f

unfoldable pub visit_members : Module → CongruenceClass → List ℕ → Found → Found
visit_members m cc' [] f = f
visit_members m cc' (vv ∷ vs) f = visit_members m cc' vs (visit_member m cc' f vv)

unfoldable pub visit_classes : Module → Partitions → Found → Found
visit_classes m [] f = f
visit_classes m (c ∷ cs) f = visit_classes m cs (visit_members m c c.members f)

-- An operand of a binary instruction or a comparison: a constant is its own expression; of any
-- other value the classes are searched, from its name.
unfoldable pub find_operand : Module → Partitions → Value → Found
find_operand m pin (constant c) = record { value = constant c; expr = Expr.constant c }
find_operand m pin (object a) =
    visit_classes m pin (record { value = object a; expr = var (m.name a) })

-- An argument of a call or a getelementptr: a constant found by the search is the expression.
abbrev pub as_constant_expr : Found → Expr
as_constant_expr f = elim f.value [ constant c ↦ Expr.constant c | object a ↦ f.expr ]

unfoldable pub argument_expr : Module → Partitions → Value → Expr
argument_expr m pin v = as_constant_expr (find_operand m pin v)

unfoldable pub argument_exprs : Module → Partitions → List Value → Args
argument_exprs m pin [] = no_args
argument_exprs m pin (v ∷ vs) = arg (argument_expr m pin v) (argument_exprs m pin vs)

-- The arguments of a call leave out every operand that is the callee.
unfoldable pub without : Value → List Value → List Value
without f [] = []
without f (v ∷ vs) = if value_eq v f then without f vs else v ∷ without f vs

module _ (fl : FloatOps) (m : Module) (is_pure : ℕ → Bool) (pin : Partitions) where
  -- Two operands that are constants are folded; else the operator is applied.
  abbrev pub fold_or : OpId → Instr → Expr → Found → Found → Result Expr
  fold_or op i e f1 f2 = elim f1.value [
    | constant c ↦ elim f2.value [
      | constant d ↦ compute_instr fl op i.cmp_op c d >>= λ r. ok (Expr.constant r)
      | object b ↦ ok e
    ]
    | object a ↦ ok e
  ]

  -- The branches for isBinary, is_cmp and is_fcmp.
  unfoldable pub binary_expr : Instr → (Expr → Expr → Expr) → Result Expr
  binary_expr i make = do
    op1 ← operand i 0
    op2 ← operand i 1
    let f1 = find_operand m pin op1
    let f2 = find_operand m pin op2
    fold_or i.op_id i (make f1.expr f2.expr) f1 f2

  -- The branch for is_call: `at` of FuncInfo throws for a callee that is no listed function.
  unfoldable pub call_expr : ℕ → Instr → Result Expr
  call_expr self i = operand i 0 >>= λ callee. elim callee [
    | constant c ↦ fault no_element
    | object f ↦
        if not (contains m.function_list f)
        then fault no_element
        else if is_pure f
        then ok (Expr.call f (argument_exprs m pin (without (object f) i.operands)))
        else ok (var (m.name self))
  ]

  -- The branches for is_fp2si, is_si2fp and is_zext start from the name of the instruction, not of
  -- the operand; zext takes no constant leader.
  unfoldable pub cast_expr : ℕ → Instr → Result Expr
  cast_expr self i = operand i 0 >>= λ op.
      let f = visit_classes m pin (record { value = op; expr = var (m.name self) }) in
      elim f.value [
        | constant c ↦ compute_unary fl i.op_id c >>= λ r. ok (Expr.constant r)
        | object a ↦ ok (only i.op_id f.expr)
      ]

  -- The search of the zext branch: the value stays the operand.
  unfoldable pub visit_member_zext : Text → CongruenceClass → Expr → List ℕ → Expr
  visit_member_zext name cc' e [] = e
  visit_member_zext name cc' e (vv ∷ vs) =
      visit_member_zext name cc'
        (if names_eq name (m.name vv)
          then prefer cc'.value_expr (prefer (phi_expr cc'.value_phi) e)
          else e)
        vs

  unfoldable pub visit_classes_zext : Text → Partitions → Expr → Expr
  visit_classes_zext name [] e = e
  visit_classes_zext name (c ∷ cs) e =
      visit_classes_zext name cs (visit_member_zext name c e c.members)

  unfoldable pub zext_expr : ℕ → Instr → Result Expr
  zext_expr self i = operand i 0 >>= λ op.
      ok (only i.op_id (visit_classes_zext (get_name m op) pin (var (m.name self))))

  -- The chain of tests of valueExpr for opcodes that are not binary.
  unfoldable pub other_expr : ℕ → Instr → OpId → Result Expr
  other_expr self i OpId.cmp = binary_expr i (cmp i.cmp_op)
  other_expr self i OpId.fcmp = binary_expr i (fcmp i.cmp_op)
  other_expr self i OpId.call = call_expr self i
  other_expr self i OpId.getelementptr = ok (gep i.own_ty (argument_exprs m pin i.operands))
  other_expr self i OpId.fptosi = cast_expr self i
  other_expr self i OpId.sitofp = cast_expr self i
  other_expr self i OpId.zext = zext_expr self i
  other_expr self i OpId.phi = ok null
  other_expr self i _ = if is_void i then ok null else ok (var (m.name self))

  -- valueExpr of the instruction `i` at the address `self`.
  unfoldable pub value_expr_of : ℕ → Instr → Result Expr
  value_expr_of self i =
      if is_binary i then binary_expr i (bin i.op_id) else other_expr self i i.op_id
