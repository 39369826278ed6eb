-- ===== src/Tests/Gvn.antt =====
-- Value numbering on small inputs: 104 computes again the sum that 102 holds.
use gvn.Prelude.{
  ℕ, ◌≡◌, refl, ◌≢◌, ◌⊎◌, overflow, true, none, some, List, [], ◌∷◌, ◌*◌, ◌+◌, ◌%◌, ◌<◌, ok, fault,
  out_of_fuel, arith, is_eq, ℕ_discrete,
}
use gvn.Prelude.Integers.{ℤ, pos, negsuc, ◌/ℤ◌, magnitude}
use gvn.Prelude.Texts.{text, Text-discrete}
use gvn.Ir.Types.{int32_ty}
use gvn.Ir.Opcodes.{OpId, eq}
use gvn.Ir.Constants.{int_const}
use gvn.Ir.Module.{Module, Instr, Object, Value, object, is_binary}
use gvn.Gvn.Expr.{Expr, var, bin, expr_eq, phi, ptr_eq}
use gvn.Gvn.Fold.{compute_instr, int_arith, get_const_int_value}
use gvn.Gvn.Fold.Laws.{compute-IsExact, compute-sdiv, minus, IsExact, IsInt, HasSign}
use gvn.Gvn.Class.{
  CongruenceClass, Partitions, Counter, together, insert_class, insert_member, phi_ptr_eq,
}
use gvn.Gvn.Class.Sets.{AllRising}
use gvn.Gvn.Join
use gvn.Gvn.Join.Meet.{join-together}
use gvn.Gvn.ValueExpr.{value_expr_of}
use gvn.Gvn.ValueExpr
use gvn.Gvn.ValuePhi.{value_phi_func, over_phis}
use gvn.Gvn.ValuePhi.Depth.{value_phi_func-ends, depth}
use gvn.Gvn.Transfer
use gvn.Gvn.Transfer.{transfer_function}
use gvn.Gvn.Transfer.Congruence.{
  transfer_function-others, transfer_function-congruent, transfer_function-holds,
}
use gvn.Tests.Sample.{plain, find_or, sample, floats, class_of, no_pure}

abbrev sum_of : List Value → Object
sum_of vs = plain OpId.add int32_ty vs 1

abbrev sums : Module
sums = record sample {
  at = find_or (Object.argument int32_ty) (
      (102, sum_of (object 100 ∷ object 101 ∷ []))
      ∷ (104, sum_of (object 100 ∷ object 101 ∷ []))
      ∷ []);
  name = find_or [] (
      (100, text "a")
      ∷ (101, text "b")
      ∷ (102, text "op2")
      ∷ (103, text "op3")
      ∷ (104, text "op4")
      ∷ []);
}

abbrev again : Instr
again = record {
  op_id = OpId.add;
  ty = int32_ty;
  operands = object 100 ∷ object 101 ∷ [];
  parent = 1;
  cmp_op = eq;
  own_ty = int32_ty;
  l_val = object 104;
}

abbrev the_sum : Expr
the_sum = bin OpId.add (var (text "a")) (var (text "b"))

abbrev before : Partitions
before =
    class_of 1 (var (text "a")) (100 ∷ [])
    ∷ class_of 2 (var (text "b")) (101 ∷ [])
    ∷ class_of 3 the_sum (102 ∷ 103 ∷ [])
    ∷ []

abbrev other : Partitions
other =
    class_of 1 (var (text "a")) (100 ∷ []) ∷ class_of 4 (var (text "c")) (101 ∷ 102 ∷ 103 ∷ []) ∷ []

abbrev counter : Counter
counter = record { next_value_number = 5; next_addr = 0 }

abbrev no_pout : ℕ → Partitions
no_pout b = []

before-AllRising : AllRising before
before-AllRising = ((omega arith, tt), ((omega arith, tt), ((omega arith, (omega arith, tt)), tt)))

sum_value : value_expr_of floats sums no_pure before 104 again ≡ ok the_sum
unfolding value_expr_of ValueExpr.binary_expr ValueExpr.find_operand ValueExpr.visit_classes
    ValueExpr.visit_members ValueExpr.visit_member ValueExpr.take_class is_binary is_eq
    Text-discrete ℕ_discrete
sum_value = refl

sum_phi : value_phi_func floats sums no_pout 3 the_sum before 1 0 ≡ ok (none, 0)
unfolding value_phi_func over_phis
sum_phi = refl

after :
    (r : Partitions × Counter) × (transfer_function floats sums no_pure no_pout 3 104 again 1 before
        counter
      ≡ ok r)
after =
    let (r, e, _) =
      transfer_function-congruent floats sums no_pure no_pout 3 104 again 1 before counter the_sum
        none 0 102 before-AllRising refl sum_value sum_phi (omega arith) in
    (r, e)

transfer_function-others_example : together after.0.0 102 103 ≡ true
transfer_function-others_example =
    transfer_function-others floats sums no_pure no_pout 3 104 again 1 before counter after.0 102
      103 before-AllRising (omega arith) (omega arith) after.1

transfer_function-holds_example : together after.0.0 104 104 ≡ true
transfer_function-holds_example =
    transfer_function-holds floats sums no_pure no_pout 3 104 again 1 before counter after.0 refl
      refl after.1

join-together_example : (together before 102 103 ≡ true) × (together other 102 103 ≡ true)
unfolding Join.join Join.is_top Join.join_outer Join.join_inner Join.join_step Join.intersect
    Join.renumbered Join.with_phi Join.numbered Join.meet_members Join.meet_inner Join.meet_step
    Join.agreed insert_member insert_class ptr_eq expr_eq phi_ptr_eq is_eq Text-discrete ℕ_discrete
join-together_example = join-together before other counter 102 103 refl refl refl

meeting :
    (c : CongruenceClass) × (k : Counter) × (Join.intersect
        (class_of 3 the_sum (102 ∷ 103 ∷ []))
        (class_of 4 (var (text "c")) (101 ∷ 102 ∷ 103 ∷ []))
        counter
      ≡ (some c, k))
unfolding Join.intersect Join.renumbered Join.with_phi Join.numbered Join.meet_members
    Join.meet_inner Join.meet_step Join.agreed insert_member ptr_eq expr_eq phi_ptr_eq is_eq
    Text-discrete ℕ_discrete
meeting = (_, _, refl)

abbrev phis : Expr
phis = bin OpId.add (phi (var (text "a")) (var (text "b"))) (phi (var (text "c")) (var (text "d")))

value_phi_func-ends_example :
    value_phi_func floats sums no_pout 4 phis before 1 0 ≢ fault out_of_fuel
unfolding depth
value_phi_func-ends_example =
    value_phi_func-ends floats sums no_pout 4 phis before 1 0 (omega arith)

compute-IsExact_example :
    (v : ℤ) × IsExact OpId.sub (pos 2) (pos 5) v
    × ((IsInt v
          × (compute_instr floats OpId.sub eq (int_const 32 (pos 2)) (int_const 32 (pos 5))
              ≡ ok (int_const 32 v)))
        ⊎ ((IsInt v → ⊥)
            × (compute_instr floats OpId.sub eq (int_const 32 (pos 2)) (int_const 32 (pos 5))
                ≡ fault overflow)))
compute-IsExact_example = compute-IsExact floats OpId.sub eq 32 32 (pos 2) (pos 5) minus

compute-sdiv_example :
    (q : ℤ) × (int_const 32 (negsuc 2) ≡ int_const 32 q)
    × (7 ≡ 2 * magnitude q + 7 % 2)
    × (7 % 2 < 2)
    × HasSign (pos 7) (negsuc 1) q
unfolding compute_instr int_arith get_const_int_value ◌/ℤ◌
compute-sdiv_example =
    compute-sdiv floats eq 32 32 (pos 7) (negsuc 1) (int_const 32 (negsuc 2)) refl
