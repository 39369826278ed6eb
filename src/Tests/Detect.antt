-- ===== src/Tests/Detect.antt =====
-- The rounds on a function with a branch: both sides, 21 and 22, compute `a + a`, and the phi 104 of
-- the block 23 joins the two.
use gvn.Prelude.{ℕ, ◌≡◌, refl, true, List, [], ◌∷◌, ok, is_eq, ℕ_discrete}
use gvn.Prelude.Texts.{text, Text-discrete}
use gvn.Ir.Types.{int32_ty, none_left, param}
use gvn.Ir.Opcodes.{OpId, eq, OpId-discrete}
use gvn.Ir.Module.{Module, Instr, Object, object, func, block, is_binary, is_void}
use gvn.Gvn.Expr.{Expr, expr_eq, ptr_eq}
use gvn.Gvn.Class.{
  Partitions, Counter, together, insert_class, insert_member, erase_member, phi_ptr_eq, members_eq,
  partitions_eq,
}
use gvn.Gvn.Join
use gvn.Gvn.ValueExpr
use gvn.Gvn.ValuePhi
use gvn.Gvn.Transfer
use gvn.Gvn.Copy
use gvn.Gvn.Copy.Source.{copy_statement-others, copy_statement-source}
use gvn.Gvn.Detect
use gvn.Gvn.Detect.Stable.{detect_equivalences-SameMembers, SameMembers}
use gvn.Tests.Sample.{plain, find_or, sample, floats, no_pure, class_of}

abbrev branch_block : List ℕ → List ℕ → List ℕ → Object
branch_block is ps ss = block (record { parent = 10; instr_list = is; pre_bbs = ps; succ_bbs = ss })

abbrev the_phi : Instr
the_phi = record {
  op_id = OpId.phi;
  ty = int32_ty;
  operands = object 102 ∷ object 21 ∷ object 103 ∷ object 22 ∷ [];
  parent = 23;
  cmp_op = eq;
  own_ty = int32_ty;
  l_val = object 104;
}

abbrev branch : Module
branch = record sample {
  at = find_or (Object.argument int32_ty) (
      (
        10,
        func (record {
          return_ty = int32_ty;
          params = param int32_ty none_left;
          arguments = 100 ∷ [];
          basic_blocks = 20 ∷ 21 ∷ 22 ∷ 23 ∷ [];
        }),
      )
      ∷ (20, branch_block [] [] (21 ∷ 22 ∷ []))
      ∷ (21, branch_block (102 ∷ []) (20 ∷ []) (23 ∷ []))
      ∷ (22, branch_block (103 ∷ []) (20 ∷ []) (23 ∷ []))
      ∷ (23, branch_block (104 ∷ []) (21 ∷ 22 ∷ []) [])
      ∷ (102, plain OpId.add int32_ty (object 100 ∷ object 100 ∷ []) 21)
      ∷ (103, plain OpId.add int32_ty (object 100 ∷ object 100 ∷ []) 22)
      ∷ (104, Object.instr the_phi)
      ∷ []);
  name = find_or [] (
      (20, text "x")
      ∷ (21, text "l")
      ∷ (22, text "r")
      ∷ (23, text "m")
      ∷ (100, text "a")
      ∷ (102, text "b")
      ∷ (103, text "c")
      ∷ (104, text "d")
      ∷ []);
  global_list = [];
}

abbrev first_counter : Counter
first_counter = record { next_value_number = 1; next_addr = 0 }

detected :
    (t : Detect.Progress) × (Detect.detect_equivalences floats branch no_pure 9 3 10 first_counter
      ≡ ok t)
unfolding Detect.detect_equivalences Detect.iterate Detect.visit_all Detect.visit_block
    Detect.block_in Detect.block_out Detect.transfer_all Detect.start_classes Copy.copy_all
    Copy.copy_block Copy.copy_statement Copy.copied_operand Copy.copy_from Copy.insert_or
    Copy.insert_where Copy.has_constant Copy.prints_alike Copy.has_named Copy.drop_named
    Copy.erase_named Transfer.transfer_function Transfer.place Transfer.insert_matching
    Transfer.matches Transfer.settle Transfer.erase_value ValuePhi.value_phi_func ValuePhi.over_phis
    ValueExpr.value_expr_of ValueExpr.other_expr ValueExpr.binary_expr ValueExpr.find_operand
    ValueExpr.visit_classes ValueExpr.visit_members ValueExpr.visit_member ValueExpr.take_class
    ValuePhi.back Join.join Join.is_top Join.join_outer Join.join_inner Join.join_step
    Join.intersect Join.renumbered Join.with_phi Join.numbered Join.meet_members Join.meet_inner
    Join.meet_step Join.agreed insert_member erase_member insert_class ptr_eq expr_eq phi_ptr_eq
    partitions_eq members_eq is_binary is_void is_eq Text-discrete ℕ_discrete OpId-discrete
detected = (_, refl)

detect_equivalences-SameMembers_example :
    (entry : ℕ) × (u : Detect.Progress) × (ValuePhi.front (20 ∷ 21 ∷ 22 ∷ 23 ∷ []) ≡ ok entry)
    × (Detect.visit_all floats branch no_pure 9 entry (20 ∷ 21 ∷ 22 ∷ 23 ∷ []) u ≡ ok detected.0)
    × SameMembers detected.0.pout u.pout
detect_equivalences-SameMembers_example =
    detect_equivalences-SameMembers floats branch no_pure 9 3 10 first_counter detected.0 detected.1

abbrev at_left : Partitions
at_left =
    class_of 1 (Expr.var (text "a")) (100 ∷ [])
    ∷ class_of 2 (Expr.bin OpId.add (Expr.var (text "a")) (Expr.var (text "a"))) (102 ∷ 103 ∷ [])
    ∷ []

phi_source : Copy.copied_operand branch 21 the_phi ≡ ok (object 102)
unfolding Copy.copied_operand is_eq Text-discrete ℕ_discrete
phi_source = refl

copy_statement-source_example :
    (r : Partitions × Counter) × (Copy.copy_statement branch 21 104 the_phi at_left first_counter
      ≡ ok r)
    × (together r.0 104 102 ≡ true)
unfolding is_eq Text-discrete ℕ_discrete
copy_statement-source_example =
    copy_statement-source branch 21 104 102 the_phi at_left first_counter phi_source refl refl

copied :
    (r : Partitions × Counter) × (Copy.copy_statement branch 21 104 the_phi at_left first_counter
      ≡ ok r)
unfolding is_eq Text-discrete ℕ_discrete
copied =
    let (r, e, _) =
      copy_statement-source branch 21 104 102 the_phi at_left first_counter phi_source refl refl in
    (r, e)

copy_statement-others_example : together copied.0.0 102 103 ≡ true
unfolding is_eq Text-discrete ℕ_discrete
copy_statement-others_example =
    copy_statement-others branch 21 104 the_phi at_left first_counter copied.0 102 103 refl refl
      copied.1
