-- ===== src/Tests/DeadCode.antt =====
-- DeadCode on the sample: in main the addition 32 is dead, and the rest is kept.
use gvn.Prelude.{
  ℕ, ◌≡◌, refl, Bool, true, false, List, [], ◌∷◌, ◌==◌, contains, keep, ok, All-contains, arith,
  map, length, ◌+◌,
}
use gvn.Ir.Module.{get_function, instrs_of}
use gvn.Passes.Worklist.{loop, expand, scan, offer}
use gvn.Passes.DeadCode
use gvn.Passes.DeadCode.Marking.{mark-Critical, mark-defs, mark-least, mark-total, HasTests}
use gvn.Passes.DeadCode.Sweeping.{sweep-keep, mark-sweep, IsOwned, parent_is}
use gvn.Passes.DeadCode.Uses.{sweep-IsUnused, IsUnused}
use gvn.Tests.Sample.{sample}

abbrev only_square : ℕ → Bool
only_square v = v == 11

sample_mark : (marked : ℕ → Bool) × (DeadCode.mark sample only_square 10 ≡ ok marked)
unfolding DeadCode.mark DeadCode.mark_critical DeadCode.is_critical DeadCode.callee_is_pure
    DeadCode.block_instrs DeadCode.defs DeadCode.operand_defs get_function loop expand scan offer
sample_mark = (_, refl)

sample_marks :
    ◌≡◌ {A = List Bool}
      (map sample_mark.0 (30 ∷ 31 ∷ 32 ∷ 33 ∷ []))
      (true ∷ true ∷ false ∷ true ∷ [])
unfolding sample_mark
sample_marks = refl

sample_swept : DeadCode.instrs (DeadCode.sweep sample sample_mark.0 10).0 10 ≡ 30 ∷ 31 ∷ 33 ∷ []
unfolding sample_mark DeadCode.sweep DeadCode.erase_all DeadCode.erase DeadCode.unlink
    DeadCode.erase_from DeadCode.remove_all_uses DeadCode.remove_use_of_ops DeadCode.remove_uses
    DeadCode.remove_use DeadCode.block_instrs
sample_swept = refl

sample-IsOwned : IsOwned sample (20 ∷ [])
sample-IsOwned b v i =
    All-contains
      (λ x. contains (instrs_of (sample.at x)) v ≡ true → parent_is (sample.at v) x ≡ true)
      (20 ∷ [])
      (
        All-contains (λ a. parent_is (sample.at a) 20 ≡ true) (30 ∷ 31 ∷ 32 ∷ 33 ∷ [])
            (refl, (refl, (refl, (refl, tt)))) v,
        tt,
      )
      b i

sample_tests : HasTests sample only_square (30 ∷ 31 ∷ 32 ∷ 33 ∷ [])
unfolding DeadCode.is_critical DeadCode.callee_is_pure
sample_tests =
    All-contains
      (λ a. (c : Bool) × (DeadCode.object_critical sample only_square (sample.at a) ≡ ok c))
      (30 ∷ 31 ∷ 32 ∷ 33 ∷ []) ((false, refl), ((true, refl), ((false, refl), ((true, refl), tt))))

mark-Critical_example : sample_mark.0 33 ≡ true
unfolding DeadCode.is_critical DeadCode.block_instrs
mark-Critical_example = mark-Critical sample only_square 10 sample_mark.0 33 sample_mark.1 refl refl

mark-defs_example : sample_mark.0 30 ≡ true
unfolding sample_mark DeadCode.defs DeadCode.operand_defs get_function
mark-defs_example = mark-defs sample only_square 10 sample_mark.0 33 30 sample_mark.1 refl refl

-- Every marked instruction of main is one of its instructions.
mark-least_example : contains (DeadCode.instrs sample 10) 30 ≡ true
unfolding sample_mark DeadCode.defs DeadCode.operand_defs get_function DeadCode.block_instrs
mark-least_example =
    mark-least sample only_square 10 (λ a. contains (DeadCode.instrs sample 10) a ≡ true)
      (λ a i c. i)
      (λ a d p edge.
        All-contains
          (λ x.
            contains (DeadCode.defs sample x) d ≡ true
            → contains (DeadCode.instrs sample 10) d ≡ true)
          (30 ∷ 31 ∷ 32 ∷ 33 ∷ [])
          (λ c. ground arith, (λ c. ground arith, (λ c. ground arith, (λ c. ground arith, tt)))) a p
          edge)
      sample_mark.0 sample_mark.1 30 refl

mark-total_example : (marked : ℕ → Bool) × (DeadCode.mark sample only_square 10 ≡ ok marked)
unfolding DeadCode.defs DeadCode.operand_defs get_function DeadCode.block_instrs
mark-total_example = mark-total sample only_square 10 sample_tests (λ a d p edge.
    All-contains
      (λ x.
        contains (DeadCode.defs sample x) d ≡ true → contains (DeadCode.instrs sample 10) d ≡ true)
      (30 ∷ 31 ∷ 32 ∷ 33 ∷ [])
      (λ c. ground arith, (λ c. ground arith, (λ c. ground arith, (λ c. ground arith, tt)))) a p
      edge)

sweep-keep_example :
    (DeadCode.instrs (DeadCode.sweep sample sample_mark.0 10).0 10
      ≡ keep sample_mark.0 (DeadCode.instrs sample 10))
    × ((DeadCode.sweep sample sample_mark.0 10).1
          + length (DeadCode.instrs (DeadCode.sweep sample sample_mark.0 10).0 10)
        ≡ length (DeadCode.instrs sample 10))
sweep-keep_example = sweep-keep sample sample_mark.0 10 sample-IsOwned

mark-sweep_example :
    contains (DeadCode.instrs (DeadCode.sweep sample sample_mark.0 10).0 10) 30 ≡ true
unfolding sample_mark DeadCode.sweep DeadCode.erase_all DeadCode.erase DeadCode.unlink
    DeadCode.erase_from DeadCode.remove_all_uses DeadCode.remove_use_of_ops DeadCode.remove_uses
    DeadCode.remove_use DeadCode.block_instrs DeadCode.defs DeadCode.operand_defs get_function
mark-sweep_example =
    mark-sweep sample sample_mark.0 10 sample-IsOwned only_square 33 30 sample_mark.1 refl refl refl

sweep-IsUnused_example : IsUnused (DeadCode.sweep sample sample_mark.0 10).0 32 30
unfolding sample_mark DeadCode.block_instrs
sweep-IsUnused_example = sweep-IsUnused sample sample_mark.0 10 32 30 refl refl
