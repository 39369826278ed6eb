-- ===== src/Gvn/Driver.antt =====
-- GVN::run (src/optimization/GVN.cpp), with the passes that it calls.
use gvn.Prelude.{ℕ, Bool, false, List, [], ◌∷◌, update, Result, ok, ◌>>=◌}
use gvn.Ir.Constants.{FloatOps}
use gvn.Ir.Module.{Module, blocks_of}
use gvn.Ir.Naming.{set_instr_name}
use gvn.Passes.FuncInfo
use gvn.Passes.DeadCode.{run_dead_code}
use gvn.Gvn.Class.{Counter, insert_member}
use gvn.Gvn.Detect.{detect_equivalences}
use gvn.Gvn.Replace.{replace_cc_members}

-- Module::set_print_name, with the member `seq_cnt_` of each function.
unfoldable pub set_print_name : List ℕ → Module → (ℕ → ℕ) → Module
set_print_name [] m seq_cnt = m
set_print_name (f ∷ fs) m seq_cnt =
    let r = set_instr_name m f (seq_cnt f) in set_print_name fs r.0 (update seq_cnt f r.1)

-- The keys of `pout_`, in the order of the std::map.
unfoldable pub in_order : List ℕ → List ℕ
in_order [] = []
in_order (b ∷ bs) = insert_member b (in_order bs)

-- initPerFunction; the next address of a phi expression goes on.
unfoldable pub init_per_function : Counter → Counter
init_per_function k = record { next_value_number = 1; next_addr = k.next_addr }

module _ (floats : FloatOps) (is_pure : ℕ → Bool) (fuel : ℕ) where
  -- The loop over the functions.
  unfoldable pub number_functions : List ℕ → Module → Counter → Result Module
  number_functions [] m k = ok m
  number_functions (f ∷ fs) m k = elim (blocks_of (m.at f)) [
    | [] ↦ number_functions fs m k
    | b ∷ bs ↦ detect_equivalences floats m is_pure fuel fuel f (init_per_function k) >>= λ t.
        replace_cc_members m t.pout (in_order (b ∷ bs)) >>= λ m'. number_functions fs m' t.counter
  ]

-- GVN::run. The pass and both runs of DeadCode find the pure functions for themselves.
unfoldable pub run : FloatOps → ℕ → (ℕ → ℕ) → Module → Result Module
run floats fuel seq_cnt m = do
  let named = set_print_name m.function_list m seq_cnt
  is_pure ← FuncInfo.run fuel named (λ f. false)
  swept ← run_dead_code fuel named (λ f. false)
  numbered ←
      number_functions floats is_pure fuel swept.0.function_list swept.0
        (record { next_value_number = 1; next_addr = 0 })
  done ← run_dead_code fuel numbered (λ f. false)
  ok done.0
