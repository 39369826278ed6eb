-- ===== src/Tests/FuncInfo.antt =====
-- FuncInfo on the sample.
use gvn.Prelude.{
  ℕ, ◌≡◌, refl, Bool, true, false, List, [], ◌∷◌, contains, ok, All-contains, arith, ◌≢◌, subst,
  is_eq, ℕ_discrete, map,
}
use gvn.Prelude.Texts.{Text-discrete}
use gvn.Ir.Module.{get_function}
use gvn.Passes.Worklist.{loop, expand, scan, offer}
use gvn.Passes.FuncInfo
use gvn.Passes.FuncInfo.Purity.{run-callers, run-least, run-total, HasVerdicts, CallersListed}
use gvn.Tests.Sample.{sample, all_false}

-- wrap is impure because it calls put, and square stays pure.
sample_run : (flags : ℕ → Bool) × (FuncInfo.run 3 sample all_false ≡ ok flags)
unfolding FuncInfo.run FuncInfo.mark_all FuncInfo.trivial_mark FuncInfo.body_effect
    FuncInfo.block_effect FuncInfo.object_effect FuncInfo.is_side_effect_inst FuncInfo.is_local
    FuncInfo.get_first_addr FuncInfo.addr_next FuncInfo.is_alloca_addr FuncInfo.first_pointer
    FuncInfo.plain_params FuncInfo.callers FuncInfo.users get_function loop expand scan offer is_eq
    Text-discrete ℕ_discrete
sample_run = (_, refl)

sample_flags :
    ◌≡◌ {A = List Bool}
      (map sample_run.0 (10 ∷ 11 ∷ 12 ∷ 13 ∷ []))
      (false ∷ true ∷ false ∷ false ∷ [])
unfolding sample_run
sample_flags = refl

run-callers_example : sample_run.0 10 ≡ false
unfolding sample_run FuncInfo.callers FuncInfo.users get_function
run-callers_example = run-callers 3 sample all_false sample_run.0 13 10 sample_run.1 refl refl refl

sample_verdicts : HasVerdicts 3 sample sample.function_list
unfolding sample_run
sample_verdicts =
    All-contains (λ f. (p : Bool) × (FuncInfo.trivial_mark 3 sample f ≡ ok p)) sample.function_list
      ((false, refl), ((true, refl), ((false, refl), ((true, refl), tt))))

sample_listed : CallersListed 3 sample
unfolding FuncInfo.callers FuncInfo.users get_function
sample_listed f g n =
    All-contains
      (λ x. contains (FuncInfo.callers sample x) g ≡ true → contains sample.function_list g ≡ true)
      sample.function_list
      (λ c. ground arith, (λ c. ground arith, (λ c. ground arith, (λ c. ground arith, tt)))) f n

run-total_example : (flags : ℕ → Bool) × (FuncInfo.run 3 sample all_false ≡ ok flags)
run-total_example = run-total 3 sample all_false sample_verdicts sample_listed

-- No function that is flagged impure is square.
abbrev Other : ℕ → Type 0
Other f = f ≢ 11

sample_own : (f : ℕ) → FuncInfo.trivial_mark 3 sample f ≡ ok false → Other f
unfolding sample_run
sample_own f h e = cc (subst (λ x. FuncInfo.trivial_mark 3 sample x ≡ ok false) e h)

sample_along :
    (f g : ℕ)
    → contains sample.function_list f ≡ true
    → contains (FuncInfo.callers sample f) g ≡ true
    → Other f
    → Other g
unfolding FuncInfo.callers FuncInfo.users get_function
sample_along f g n =
    All-contains (λ x. contains (FuncInfo.callers sample x) g ≡ true → Other x → Other g)
      sample.function_list
      (λ c o. ground arith, (λ c o. ground arith, (λ c o. ground arith, (λ c o. ground arith, tt))))
      f n

run-least_example : Other 12
unfolding sample_run
run-least_example =
    run-least 3 sample Other sample_listed sample_own sample_along all_false sample_run.0
      sample_run.1 12 refl refl
