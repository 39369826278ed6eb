-- ===== src/Codegen/Ended.antt =====
-- The terminators of the blocks of a program (CminusfBuilder::visit of functions and programs).
pub mod Globals
pub mod Bodies
use gvn.Codegen.Ended.Globals.{
  IsGlobal, create_function-IsGlobal, push_scope-IsGlobal, put_fun-IsGlobal, create_block-IsGlobal,
  visit_var_declaration-IsGlobal,
}
use gvn.Codegen.Ended.Bodies.{
  InBody, in_body, set_insert_point-first, enter_scope-InBody, put_pre_enter-InBody,
  store_args-Within,
}
use gvn.Prelude.{
  ℕ, suc, ◌+◌, ◌≡◌, ◌⊎◌, inl, inr, refl, sym, subst, ◌∙◌, ap, Bool, true, false, List, [], ◌∷◌,
  ◌++◌, All, ◌≢◌, Result, ok, some, none, if◌then◌else◌,
}
use gvn.Prelude.Texts.{Text, text}
use gvn.Ast.Types.{
  Param, VarDeclaration, Stmts, FunDeclaration, Declaration, var_declaration, fun_declaration,
  compound,
}
use gvn.Ir.Types.{Ty, Tys, none_left, param, int32_ty, void_ty, float_ty}
use gvn.Ir.Module.{Module, Value, object, Block, block, args_of}
use gvn.Codegen.Scope.{Scopes, Bindings, in_global}
use gvn.Codegen.State.{
  Codegen, Build, ◌>>=◌, ◌>>◌, return, put_fun, put_pre_enter, set_insert_point, enter_scope,
  exit_scope, push_scope,
}
use gvn.Codegen.Create.{insert_func, insert_global, insert_block_at, count_args}
use gvn.Codegen.Builder.{
  create_function, create_block, create_global, create_alloca, is_terminator, is_ended,
}
use gvn.Codegen.Statement.{declared_ty, declare_var, visit_var_declaration, visit_stmt, visit_stmts}
use gvn.Codegen.Visit.{create_default_ret}
use gvn.Codegen.Program.{
  store_args, param_type, param_types, return_type, end_function, visit_fun_declaration,
  visit_declaration, visit_declarations, declare_runtime, declare_runtimes, empty_state,
  build_program,
}
use gvn.Codegen.Blocks.{Status, unended, ended, overrun, no_block, after, code, run_code, status}
use gvn.Codegen.Blocks.Laid.{Laid, Waiting, IsDone}
use gvn.Codegen.Blocks.Created.{insert_func-Laid, insert_global-Laid, insert_block_at-Laid}
use gvn.Codegen.Triple.{Triple, seq, weaken, strengthen, returns, reads, changes, requires, fails}
use gvn.Codegen.Calm.{IsOpen, IsEnded, Calm, gets-Calm}
use gvn.Codegen.Calm.Creates.{create_alloca-Calm, create_store-Calm}
use gvn.Codegen.Jumps.{IsLeft, set_insert_point-IsOpen}
use gvn.Codegen.Jumps.Visits.{create_default_ret-ends}
use gvn.Codegen.Jumps.Falls.{Told, is_ended-Told}
use gvn.Codegen.Jumps.Locals.{
  Within, Calm-Within, push-grows, push_scope-Within, enter_compound-ahead, exit_scope-IsLeft,
}
use gvn.Codegen.Jumps.Statements.{within, compound_ahead, visit_stmts-Leaves}

-- Once a function is visited, its blocks have ended.
end_function-ends :
    (fp_get : ℕ → ℕ) {sc : Scopes}
    → Triple
        (Within (λ t. IsLeft t false []) sc)
        (end_function fp_get)
        λ _. Within (λ t. IsEnded t false []) sc
unfolding end_function
end_function-ends fp_get {sc} = within {sc = sc} λ t. seq (is_ended-Told {sc = t}) by_test
  where
    by_test :
        {t : Scopes} (b : Bool)
        → Triple
            (Told t false [] b)
            (if b then return tt else create_default_ret fp_get >> return tt)
            λ _. IsEnded t false []
    by_test true = returns λ s h. h
    by_test {t} false = seq (create_default_ret-ends fp_get t false []) λ _. returns λ s h. h

leave_function : Triple (InBody λ t. IsEnded t false []) exit_scope λ _. IsGlobal []
unfolding exit_scope
leave_function =
    changes (λ s w. (tt, record s { scope = w.0 ∷ [] })) (λ s w. rw w.1.1.scoped refl)
      λ s w. record {
        names = w.0;
        scoped = refl;
        pre = w.1.1.pre;
        laid = w.1.1.laid;
        linked = w.1.1.linked;
      }

module _ (fp_get : ℕ → ℕ) where
  visit_body :
      (ds : List VarDeclaration) (ss : Stmts)
      → Triple
          (InBody λ t. IsOpen t true [])
          (visit_stmt fp_get (compound ds ss))
          λ _. InBody λ t. IsLeft t false []
  unfolding visit_stmt
  visit_body ds ss =
      in_body (λ t. IsOpen t true []) (λ t. IsLeft t false [])
        λ g. seq enter_compound-ahead λ need_exit.
          compound_ahead fp_get need_exit ds ss (g ∷ []) [] λ t. visit_stmts-Leaves fp_get ss t []

  visit_fun_declaration-IsGlobal :
      (d : FunDeclaration) → Triple (IsGlobal []) (visit_fun_declaration fp_get d) λ _. IsGlobal []
  unfolding visit_fun_declaration
  visit_fun_declaration-IsGlobal d =
      seq (create_function-IsGlobal (return_type d.ty) (param_types d.params) d.id) λ f.
        seq (push_scope-IsGlobal d.id (object f)) λ _. seq (put_fun-IsGlobal f) λ _.
          seq (create_block-IsGlobal (text "entry")) λ bb. seq (set_insert_point-first bb) λ _.
            seq enter_scope-InBody λ _. seq put_pre_enter-InBody λ _.
              seq (reads {Q = λ m. InBody λ t. IsOpen t true []} {f = λ s. s.ir_module} λ s w. w)
                λ m.
                  seq
                    (in_body (λ t. IsOpen t true []) (λ t. IsOpen t true [])
                      λ g. store_args-Within d.params (args_of (m.at f)) (g ∷ []))
                    λ _. seq (visit_body d.local_declarations d.statement_list) λ _.
                      seq
                        (in_body (λ t. IsLeft t false []) (λ t. IsEnded t false [])
                          λ g. end_function-ends fp_get)
                        λ _. leave_function

  visit_declaration-IsGlobal :
      (d : Declaration) → Triple (IsGlobal []) (visit_declaration fp_get d) λ _. IsGlobal []
  unfolding visit_declaration
  visit_declaration-IsGlobal (var_declaration d) = visit_var_declaration-IsGlobal d
  visit_declaration-IsGlobal (fun_declaration d) = visit_fun_declaration-IsGlobal d

  visit_declarations-IsGlobal :
      (ds : List Declaration) → Triple (IsGlobal []) (visit_declarations fp_get ds) λ _. IsGlobal []
  unfolding visit_declarations
  visit_declarations-IsGlobal [] = returns λ s g. g
  visit_declarations-IsGlobal (d ∷ ds) =
      seq (visit_declaration-IsGlobal d) λ _. visit_declarations-IsGlobal ds

declare_runtime-IsGlobal :
    (ret : Ty) (ts : Tys) (name : Text)
    → Triple (IsGlobal []) (declare_runtime ret ts name) λ _. IsGlobal []
unfolding declare_runtime
declare_runtime-IsGlobal ret ts name =
    seq (create_function-IsGlobal ret ts name) λ f. push_scope-IsGlobal name (object f)

declare_runtimes-IsGlobal : Triple (IsGlobal []) declare_runtimes λ _. IsGlobal []
unfolding declare_runtimes
declare_runtimes-IsGlobal = seq (declare_runtime-IsGlobal int32_ty none_left (text "input")) λ _.
    seq (declare_runtime-IsGlobal void_ty (param int32_ty none_left) (text "output")) λ _.
      seq (declare_runtime-IsGlobal void_ty (param float_ty none_left) (text "outputFloat"))
        λ _. declare_runtime-IsGlobal void_ty none_left (text "neg_idx_except")

empty_state-IsGlobal : IsGlobal [] empty_state
unfolding status
empty_state-IsGlobal = record {
  names = [];
  scoped = refl;
  pre = refl;
  laid = record { bounded = λ x. tt; waiting = tt; others = λ x a. tt };
  linked = record { fresh = λ a k. refl; edges = λ x y k. cc };
}

pub build_program-IsGlobal :
    (fp_get : ℕ → ℕ) (ds : List Declaration) (s : Codegen)
    → build_program fp_get ds ≡ ok (tt, s)
    → IsGlobal [] s
unfolding build_program
build_program-IsGlobal fp_get ds s e =
    let t : Triple (IsGlobal []) (declare_runtimes >> visit_declarations fp_get ds)
        (λ _. IsGlobal []) =
      seq declare_runtimes-IsGlobal λ _. visit_declarations-IsGlobal fp_get ds in
    t.runs empty_state empty_state-IsGlobal tt s e

-- Instructions of which the last is the only terminator.
abbrev pub IsTerminated : Module → List ℕ → Type 0
IsTerminated m is =
    (js : List ℕ) × (t : ℕ) × (is ≡ js ++ t ∷ [])
    × All (λ j. is_terminator (m.at j) ≡ false) js
    × (is_terminator (m.at t) ≡ true)

overrun-stays : (m : Module) (is : List ℕ) → run_code m overrun is ≢ ended
overrun-stays m [] e = cc
overrun-stays m (i ∷ is) e = overrun-stays m is e

by_terminator :
    (m : Module) (i : ℕ) (is : List ℕ) (b : Bool)
    → is_terminator (m.at i) ≡ b
    → run_code m (after unended b) is ≡ ended
    → (run_code m unended is ≡ ended → IsTerminated m is)
    → IsTerminated m (i ∷ is)
by_terminator m i [] true e k h = ([], i, refl, tt, e)
by_terminator m i (j ∷ is) true e k h = absurd (overrun-stays m is k)
by_terminator m i is false e k h =
    let (js, t, f, a, c) = h k in (i ∷ js, t, ap (λ l. i ∷ l) f, (e, a), c)

ended-IsTerminated : (m : Module) (is : List ℕ) → run_code m unended is ≡ ended → IsTerminated m is
ended-IsTerminated m [] e = cc
ended-IsTerminated m (i ∷ is) e = by_terminator m i is _ refl e λ k. ended-IsTerminated m is k

after-block : (st : Status) (b : Bool) → st ≢ no_block → after st b ≢ no_block
after-block unended true n e = cc
after-block unended false n e = cc
after-block ended b n e = cc
after-block overrun b n e = cc
after-block no_block b n e = n refl

-- The status of a block is one of a block.
run_code-block :
    (m : Module) (is : List ℕ) (st : Status) → st ≢ no_block → run_code m st is ≢ no_block
run_code-block m [] st n e = n e
run_code-block m (i ∷ is) st n e = run_code-block m is _ (after-block st _ n) e

done-ended : (st : Status) → IsDone st → st ≢ no_block → st ≡ ended
done-ended unended d n = absurd d
done-ended ended d n = refl
done-ended overrun d n = absurd d
done-ended no_block d n = absurd (n refl)

-- In the module that the code generator makes of a program, where it returns, each block has
-- exactly one terminator, a return or a branch, and this is its last instruction.
pub build_program-IsTerminated :
    (fp_get : ℕ → ℕ) (ds : List Declaration) (s : Codegen)
    → build_program fp_get ds ≡ ok (tt, s)
    → (a : ℕ) (b : Block) → s.ir_module.at a ≡ block b
    → IsTerminated s.ir_module b.instr_list
unfolding status
build_program-IsTerminated fp_get ds s e a b k =
    let d : IsDone (status s.ir_module a) =
      (build_program-IsGlobal fp_get ds s e).laid.others a tt in
    ended-IsTerminated s.ir_module b.instr_list
      (done-ended _ (rw k at d) (run_code-block s.ir_module b.instr_list unended λ q. cc))
