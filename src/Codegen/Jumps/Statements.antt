-- ===== src/Codegen/Jumps/Statements.antt =====
-- The blocks that the visits of statements leave (CminusfBuilder::visit of the statements).
use gvn.Prelude.{ℕ, ◌≡◌, inl, inr, Bool, true, false, List, [], ◌∷◌, if◌then◌else◌, ok}
use gvn.Ast.Types.{
  VarDeclaration, Stmt, compound, expression_stmt, empty_stmt, selection, selection_else, iteration,
  return_void, return_stmt, Stmts, no_stmts, stmt,
}
use gvn.Ir.Types.{Ty}
use gvn.Ir.Module.{Value}
use gvn.Codegen.Scope.{Scopes}
use gvn.Codegen.State.{Codegen, Build, ◌>>◌, return, set_insert_point}
use gvn.Codegen.Statement.{
  create_condition, returned, return_converted, visit_stmt, visit_stmts, visit_var_declarations,
  exit_compound,
}
use gvn.Codegen.Triple.{Triple, seq, weaken, strengthen, returns}
use gvn.Codegen.Calm.{IsOpen, IsEnded, Calm, calm_rules, gets-Calm, put_val-Calm}
use gvn.Codegen.Calm.Creates.{
  create_icmp-Calm, create_fcmp-Calm, create_sitofp-Calm, create_fptosi-Calm,
}
use gvn.Codegen.Jumps.{
  IsLeft, create_cond_br-ends, create_ret-ends, create_void_ret-ends, create_block-IsOpen,
  set_insert_point-IsOpen, set_insert_point-second, set_insert_point-third,
}
use gvn.Codegen.Jumps.Visits.{visit_expr-Calm, type_of-Calm, current_fun-Calm}
use gvn.Codegen.Jumps.Falls.{Told, is_ended-Told, fall_to-ends}
use gvn.Codegen.Jumps.Locals.{
  Within, visit_var_declarations-Within, enter_compound-Within, exit_scope-IsLeft,
}

-- A run that starts in a block without a terminator.
abbrev Leaves : Build (Unit {0}) → Scopes → List ℕ → Type 0
Leaves c sc ps = Triple (IsOpen sc false ps) c λ _. IsLeft sc false ps

module _ {sc : Scopes} {ps : List ℕ} where
  opened :
      {A : Type 0} {c : Build A}
      → Triple (IsOpen sc false ps) c (λ _. IsOpen sc false ps)
      → Triple (IsOpen sc false ps) c λ _. IsLeft sc false ps
  opened = weaken λ x s o. inl o

  stopped :
      {A : Type 0} {c : Build A}
      → Triple (IsOpen sc false ps) c (λ _. IsEnded sc false ps)
      → Triple (IsOpen sc false ps) c λ _. IsLeft sc false ps
  stopped = weaken λ x s o. inr o

  arrives :
      (q : ℕ) → Triple (IsEnded sc false (q ∷ ps)) (set_insert_point q) λ _. IsLeft sc false ps
  arrives q = weaken (λ x s o. inl o) (set_insert_point-IsOpen q)

-- What holds with any innermost scope.
pub within :
    {A : Type 0} {c : Build A} {P Q : Scopes → Codegen → Type 0} {sc : Scopes}
    → ((t : Scopes) → Triple (P t) c λ _. Q t)
    → Triple (Within P sc) c λ _. Within Q sc
within h = record { runs = λ s w x s' e. (w.0, (h (w.0 ∷ _)).runs s w.1 x s' e) }

module _ (fp_get : ℕ → ℕ) where
  create_condition-Calm : (v : Value) → Calm (create_condition fp_get v)
  unfolding create_condition
  create_condition-Calm v = search (calm_rules, create_icmp-Calm, create_fcmp-Calm) depth 12

  returned-Calm : (t rt : Ty) (v : Value) → Calm (returned fp_get t rt v)
  unfolding returned
  returned-Calm t rt v = search (calm_rules, create_fptosi-Calm, create_sitofp-Calm) depth 12

  return_converted-ends :
      (v : Value) {sc : Scopes} {ps : List ℕ}
      → Triple (IsOpen sc false ps) (return_converted fp_get v) λ _. IsEnded sc false ps
  unfolding return_converted
  return_converted-ends v {sc} {ps} = seq (current_fun-Calm.calm sc false ps) λ f.
      seq ((type_of-Calm v).calm sc false ps) λ t.
        seq ((returned-Calm f.return_ty t v).calm sc false ps) λ v'.
          seq ((put_val-Calm v').calm sc false ps)
            λ _. seq (create_ret-ends v') λ _. returns λ s h. h

  -- The parts of a compound statement, once its scope is entered.
  compound_rest :
      (need_exit : Bool) (ds : List VarDeclaration) (ss : Stmts) (sc : Scopes) (ps : List ℕ)
      → ((t : Scopes) → Leaves (visit_stmts fp_get ss) t ps)
      → Triple
          (λ s. (need_exit ≡ true) × Within (λ t. IsOpen t false ps) sc s)
          (visit_var_declarations ds >> (visit_stmts fp_get ss >> exit_compound need_exit))
          λ _. IsLeft sc false ps
  unfolding exit_compound
  compound_rest true ds ss sc ps h =
      seq (strengthen (λ s w. w.1) (visit_var_declarations-Within ds))
        λ _. seq (within h) λ _. exit_scope-IsLeft
  compound_rest false ds ss sc ps h = record { runs = λ s w x s' e. absurd (cc) }

  pub compound_ahead :
      (need_exit : Bool) (ds : List VarDeclaration) (ss : Stmts) (sc : Scopes) (ps : List ℕ)
      → ((t : Scopes) → Leaves (visit_stmts fp_get ss) t ps)
      → Triple
          (λ s. (need_exit ≡ false) × Within (λ t. IsOpen t false ps) sc s)
          (visit_var_declarations ds >> (visit_stmts fp_get ss >> exit_compound need_exit))
          λ _. Within (λ t. IsLeft t false ps) sc
  unfolding exit_compound
  compound_ahead false ds ss sc ps h =
      seq (strengthen (λ s w. w.1) (visit_var_declarations-Within ds))
        λ _. seq (within h) λ _. returns λ s w. w
  compound_ahead true ds ss sc ps h = record { runs = λ s w x s' e. absurd (cc) }

  stmts_rest :
      (ended : Bool) (ss : Stmts) {sc : Scopes} {ps : List ℕ}
      → Leaves (visit_stmts fp_get ss) sc ps
      → Triple
          (Told sc false ps ended)
          (if ended then return tt else visit_stmts fp_get ss)
          λ _. IsLeft sc false ps
  stmts_rest true ss h = returns λ s o. inr o
  stmts_rest false ss h = h

  mutual
    unfolding visit_stmt visit_stmts

    pub visit_stmt-Leaves :
        (st : Stmt) (sc : Scopes) (ps : List ℕ) → Leaves (visit_stmt fp_get st) sc ps
    visit_stmt-Leaves (compound ds ss) sc ps =
        seq enter_compound-Within
          λ need_exit. compound_rest need_exit ds ss sc ps λ t. visit_stmts-Leaves ss t ps
    visit_stmt-Leaves (expression_stmt x) sc ps =
        opened ((visit_expr-Calm fp_get x).calm sc false ps)
    visit_stmt-Leaves empty_stmt sc ps = returns λ s o. inl o
    visit_stmt-Leaves (selection x st) sc ps =
        seq ((visit_expr-Calm fp_get x).calm sc false ps) λ _.
          seq ((gets-Calm λ s. s.tmp_val).calm sc false ps) λ v.
            seq (create_block-IsOpen []) λ true_bb. seq (create_block-IsOpen []) λ cont_bb.
              seq ((create_condition-Calm v).calm sc false _) λ c.
                seq (create_cond_br-ends c true_bb cont_bb) λ _.
                  seq (set_insert_point-second true_bb cont_bb) λ _.
                    seq (visit_stmt-Leaves st sc (cont_bb ∷ ps))
                      λ _. seq (fall_to-ends cont_bb) λ _. arrives cont_bb
    visit_stmt-Leaves (selection_else x st st') sc ps =
        seq ((visit_expr-Calm fp_get x).calm sc false ps) λ _.
          seq ((gets-Calm λ s. s.tmp_val).calm sc false ps) λ v.
            seq (create_block-IsOpen []) λ true_bb. seq (create_block-IsOpen []) λ cont_bb.
              seq ((create_condition-Calm v).calm sc false _) λ c.
                seq (create_block-IsOpen []) λ false_bb.
                  seq (create_cond_br-ends c true_bb false_bb) λ _.
                    seq (set_insert_point-third true_bb cont_bb false_bb) λ _.
                      seq (visit_stmt-Leaves st sc (false_bb ∷ cont_bb ∷ ps)) λ _.
                        seq (fall_to-ends cont_bb) λ _. seq (set_insert_point-IsOpen false_bb) λ _.
                          seq (visit_stmt-Leaves st' sc (cont_bb ∷ ps))
                            λ _. seq (fall_to-ends cont_bb) λ _. arrives cont_bb
    visit_stmt-Leaves (iteration x st) sc ps = seq (create_block-IsOpen []) λ expr_bb.
        seq (strengthen (λ s o. inl o) (fall_to-ends expr_bb)) λ _.
          seq (set_insert_point-IsOpen expr_bb) λ _.
            seq ((visit_expr-Calm fp_get x).calm sc false ps) λ _.
              seq ((gets-Calm λ s. s.tmp_val).calm sc false ps) λ v.
                seq (create_block-IsOpen []) λ true_bb. seq (create_block-IsOpen []) λ cont_bb.
                  seq ((create_condition-Calm v).calm sc false _) λ c.
                    seq (create_cond_br-ends c true_bb cont_bb) λ _.
                      seq (set_insert_point-second true_bb cont_bb) λ _.
                        seq (visit_stmt-Leaves st sc (cont_bb ∷ ps))
                          λ _. seq (fall_to-ends expr_bb) λ _. arrives cont_bb
    visit_stmt-Leaves return_void sc ps = seq create_void_ret-ends λ _. returns λ s h. inr h
    visit_stmt-Leaves (return_stmt x) sc ps = seq ((visit_expr-Calm fp_get x).calm sc false ps) λ _.
        seq ((gets-Calm λ s. s.tmp_val).calm sc false ps) λ v. stopped (return_converted-ends v)

    pub visit_stmts-Leaves :
        (ss : Stmts) (sc : Scopes) (ps : List ℕ) → Leaves (visit_stmts fp_get ss) sc ps
    visit_stmts-Leaves no_stmts sc ps = returns λ s o. inl o
    visit_stmts-Leaves (stmt st ss) sc ps =
        seq (visit_stmt-Leaves st sc ps)
          λ _. seq is_ended-Told λ b. stmts_rest b ss (visit_stmts-Leaves ss sc ps)

-- From a state in which the insertion block and the distinct blocks `ps` stand below the next free
-- address and have no terminator, all other blocks have ended, all instructions in blocks stand
-- below that address and no block stands from it on, each block that another lists as a successor
-- lists that one as a predecessor, and no scope was entered ahead, a visit of a statement that
-- returns leaves the scopes that it found, and the blocks `ps` waiting without a terminator; the
-- insertion block has no terminator or ends with its only one, and all other blocks have ended.
pub visit_stmt-IsLeft :
    (fp_get : ℕ → ℕ) (st : Stmt) (ps : List ℕ) (s s' : Codegen)
    → IsOpen s.scope false ps s
    → visit_stmt fp_get st s ≡ ok (tt, s')
    → IsLeft s.scope false ps s'
visit_stmt-IsLeft fp_get st ps s s' h e = (visit_stmt-Leaves fp_get st s.scope ps).runs s h tt s' e
