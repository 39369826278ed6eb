-- ===== src/Codegen/Jumps/Falls.antt =====
-- The test for a terminator, and the fall into a block.
use gvn.Prelude.{ℕ, ◌≡◌, inl, inr, refl, Bool, true, false, List, [], ◌∷◌, ok, if◌then◌else◌}
use gvn.Ir.Module.{Module, Object, block, instr, func, argument, global, instrs_of}
use gvn.Codegen.Scope.{Scopes}
use gvn.Codegen.State.{Codegen, ◌>>◌, return}
use gvn.Codegen.Builder.{last, terminator_of, get_terminator, has, is_ended, create_br}
use gvn.Codegen.Statement.{fall_to}
use gvn.Codegen.Blocks.{
  Status, unended, ended, overrun, no_block, after, code, run_code, code_status, status,
}
use gvn.Codegen.Triple.{Triple, seq, returns, changes}
use gvn.Codegen.Calm.{IsOpen, IsEnded}
use gvn.Codegen.Jumps.{IsLeft, create_br-ends}

after-unended : (st : Status) (t : Bool) → after st t ≡ unended → t ≡ false
after-unended unended true e = cc
after-unended unended false e = refl
after-unended ended t e = cc
after-unended overrun t e = cc
after-unended no_block t e = cc

after-ended : (st : Status) (t : Bool) → after st t ≡ ended → t ≡ true
after-ended unended true e = refl
after-ended unended false e = cc
after-ended ended t e = cc
after-ended overrun t e = cc
after-ended no_block t e = cc

run_code-unended :
    (m : Module) (is : List ℕ) (st : Status)
    → run_code m st is ≡ unended
    → has (terminator_of m (last is)) ≡ false
run_code-unended m [] st e = refl
run_code-unended m (i ∷ []) st e = rw (after-unended st _ e) refl
run_code-unended m (i ∷ j ∷ is) st e = run_code-unended m (j ∷ is) _ e

run_code-ended :
    (m : Module) (i : ℕ) (is : List ℕ) (st : Status)
    → run_code m st (i ∷ is) ≡ ended
    → has (terminator_of m (last (i ∷ is))) ≡ true
run_code-ended m i [] st e = rw (after-ended st _ e) refl
run_code-ended m i (j ∷ is) st e = run_code-ended m j is _ e

unended-terminator :
    (m : Module) (o : Object)
    → code_status m (code o) ≡ unended
    → has (terminator_of m (last (instrs_of o))) ≡ false
unended-terminator m (block b) e = run_code-unended m b.instr_list unended e
unended-terminator m (instr i) e = refl
unended-terminator m (func i) e = refl
unended-terminator m (argument i) e = refl
unended-terminator m (global i) e = refl

code-ended :
    (m : Module) (is : List ℕ)
    → run_code m unended is ≡ ended
    → has (terminator_of m (last is)) ≡ true
code-ended m [] e = cc
code-ended m (i ∷ is) e = run_code-ended m i is unended e

ended-terminator :
    (m : Module) (o : Object)
    → code_status m (code o) ≡ ended
    → has (terminator_of m (last (instrs_of o))) ≡ true
ended-terminator m (block b) e = code-ended m b.instr_list e
ended-terminator m (instr i) e = cc
ended-terminator m (func i) e = cc
ended-terminator m (argument i) e = cc
ended-terminator m (global i) e = cc

-- What the test has found.
abbrev pub Told : Scopes → Bool → List ℕ → Bool → Codegen → Type 0
Told sc e ps true s = IsEnded sc e ps s
Told sc e ps false s = IsOpen sc e ps s

module _ {sc : Scopes} {e : Bool} {ps : List ℕ} where
  is_ended-open : (s : Codegen) → IsOpen sc e ps s → is_ended s ≡ ok (false, s)
  unfolding is_ended get_terminator status
  is_ended-open s h = rw (h.here, unended-terminator s.ir_module _ h.laid.waiting.1) refl

  is_ended-ended : (s : Codegen) → IsEnded sc e ps s → is_ended s ≡ ok (true, s)
  unfolding is_ended get_terminator status
  is_ended-ended s h = rw (h.here, ended-terminator s.ir_module _ h.stopped) refl

  pub is_ended-Told : Triple (IsLeft sc e ps) is_ended (Told sc e ps)
  is_ended-Told =
      changes (λ s h. elim h [ inl o ↦ (false, s) | inr o ↦ (true, s) ])
        (λ s h.
          elim h as (λ h. is_ended s ≡ ok (elim h [ inl o ↦ (false, s) | inr o ↦ (true, s) ])) [
            | inl o ↦ is_ended-open s o
            | inr o ↦ is_ended-ended s o
          ])
        (λ s h.
          elim h
            as (λ h.
              let r : Bool × Codegen = elim h [ inl o ↦ (false, s) | inr o ↦ (true, s) ] in
              Told sc e ps r.0 r.1) [ inl o ↦ o | inr o ↦ o ])

  pub fall_to-ends : (q : ℕ) → Triple (IsLeft sc e ps) (fall_to q) λ _. IsEnded sc e ps
  unfolding fall_to
  fall_to-ends q = seq is_ended-Told by_test
    where
      by_test :
          (b : Bool)
          → Triple
              (Told sc e ps b)
              (if b then return tt else create_br q >> return tt)
              λ _. IsEnded sc e ps
      by_test true = returns λ s h. h
      by_test false = seq (create_br-ends q) λ _. returns λ s h. h
