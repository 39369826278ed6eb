-- ===== src/Codegen/Blocks/Inserted.antt =====
-- What a new instruction does to the block that it is appended to.
use gvn.Prelude.{
  ℕ, suc, ◌≡◌, ◌≢◌, refl, ◌∙◌, true, false, some, List, [], ◌∷◌, ◌++◌, arith, inl, inr, ◌==◌,
  Bool-cases, ==_iff,
}
use gvn.Ir.Module.{Module, Object, instr, block, func, argument, global, Instr}
use gvn.Codegen.Create.{add_object, add_instruction, modify, insert_instr}
use gvn.Codegen.Builder.{is_terminator}
use gvn.Codegen.Blocks.{unended, ended, code, code_status, status, Alike, status-Alike}
use gvn.Codegen.Blocks.Laid.{Laid, Laid-append, Laid-end, status-append}
use gvn.Codegen.Blocks.Created.{update-other, update-same, add_uses-at, Laid-at, add_object-Laid}

code-unended :
    (m : Module) (o : Object)
    → code_status m (code o) ≡ unended
    → (is : List ℕ) × (code o ≡ some is)
      × ((n : ℕ) → code (add_instruction o n) ≡ some (is ++ n ∷ []))
unfolding add_instruction
code-unended m (block b) e = (b.instr_list, refl, λ n. refl)
code-unended m (instr i) e = cc
code-unended m (func i) e = cc
code-unended m (argument i) e = cc
code-unended m (global i) e = cc

add_instruction-ends : (o : Object) (n : ℕ) → is_terminator (add_instruction o n) ≡ is_terminator o
unfolding add_instruction
add_instruction-ends (block b) n = refl
add_instruction-ends (instr i) n = refl
add_instruction-ends (func i) n = refl
add_instruction-ends (argument i) n = refl
add_instruction-ends (global i) n = refl

-- A new instruction in the block that waits first.
module _ (m : Module) (n : ℕ) (i : Instr) (ps : List ℕ) (l : Laid m n (i.parent ∷ ps)) where
  with_instr : Module
  with_instr = add_object m n (instr i) []

  with_instr-Laid : Laid with_instr (suc n) (i.parent ∷ ps)
  unfolding with_instr
  with_instr-Laid = add_object-Laid m n (instr i) [] _ refl l

  appended : Module
  appended = modify with_instr i.parent λ o. add_instruction o n

  kind : is_terminator (with_instr.at n) ≡ is_terminator (instr i)
  unfolding with_instr add_object
  kind = rw (update-same m n (instr i)) refl

  found :
      (is : List ℕ) × (code (with_instr.at i.parent) ≡ some is)
      × ((k : ℕ) → code (add_instruction (with_instr.at i.parent) k) ≡ some (is ++ k ∷ []))
  unfolding status
  found = code-unended with_instr _ with_instr-Laid.waiting.1

  alike : Alike with_instr appended (suc n)
  unfolding appended
  alike j k = elim (Bool-cases (i.parent == j)) [
    | inl e ↦ rw (e, add_instruction-ends, (==_iff i.parent j).0 e) refl
    | inr e ↦ rw e refl
  ]

  at_parent : code (appended.at i.parent) ≡ some (found.0 ++ n ∷ [])
  unfolding appended
  at_parent = rw (update-same with_instr i.parent _) (found.2 n)

  elsewhere : (x : ℕ) → i.parent ≢ x → code (appended.at x) ≡ code (with_instr.at x)
  unfolding appended
  elsewhere x d = rw (update-other with_instr i.parent x _ d) refl

  inserted : (insert_instr m n i).at ≡ appended.at
  unfolding insert_instr appended with_instr
  inserted = add_uses-at i.operands _ n 0

  pub insert_instr-Laid :
      is_terminator (instr i) ≡ false → Laid (insert_instr m n i) (suc n) (i.parent ∷ ps)
  insert_instr-Laid f = Laid-at appended _ _ _ inserted (
      Laid-append with_instr appended (suc n) i.parent n ps found.0 alike (omega arith) found.1
        at_parent elsewhere with_instr-Laid (kind ∙ f))

  pub insert_instr-ends : is_terminator (instr i) ≡ true → Laid (insert_instr m n i) (suc n) ps
  insert_instr-ends f = Laid-at appended _ _ _ inserted (
      Laid-end with_instr appended (suc n) i.parent n ps found.0 alike (omega arith) found.1
        at_parent elsewhere with_instr-Laid (kind ∙ f))

  pub insert_instr-ended :
      is_terminator (instr i) ≡ true → status (insert_instr m n i) i.parent ≡ ended
  insert_instr-ended f =
      status-Alike appended _ (suc n) _ (λ j k. rw inserted refl)
        ((Laid-end with_instr appended (suc n) i.parent n ps found.0 alike (omega arith) found.1
            at_parent elsewhere with_instr-Laid (kind ∙ f)).bounded
          _)
        (rw inserted refl)
      ∙ rw
          (
            status-append with_instr appended (suc n) i.parent n ps found.0 alike (omega arith)
                found.1 at_parent elsewhere with_instr-Laid,
            kind,
            f,
          )
          refl
