-- ===== src/Codegen/Blocks/Linked.antt =====
-- The lists of the successors and of the predecessors of blocks, under new objects.
use gvn.Prelude.{
  ℕ, suc, ◌+◌, ◌≡◌, ◌≢◌, ◌≤◌, refl, subst, true, none, [], arith, inl, inr, ◌==◌, contains,
  Bool-cases, ==_iff,
}
use gvn.Prelude.Texts.{Text}
use gvn.Ir.Types.{Ty, Tys, none_left, param}
use gvn.Ir.Module.{Module, Object, instr, block, func, argument, global, Instr, succs_of, pres_of}
use gvn.Codegen.Create.{
  add_object, add_instruction, add_block, modify, insert_instr, insert_block_at, add_args,
  insert_func, insert_global, count_args, empty_block, label,
}
use gvn.Codegen.Blocks.{code}
use gvn.Codegen.Blocks.Created.{add_uses-at}

-- No block stands from `n` on.
pub record Linked (m : Module) (n : ℕ) : Type 0 where
  pub fresh : (a : ℕ) → n ≤ a → code (m.at a) ≡ none
  pub edges :
      (x y : ℕ) → contains (succs_of (m.at x)) y ≡ true → contains (pres_of (m.at y)) x ≡ true

no_pres : (o : Object) (x : ℕ) → code o ≡ none → contains (pres_of o) x ≢ true
no_pres (block b) x e = λ k. cc
no_pres (instr i) x e = λ k. cc
no_pres (func f) x e = λ k. cc
no_pres (argument t) x e = λ k. cc
no_pres (global t) x e = λ k. cc

-- A new object that leads nowhere.
pub add_object-Linked :
    (m : Module) (n : ℕ) (o : Object) (name : Text)
    → succs_of o ≡ []
    → Linked m n
    → Linked (add_object m n o name) (suc n)
unfolding add_object
add_object-Linked m n o name e l = record {
  fresh = λ a k. elim (Bool-cases (n == a)) [
    | inl q ↦ absurd (omega (arith, k, (==_iff n a).0 q))
    | inr q ↦ rw q (l.fresh a (omega (arith, k)))
  ];
  edges = λ x y k. elim (Bool-cases (n == x)) [
    | inl q ↦ absurd (no_edge y (rw (q, e) at k))
    | inr q ↦ elim (Bool-cases (n == y)) [
      | inl p ↦ absurd (
          no_pres (m.at y) x (l.fresh y (omega (arith, (==_iff n y).0 p)))
            (l.edges x y (rw q at k)))
      | inr p ↦ rw p (l.edges x y (rw q at k))
    ]
  ];
}
  where
    no_edge : (y : ℕ) → contains [] y ≢ true
    no_edge y h = cc

-- A change of an object that keeps its edges.
record KeepsEdges (f : Object → Object) : Type 0 where
  none_stays : (o : Object) → code o ≡ none → code (f o) ≡ none
  succs_stay : (o : Object) → succs_of (f o) ≡ succs_of o
  pres_stay : (o : Object) → pres_of (f o) ≡ pres_of o

modify-Linked :
    (m : Module) (n a : ℕ) (f : Object → Object)
    → KeepsEdges f
    → Linked m n
    → Linked (modify m a f) n
modify-Linked m n a f h l =
    let succs : (x : ℕ) → succs_of ((modify m a f).at x) ≡ succs_of (m.at x) = λ x.
      elim (Bool-cases (a == x)) [
        | inl q ↦ rw (q, h.succs_stay, (==_iff a x).0 q) refl
        | inr q ↦ rw q refl
      ] in
    let pres : (x : ℕ) → pres_of ((modify m a f).at x) ≡ pres_of (m.at x) = λ x.
      elim (Bool-cases (a == x)) [
        | inl q ↦ rw (q, h.pres_stay, (==_iff a x).0 q) refl
        | inr q ↦ rw q refl
      ] in
    record {
      fresh = λ x k. elim (Bool-cases (a == x)) [
        | inl q ↦ rw q (h.none_stays (m.at a) (rw ((==_iff a x).0 q) (l.fresh x k)))
        | inr q ↦ rw q (l.fresh x k)
      ];
      edges = λ x y k. rw (pres y) (l.edges x y (rw (succs x) at k));
    }

Linked-at : (m m' : Module) (n : ℕ) → m'.at ≡ m.at → Linked m n → Linked m' n
Linked-at m m' n e l = record {
  fresh = λ a k. rw e (l.fresh a k);
  edges = λ x y k. rw e (l.edges x y (rw e at k));
}

add_instruction-none : (n : ℕ) (o : Object) → code o ≡ none → code (add_instruction o n) ≡ none
unfolding add_instruction
add_instruction-none n (instr o) e = refl
add_instruction-none n (block o) e = cc
add_instruction-none n (func o) e = refl
add_instruction-none n (argument o) e = refl
add_instruction-none n (global o) e = refl

add_instruction-succs : (n : ℕ) (o : Object) → succs_of (add_instruction o n) ≡ succs_of o
unfolding add_instruction
add_instruction-succs n (instr o) = refl
add_instruction-succs n (block o) = refl
add_instruction-succs n (func o) = refl
add_instruction-succs n (argument o) = refl
add_instruction-succs n (global o) = refl

add_instruction-pres : (n : ℕ) (o : Object) → pres_of (add_instruction o n) ≡ pres_of o
unfolding add_instruction
add_instruction-pres n (instr o) = refl
add_instruction-pres n (block o) = refl
add_instruction-pres n (func o) = refl
add_instruction-pres n (argument o) = refl
add_instruction-pres n (global o) = refl

add_instruction-KeepsEdges : (n : ℕ) → KeepsEdges λ o. add_instruction o n
add_instruction-KeepsEdges n = record {
  none_stays = add_instruction-none n;
  succs_stay = add_instruction-succs n;
  pres_stay = add_instruction-pres n;
}

add_block-none : (n : ℕ) (o : Object) → code o ≡ none → code (add_block o n) ≡ none
unfolding add_block
add_block-none n (instr o) e = refl
add_block-none n (block o) e = cc
add_block-none n (func o) e = refl
add_block-none n (argument o) e = refl
add_block-none n (global o) e = refl

add_block-succs : (n : ℕ) (o : Object) → succs_of (add_block o n) ≡ succs_of o
unfolding add_block
add_block-succs n (instr o) = refl
add_block-succs n (block o) = refl
add_block-succs n (func o) = refl
add_block-succs n (argument o) = refl
add_block-succs n (global o) = refl

add_block-pres : (n : ℕ) (o : Object) → pres_of (add_block o n) ≡ pres_of o
unfolding add_block
add_block-pres n (instr o) = refl
add_block-pres n (block o) = refl
add_block-pres n (func o) = refl
add_block-pres n (argument o) = refl
add_block-pres n (global o) = refl

add_block-KeepsEdges : (n : ℕ) → KeepsEdges λ o. add_block o n
add_block-KeepsEdges n = record {
  none_stays = add_block-none n;
  succs_stay = add_block-succs n;
  pres_stay = add_block-pres n;
}

pub insert_instr-Linked :
    (m : Module) (n : ℕ) (i : Instr) → Linked m n → Linked (insert_instr m n i) (suc n)
unfolding insert_instr
insert_instr-Linked m n i l =
    let m' : Module = add_object m n (instr i) [] in
    Linked-at (modify m' i.parent λ o. add_instruction o n) _ (suc n) (add_uses-at i.operands _ n 0)
      (modify-Linked m' (suc n) i.parent (λ o. add_instruction o n) (add_instruction-KeepsEdges n)
        (add_object-Linked m n (instr i) [] refl l))

pub insert_block_at-Linked :
    (m : Module) (n : ℕ) (name : Text) (f : ℕ)
    → Linked m n
    → Linked (insert_block_at m n name f) (suc n)
unfolding insert_block_at
insert_block_at-Linked m n name f l =
    modify-Linked (add_object m n (empty_block f) (label name)) (suc n) f (λ o. add_block o n)
      (add_block-KeepsEdges n) (add_object-Linked m n (empty_block f) (label name) refl l)

add_args-Linked :
    (ts : Tys) (m : Module) (n : ℕ) → Linked m n → Linked (add_args m n ts) (n + count_args ts)
unfolding add_args
add_args-Linked none_left m n l = subst (λ k. Linked m k) (omega arith) l
add_args-Linked (param t ts) m n l =
    subst (λ k. Linked (add_args m n (param t ts)) k) (omega arith)
      (add_args-Linked ts _ (suc n) (add_object-Linked m n (argument t) [] refl l))

pub insert_func-Linked :
    (m : Module) (n : ℕ) (ret : Ty) (ts : Tys) (name : Text)
    → Linked m n
    → Linked (insert_func m n ret ts name) (suc n + count_args ts)
unfolding insert_func
insert_func-Linked m n ret ts name l =
    add_args-Linked ts _ (suc n) (Linked-at _ _ _ refl (add_object-Linked m n _ name refl l))

pub insert_global-Linked :
    (m : Module) (n : ℕ) (ty : Ty) (name : Text)
    → Linked m n
    → Linked (insert_global m n ty name) (suc n)
unfolding insert_global
insert_global-Linked m n ty name l = Linked-at _ _ _ refl (add_object-Linked m n _ name refl l)
