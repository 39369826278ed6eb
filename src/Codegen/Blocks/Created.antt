-- ===== src/Codegen/Blocks/Created.antt =====
-- What the constructors of new objects do to the blocks that have ended and those that wait.
use gvn.Prelude.{
  ℕ, suc, ◌+◌, ◌≡◌, ◌≢◌, refl, subst, none, List, [], ◌∷◌, arith, inl, inr, ◌==◌, Bool-cases,
  ==_iff, ==_refl, update,
}
use gvn.Prelude.Texts.{Text}
use gvn.Ir.Types.{Ty, Tys, none_left, param}
use gvn.Ir.Uses.{add_use}
use gvn.Ir.Module.{Module, Value, constant, object, Object, instr, block, func, argument, global}
use gvn.Codegen.Create.{
  add_object, add_uses, add_pre, add_succ, add_block, modify, add_pred, add_next, insert_block_at,
  add_args, insert_func, insert_global, count_args, empty_block, label,
}
use gvn.Codegen.Builder.{is_terminator}
use gvn.Codegen.Blocks.{code}
use gvn.Codegen.Blocks.Laid.{Laid, Laid-quiet, Laid-object, Laid-block}

pub update-other : (m : Module) (a x : ℕ) (o : Object) → a ≢ x → update m.at a o x ≡ m.at x
update-other m a x o d = elim (Bool-cases (a == x)) [
  | inl e ↦ absurd (d ((==_iff a x).0 e))
  | inr e ↦ rw e refl
]

pub update-same : (m : Module) (a : ℕ) (o : Object) → update m.at a o a ≡ o
update-same m a o = rw (==_refl a) refl

pub add_uses-at : (vs : List Value) (m : Module) (a n : ℕ) → (add_uses m vs a n).at ≡ m.at
unfolding add_uses add_use
add_uses-at [] m a n = refl
add_uses-at (constant c ∷ vs) m a n = add_uses-at vs _ a (suc n)
add_uses-at (object v ∷ vs) m a n = add_uses-at vs _ a (suc n)

-- `Laid` reads the objects only.
pub Laid-at : (m m' : Module) (n : ℕ) (ps : List ℕ) → m'.at ≡ m.at → Laid m n ps → Laid m' n ps
Laid-at m m' n ps e = Laid-quiet m m' n ps (λ i k. rw e refl) (λ x. rw e refl)

-- A change of an object that keeps its code.
modify-Laid :
    (m : Module) (n a : ℕ) (ps : List ℕ) (f : Object → Object)
    → ((o : Object) → (code (f o) ≡ code o) × (is_terminator (f o) ≡ is_terminator o))
    → Laid m n ps
    → Laid (modify m a f) n ps
modify-Laid m n a ps f h =
    Laid-quiet m (modify m a f) n ps
      (λ i k. elim (Bool-cases (a == i)) [
        | inl e ↦ rw (e, (h _).1, (==_iff a i).0 e) refl
        | inr e ↦ rw e refl
      ])
      (λ x. elim (Bool-cases (a == x)) [
        | inl e ↦ rw (e, (h _).0, (==_iff a x).0 e) refl
        | inr e ↦ rw e refl
      ])

add_block-keeps :
    (n : ℕ) (o : Object)
    → (code (add_block o n) ≡ code o) × (is_terminator (add_block o n) ≡ is_terminator o)
unfolding add_block
add_block-keeps n (instr o) = (refl, refl)
add_block-keeps n (block o) = (refl, refl)
add_block-keeps n (func o) = (refl, refl)
add_block-keeps n (argument o) = (refl, refl)
add_block-keeps n (global o) = (refl, refl)

add_pre-keeps :
    (n : ℕ) (o : Object)
    → (code (add_pre o n) ≡ code o) × (is_terminator (add_pre o n) ≡ is_terminator o)
unfolding add_pre
add_pre-keeps n (instr o) = (refl, refl)
add_pre-keeps n (block o) = (refl, refl)
add_pre-keeps n (func o) = (refl, refl)
add_pre-keeps n (argument o) = (refl, refl)
add_pre-keeps n (global o) = (refl, refl)

add_succ-keeps :
    (n : ℕ) (o : Object)
    → (code (add_succ o n) ≡ code o) × (is_terminator (add_succ o n) ≡ is_terminator o)
unfolding add_succ
add_succ-keeps n (instr o) = (refl, refl)
add_succ-keeps n (block o) = (refl, refl)
add_succ-keeps n (func o) = (refl, refl)
add_succ-keeps n (argument o) = (refl, refl)
add_succ-keeps n (global o) = (refl, refl)

pub add_object-Laid :
    (m : Module) (n : ℕ) (o : Object) (name : Text) (ps : List ℕ)
    → code o ≡ none
    → Laid m n ps
    → Laid (add_object m n o name) (suc n) ps
unfolding add_object
add_object-Laid m n o name ps e =
    Laid-object m _ n ps (λ i k. rw (update-other m n i o λ q. omega (arith, k, q)) refl)
      (rw (update-same m n o) e) (λ x d. rw (update-other m n x o d) refl)

pub insert_block_at-Laid :
    (m : Module) (n : ℕ) (name : Text) (f : ℕ) (ps : List ℕ)
    → Laid m n ps
    → Laid (insert_block_at m n name f) (suc n) (n ∷ ps)
unfolding insert_block_at add_object add_block
insert_block_at-Laid m n name f ps l =
    modify-Laid (add_object m n (empty_block f) (label name)) _ f _ (λ o. add_block o n)
      (add_block-keeps n)
      (Laid-block m _ n ps (λ i k. rw (update-other m n i _ λ q. omega (arith, k, q)) refl)
        (rw (update-same m n _) refl) (λ x d. rw (update-other m n x _ d) refl) l)

pub add_pred-Laid :
    (m : Module) (n b q : ℕ) (ps : List ℕ) → Laid m n ps → Laid (add_pred m b q) n ps
unfolding add_pred add_pre
add_pred-Laid m n b q ps = modify-Laid m n q ps (λ o. add_pre o b) (add_pre-keeps b)

pub add_next-Laid :
    (m : Module) (n b q : ℕ) (ps : List ℕ) → Laid m n ps → Laid (add_next m b q) n ps
unfolding add_next add_succ
add_next-Laid m n b q ps = modify-Laid m n b ps (λ o. add_succ o q) (add_succ-keeps q)

pub add_args-Laid :
    (ts : Tys) (m : Module) (n : ℕ) (ps : List ℕ)
    → Laid m n ps
    → Laid (add_args m n ts) (n + count_args ts) ps
unfolding add_args
add_args-Laid none_left m n ps l = subst (λ k. Laid m k ps) (omega arith) l
add_args-Laid (param t ts) m n ps l =
    subst (λ k. Laid (add_args m n (param t ts)) k ps) (omega arith)
      (add_args-Laid ts _ (suc n) ps (add_object-Laid m n (argument t) [] ps refl l))

pub insert_func-Laid :
    (m : Module) (n : ℕ) (ret : Ty) (ts : Tys) (name : Text) (ps : List ℕ)
    → Laid m n ps
    → Laid (insert_func m n ret ts name) (suc n + count_args ts) ps
unfolding insert_func
insert_func-Laid m n ret ts name ps l =
    add_args-Laid ts _ (suc n) ps (Laid-at _ _ _ ps refl (add_object-Laid m n _ name ps refl l))

pub insert_global-Laid :
    (m : Module) (n : ℕ) (ty : Ty) (name : Text) (ps : List ℕ)
    → Laid m n ps
    → Laid (insert_global m n ty name) (suc n) ps
unfolding insert_global
insert_global-Laid m n ty name ps l = Laid-at _ _ _ ps refl (add_object-Laid m n _ name ps refl l)
