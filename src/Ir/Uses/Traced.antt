-- ===== src/Ir/Uses/Traced.antt =====
-- Use lists in which each use is an operand of its user, and what set_operand does to them and to the
-- shapes of objects (src/lightir/User.cpp).
use gvn.Prelude.{
  ℕ, ◌≡◌, refl, ap, sym, ◌∙◌, ◌⊎◌, inl, inr, Bool, true, ◌&&◌, ◌||◌, Option, none, some, List, [],
  ◌∷◌, ◌++◌, ◌==◌, ==_iff, any, ltb, length, update, ok, fault, arith, Bool-cases,
}
use gvn.Ir.Opcodes.{OpId}
use gvn.Ir.Module.{Module, Value, constant, object, Use, Object, instr, block, operands_of}
use gvn.Ir.Uses.{add_use, write_operand, set_operand}
use gvn.Ir.Uses.Replaced.{operand_at}

-- The use list has the operand `k` of `b`.
abbrev pub has_use : List Use → ℕ → ℕ → Bool
has_use us b k = any (λ (u : Use). u.val == b && u.arg_no == k) us

-- Each use that the use list of an object has is an operand, and is that object.
abbrev pub IsTraced : Module → Type 0
IsTraced m = (a b k : ℕ) → has_use (m.use_list a) b k ≡ true → operand_at m b k ≡ some (object a)

-- What no replacement changes: opcodes, parents and predecessors.
abbrev pub shape : Object → Option (OpId × ℕ) × List ℕ
shape (instr i) = (some (i.op_id, i.parent), [])
shape (block b) = (none, b.pre_bbs)
shape _ = (none, [])

abbrev pub IsAlike : Module → Module → Type 0
IsAlike m m' = (x : ℕ) → shape (m'.at x) ≡ shape (m.at x)

has_use-append :
    (us vs : List Use) (b k : ℕ) → has_use (us ++ vs) b k ≡ (has_use us b k || has_use vs b k)
has_use-append [] vs b k = refl
has_use-append (u ∷ us) vs b k = ground (arith, has_use-append us vs b k)

shape-write_operand : (o : Object) (n : ℕ) (v : Value) → shape (write_operand o n v) ≡ shape o
unfolding write_operand
shape-write_operand (instr i) n v = refl
shape-write_operand (block b) n v = refl
shape-write_operand (Object.func f) n v = refl
shape-write_operand (Object.argument t) n v = refl
shape-write_operand (Object.global t) n v = refl

abbrev written : Module → ℕ → ℕ → Value → Module
written m user n v = record m { at = update m.at user (write_operand (m.at user) n v) }

set_operand-written :
    (m m' : Module) (user n : ℕ) (v : Value)
    → set_operand m user n v ≡ ok m'
    → add_use (written m user n v) v user n ≡ m'
unfolding set_operand
set_operand-written m m' user n v h = elim (Bool-cases (ltb n (length (operands_of (m.at user))))) [
  | inl e ↦ ap (λ r. elim r [ ok z ↦ z | fault f ↦ m' ]) (rw (e, set_operand) at h)
  | inr e ↦ cc (rw (e, set_operand) at h)
]

shape-add_use :
    (m : Module) (v : Value) (user n x : ℕ) → shape ((add_use m v user n).at x) ≡ shape (m.at x)
unfolding add_use
shape-add_use m (constant c) user n x = refl
shape-add_use m (object a) user n x = refl

pub set_operand-IsAlike :
    (m m' : Module) (user n : ℕ) (v : Value) → set_operand m user n v ≡ ok m' → IsAlike m m'
set_operand-IsAlike m m' user n v h x =
    ap (λ (z : Module). shape (z.at x)) (sym (set_operand-written m m' user n v h))
    ∙ shape-add_use (written m user n v) v user n x
    ∙ elim (Bool-cases (user == x)) [
      | inl e ↦
          rw e
            (shape-write_operand (m.at user) n v ∙ ap (λ z. shape (m.at z)) ((==_iff user x).0 e))
      | inr e ↦ rw e refl
    ]

add_use-has_use :
    (m : Module) (v : Value) (user n x b k : ℕ)
    → has_use ((add_use m v user n).use_list x) b k ≡ true
    → (has_use (m.use_list x) b k ≡ true) ⊎ ((v ≡ object x) × (user ≡ b) × (n ≡ k))
unfolding add_use
add_use-has_use m (constant c) user n x b k h = inl h
add_use-has_use m (object a) user n x b k h = elim (Bool-cases (a == x)) [
  | inr e ↦ inl (rw e at h)
  | inl e ↦
      let g = has_use-append (m.use_list a) (record { val = user; arg_no = n } ∷ []) b k in
      let s = (==_iff a x).0 e in
      elim (Bool-cases (has_use (m.use_list a) b k)) [
        | inl old ↦ inl (ap (λ z. has_use (m.use_list z) b k) (sym s) ∙ old)
        | inr new ↦
            let appended : has_use (m.use_list a ++ record { val = user; arg_no = n } ∷ []) b k
                ≡ true =
              rw e at h in
            inr (
              ap object s,
              ground (arith, appended, g, new, ==_iff user b),
              ground (arith, appended, g, new, ==_iff n k),
            )
      ]
]

pub set_operand-has_use :
    (m m' : Module) (user n : ℕ) (v : Value) (x b k : ℕ)
    → set_operand m user n v ≡ ok m'
    → has_use (m'.use_list x) b k ≡ true
    → (has_use (m.use_list x) b k ≡ true) ⊎ ((v ≡ object x) × (user ≡ b) × (n ≡ k))
set_operand-has_use m m' user n v x b k h t =
    add_use-has_use (written m user n v) v user n x b k
      (ap (λ (z : Module). has_use (z.use_list x) b k) (set_operand-written m m' user n v h) ∙ t)
