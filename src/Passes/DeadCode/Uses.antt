-- ===== src/Passes/DeadCode/Uses.antt =====
-- The use lists after sweep (User::remove_use_of_ops, Value::remove_use).
use gvn.Prelude.{
  ℕ, ◌≡◌, refl, ap, ◌∙◌, inl, inr, Bool, true, false, not, ◌||◌, List, [], ◌∷◌, ◌==◌, ==_iff,
  contains, keep, Bool-cases, any, arith,
}
use gvn.Ir.Module.{Module, Value, Use, Object, constant, object, operands_of}
use gvn.Passes.DeadCode.{
  remove_use, remove_uses, remove_use_of_ops, remove_all_uses, unlink, erase, erase_all, wait_del,
  sweep,
}
use gvn.Passes.DeadCode.Sweeping.{remove_uses-at}
use gvn.Ir.Module.{instr}

-- No use of `user` stands in the use list of `d`.
abbrev pub IsUnused : Module → ℕ → ℕ → Type 0
IsUnused m user d = any (λ u. u.val == user) (m.use_list d) ≡ false

any-keep :
    (user other : ℕ) (us : List Use)
    → any (λ u. u.val == user) us ≡ false
    → any (λ u. u.val == user) (keep (λ u. not (u.val == other)) us) ≡ false
any-keep user other [] h = refl
any-keep user other (u ∷ us) h = ground (arith, any-keep user other us)

any-keep_self :
    (user : ℕ) (us : List Use)
    → any (λ u. u.val == user) (keep (λ u. not (u.val == user)) us) ≡ false
any-keep_self user [] = refl
any-keep_self user (u ∷ us) = ground (arith, any-keep_self user us)

remove_use-IsUnused :
    (m : Module) (v : Value) (other user d : ℕ)
    → IsUnused m user d
    → IsUnused (remove_use m v other) user d
unfolding remove_use
remove_use-IsUnused m (constant c) other user d h = h
remove_use-IsUnused m (object a) other user d h = elim (Bool-cases (a == d)) [
  | inl e ↦ rw (e, (==_iff a d).0 e) (any-keep user other (m.use_list d) h)
  | inr e ↦ rw e h
]

remove_uses-IsUnused :
    (m : Module) (vs : List Value) (other user d : ℕ)
    → IsUnused m user d
    → IsUnused (remove_uses m vs other) user d
unfolding remove_uses
remove_uses-IsUnused m [] other user d h = h
remove_uses-IsUnused m (v ∷ vs) other user d h =
    remove_uses-IsUnused (remove_use m v other) vs other user d
      (remove_use-IsUnused m v other user d h)

-- The operands of a list that are the object `d`.
abbrev pub has_object : List Value → ℕ → Bool
has_object [] d = false
has_object (constant c ∷ vs) d = has_object vs d
has_object (object a ∷ vs) d = a == d || has_object vs d

remove_uses-done :
    (m : Module) (vs : List Value) (user d : ℕ)
    → has_object vs d ≡ true
    → IsUnused (remove_uses m vs user) user d
unfolding remove_uses
remove_uses-done m [] user d h = cc
remove_uses-done m (constant c ∷ vs) user d h = remove_uses-done _ vs user d h
remove_uses-done m (object a ∷ vs) user d h = elim (Bool-cases (a == d)) [
  | inl e ↦
      remove_uses-IsUnused (remove_use m (object a) user) vs user user d
        (unfold remove_use in rw (e, (==_iff a d).0 e) (any-keep_self user (m.use_list d)))
  | inr e ↦ remove_uses-done (remove_use m (object a) user) vs user d (ground arith)
]

remove_all_uses-IsUnused :
    (m : Module) (xs : List ℕ) (user d : ℕ)
    → IsUnused m user d
    → IsUnused (remove_all_uses m xs) user d
unfolding remove_all_uses remove_use_of_ops
remove_all_uses-IsUnused m [] user d h = h
remove_all_uses-IsUnused m (a ∷ xs) user d h =
    remove_all_uses-IsUnused (remove_use_of_ops m a) xs user d
      (remove_uses-IsUnused m (operands_of (m.at a)) a user d h)

remove_all_uses-done :
    (m : Module) (xs : List ℕ) (user d : ℕ)
    → contains xs user ≡ true
    → has_object (operands_of (m.at user)) d ≡ true
    → IsUnused (remove_all_uses m xs) user d
unfolding remove_all_uses remove_use_of_ops
remove_all_uses-done m [] user d i h = cc
remove_all_uses-done m (a ∷ xs) user d i h = elim (Bool-cases (a == user)) [
  | inl e ↦
      let same = (==_iff a user).0 e in
      remove_all_uses-IsUnused (remove_use_of_ops m a) xs user d
        (rw same (remove_uses-done m (operands_of (m.at user)) user d h))
  | inr e ↦ remove_all_uses-done (remove_use_of_ops m a) xs user d (ground arith) (
      ap (λ (at : ℕ → Object). has_object (operands_of (at user)) d)
        (remove_uses-at m (operands_of (m.at a)) a)
      ∙ h)
]

unlink-uses : (m : Module) (o : Object) (a : ℕ) → (unlink m o a).use_list ≡ m.use_list
unfolding unlink
unlink-uses m (instr i) a = refl
unlink-uses m _ a = refl

erase_all-uses : (m : Module) (xs : List ℕ) → (erase_all m xs).use_list ≡ m.use_list
unfolding erase_all erase
erase_all-uses m [] = refl
erase_all-uses m (a ∷ xs) = erase_all-uses (erase m a) xs ∙ unlink-uses m (m.at a) a

-- After `sweep`, none of the objects that are operands of a deleted instruction names it as a user
-- in its use list.
pub sweep-IsUnused :
    (m : Module) (marked : ℕ → Bool) (f a d : ℕ)
    → contains (wait_del m marked f) a ≡ true
    → has_object (operands_of (m.at a)) d ≡ true
    → IsUnused (sweep m marked f).0 a d
unfolding sweep
sweep-IsUnused m marked f a d i h =
    ap (λ (uses : ℕ → List Use). any (λ u. u.val == a) (uses d))
      (erase_all-uses (remove_all_uses m (wait_del m marked f)) (wait_del m marked f))
    ∙ remove_all_uses-done m (wait_del m marked f) a d i h
