-- ===== src/Gvn/Transfer/Congruence.antt =====
-- What a transfer makes congruent.
use gvn.Prelude.{
  ok-injective, ℕ, ◌≡◌, refl, ap, sym, ◌∙◌, ◌≢◌, inl, inr, Bool, true, false, not, ◌&&◌, ◌||◌,
  Option, none, some, List, [], ◌∷◌, ◌==◌, ==_iff, contains, any, ok, arith, Bool-cases, >>=-eq-ok,
}
use gvn.Ir.Constants.{FloatOps}
use gvn.Ir.Module.{Module, Instr}
use gvn.Gvn.Expr.{Expr}
use gvn.Gvn.Class.{CongruenceClass, Partitions, Phi, Counter, erase_member, insert_class, together}
use gvn.Gvn.Class.Sets.{contains-insert_member, contains-erase_member, AllRising, indices}
use gvn.Gvn.ValueExpr.{value_expr_of}
use gvn.Gvn.ValuePhi.{value_phi_func}
use gvn.Gvn.Transfer.{
  is_phi, erase_value, settle, matches, insert_matching, new_class, place, erased,
  transfer_function,
}

-- A class of `p` whose value is `s` holds `w`.
abbrev pub held_with : Expr × Option Phi → Partitions → ℕ → Bool
held_with s p w = any (λ (c : CongruenceClass). contains c.members w && matches s c) p

matches-members :
    (s : Expr × Option Phi) (c : CongruenceClass) (ms : List ℕ)
    → matches s (record c { members = ms }) ≡ matches s c
unfolding matches
matches-members (ve, none) c ms = refl
matches-members (ve, some p) c ms = refl

held_with-erase_value :
    (s : Expr × Option Phi) (x w : ℕ) (p : Partitions)
    → AllRising p
    → w ≢ x
    → held_with s (erase_value x p) w ≡ held_with s p w
unfolding erase_value
held_with-erase_value s x w [] r n = refl
held_with-erase_value s x w (c ∷ p) r n = ground (
  arith,
  held_with-erase_value s x w p r.1 n,
  contains-erase_member 0 x c.members w r.0,
  matches-members s c (erase_member x c.members),
  ==_iff x w,
)

together-erase_value :
    (x v w : ℕ) (p : Partitions)
    → AllRising p
    → together (erase_value x p) v w ≡ (together p v w && not (x == v) && not (x == w))
unfolding erase_value
together-erase_value x v w [] r = refl
together-erase_value x v w (c ∷ p) r = ground (
  arith,
  together-erase_value x v w p r.1,
  contains-erase_member 0 x c.members v r.0,
  contains-erase_member 0 x c.members w r.0,
)

together-insert_matching :
    (x v w : ℕ) (s : Expr × Option Phi) (p : Partitions)
    → v ≢ x
    → w ≢ x
    → together (insert_matching x s p) v w ≡ together p v w
unfolding insert_matching
together-insert_matching x v w s [] a b = refl
together-insert_matching x v w s (c ∷ p) a b = ground (
  arith,
  together-insert_matching x v w s p a b,
  contains-insert_member x c.members v,
  contains-insert_member x c.members w,
  ==_iff x v,
  ==_iff x w,
)

held-insert_matching :
    (x w : ℕ) (s : Expr × Option Phi) (p : Partitions)
    → w ≢ x
    → together p x w ≡ false
    → together (insert_matching x s p) x w ≡ held_with s p w
unfolding insert_matching
held-insert_matching x w s [] n f = refl
held-insert_matching x w s (c ∷ p) n f = ground (
  arith,
  held-insert_matching x w s p n,
  contains-insert_member x c.members x,
  contains-insert_member x c.members w,
  ==_iff x w,
  ==_iff x x,
)

-- A class with one member brings no two values together.
pub together-insert_single :
    (x : ℕ) (c : CongruenceClass) (p : Partitions) (v w : ℕ)
    → c.members ≡ x ∷ []
    → w ≢ x
    → together (insert_class c p) v w ≡ together p v w
unfolding insert_class
together-insert_single x c [] v w e n = ground (arith, ==_iff x w)
together-insert_single x c (d ∷ p) v w e n =
    ground (arith, together-insert_single x c p v w e n, ==_iff x w)

place-together :
    (b : Bool) (x : ℕ) (s : Expr × Option Phi) (p : Partitions) (k : Counter) (v w : ℕ)
    → w ≢ x
    → together (place b x s p k).0 v w ≡ together (insert_matching x s p) v w
unfolding place
place-together b x s p k v w n = elim (Bool-cases (any (matches s) p || b)) [
  | inl e ↦ rw e (refl)
  | inr e ↦ rw e (
      together-insert_single x (new_class x s k.next_value_number) (insert_matching x s p) v w refl
        n)
]

-- Where no class of the value exists and the value number is free, `x` has a class of its own.
insert_matching-holds :
    (x : ℕ) (s : Expr × Option Phi) (p : Partitions)
    → any (matches s) p ≡ true
    → together (insert_matching x s p) x x ≡ true
unfolding insert_matching
insert_matching-holds x s [] h = cc
insert_matching-holds x s (c ∷ p) h =
    ground (arith, insert_matching-holds x s p, contains-insert_member x c.members x, ==_iff x x)

insert_class-holds :
    (c : CongruenceClass) (p : Partitions) (x : ℕ)
    → contains (indices p) c.index ≡ false
    → contains c.members x ≡ true
    → together (insert_class c p) x x ≡ true
unfolding insert_class
insert_class-holds c [] x f h = ground arith
insert_class-holds c (d ∷ p) x f h = ground (arith, insert_class-holds c p x)

indices-insert_matching :
    (x : ℕ) (s : Expr × Option Phi) (p : Partitions) → indices (insert_matching x s p) ≡ indices p
unfolding insert_matching
indices-insert_matching x s [] = refl
indices-insert_matching x s (c ∷ p) = ground (arith, indices-insert_matching x s p)

indices-erase_value : (x : ℕ) (p : Partitions) → indices (erase_value x p) ≡ indices p
unfolding erase_value
indices-erase_value x [] = refl
indices-erase_value x (c ∷ p) = ap (λ is. c.index ∷ is) (indices-erase_value x p)

place-holds :
    (x : ℕ) (s : Expr × Option Phi) (p : Partitions) (k : Counter)
    → contains (indices p) k.next_value_number ≡ false
    → together (place false x s p k).0 x x ≡ true
unfolding place
place-holds x s p k f = elim (Bool-cases (any (matches s) p)) [
  | inl e ↦ rw e (insert_matching-holds x s p e)
  | inr e ↦ rw e (
      insert_class-holds (new_class x s k.next_value_number) (insert_matching x s p) x
        (ap (λ is. contains is k.next_value_number) (indices-insert_matching x s p) ∙ f)
        (ground (arith, ==_iff x x)))
]

module _ (fl : FloatOps) (m : Module) (is_pure : ℕ → Bool) (pout : ℕ → Partitions) where
  -- A transfer of `x` keeps which of the other values are congruent, in each partition whose sets of
  -- members are in order.
  pub transfer_function-others :
      (fuel x : ℕ) (i : Instr) (bb : ℕ) (pin : Partitions) (k : Counter) (r : Partitions × Counter)
      (v w : ℕ)
      → AllRising pin
      → v ≢ x
      → w ≢ x
      → transfer_function fl m is_pure pout fuel x i bb pin k ≡ ok r
      → together r.0 v w ≡ together pin v w
  unfolding transfer_function
  transfer_function-others fuel x i bb pin k r v w rising a b h =
      let (ve, _, h1) = >>=-eq-ok (value_expr_of fl m is_pure pin x i) _ h in
      let (p, _, h2) = >>=-eq-ok (value_phi_func fl m pout fuel ve pin bb k.next_addr) _ h1 in
      let k' = record k { next_addr = p.1 } in
      let q = erased (is_phi i) x pin in
      ap (λ (z : Partitions × Counter). together z.0 v w) (sym (ok-injective h2))
      ∙ place-together (is_phi i) x (settle ve p.0) q k' v w b
      ∙ together-insert_matching x v w (settle ve p.0) q a b
      ∙ erased-others (is_phi i)
    where
      erased-others : (b' : Bool) → together (erased b' x pin) v w ≡ together pin v w
      erased-others true = refl
      erased-others false =
          ground (arith, together-erase_value x v w pin rising, ==_iff x v, ==_iff x w)

  pub transfer_function-congruent :
      (fuel x : ℕ) (i : Instr) (bb : ℕ) (pin : Partitions) (k : Counter) (ve : Expr)
      (vpf : Option Phi) (n w : ℕ)
      → AllRising pin
      → is_phi i ≡ false
      → value_expr_of fl m is_pure pin x i ≡ ok ve
      → value_phi_func fl m pout fuel ve pin bb k.next_addr ≡ ok (vpf, n)
      → w ≢ x
      → (r : Partitions × Counter) × (transfer_function fl m is_pure pout fuel x i bb pin k ≡ ok r)
        × (together r.0 x w ≡ held_with (settle ve vpf) pin w)
  unfolding transfer_function
  transfer_function-congruent fuel x i bb pin k ve vpf n w rising np e1 e2 a =
      let k' = record k { next_addr = n } in
      let s = settle ve vpf in
      (
        place false x s (erase_value x pin) k',
        rw (e1, e2, np) (refl),
        place-together false x s (erase_value x pin) k' x w a
            ∙ held-insert_matching x w s (erase_value x pin) a
                (ground (arith, together-erase_value x x w pin rising, ==_iff x x))
            ∙ held_with-erase_value s x w pin rising a,
      )

  -- After a transfer of an `x` that is no phi, under a value number that no class has, some class
  -- holds `x`.
  pub transfer_function-holds :
      (fuel x : ℕ) (i : Instr) (bb : ℕ) (pin : Partitions) (k : Counter) (r : Partitions × Counter)
      → is_phi i ≡ false
      → contains (indices pin) k.next_value_number ≡ false
      → transfer_function fl m is_pure pout fuel x i bb pin k ≡ ok r
      → together r.0 x x ≡ true
  unfolding transfer_function
  transfer_function-holds fuel x i bb pin k r np fresh h =
      let (ve, _, h1) = >>=-eq-ok (value_expr_of fl m is_pure pin x i) _ h in
      let (p, _, h2) = >>=-eq-ok (value_phi_func fl m pout fuel ve pin bb k.next_addr) _ h1 in
      let k' = record k { next_addr = p.1 } in
      ap (λ (z : Partitions × Counter). together z.0 x x) (sym (ok-injective h2))
      ∙ ap (λ b. together (place b x (settle ve p.0) (erased b x pin) k').0 x x) np
      ∙ place-holds x (settle ve p.0) (erase_value x pin) k'
          (ap (λ is. contains is k.next_value_number) (indices-erase_value x pin) ∙ fresh)
