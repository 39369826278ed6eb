-- ===== src/Gvn/ValuePhi/Depth.antt =====
-- The recursion of valuePhiFunc ends: each call is on an expression of smaller depth.
use gvn.Prelude.{
  ℕ, zero, suc, ◌≤◌, ◌<◌, ◌≡◌, refl, ◌≢◌, inl, inr, ◌||◌, Option, some, List, [], ◌∷◌, Result, ok,
  fault, out_of_fuel, ◌>>=◌, arith, >>=-eq-ok, Bool-cases, Option-cases,
}
use Prim.Native.Nat.{max}
use gvn.Ir.Opcodes.{OpId}
use gvn.Ir.Constants.{FloatOps, Constant, int_const, fp_const}
use gvn.Ir.Module.{Module, pres_of}
use gvn.Gvn.Fold.{compute_op, int_arith, get_const_int_value, get_const_fp_value, on_ints, on_fps}
use gvn.Prelude.Integers.{ℤ}
use gvn.Gvn.Expr.{Expr, constant, bin, phi, is_null}
use gvn.Gvn.Class.{Partitions, Phi}
use gvn.Gvn.ValuePhi.{
  OverPhis, over_phis, side, front, back, get_vn, look_up, both_sides, value_phi_func, is_nil,
}

-- The depth of the operators bin and phi.
unfoldable pub depth : Expr → ℕ
depth (bin o a b) = suc (max (depth a) (depth b))
depth (phi a b) = suc (max (depth a) (depth b))
depth _ = 0

-- A result that is not for want of fuel.
abbrev Ends {ℓ} : {A : Type ℓ} → Result A → Type ℓ
Ends r = r ≢ fault out_of_fuel

Ends-bind {ℓ κ} :
    {A : Type ℓ} {B : Type κ} (r : Result A) (f : A → Result B)
    → Ends r
    → ((a : A) → r ≡ ok a → Ends (f a))
    → Ends (r >>= f)
Ends-bind (ok a) f h k = k a refl
Ends-bind (fault e) f h k = λ p. h (ground arith)

ok-injective {ℓ} : {A : Type ℓ} (a b : A) → ok a ≡ ok b → a ≡ b
ok-injective a b h = cc

some-injective {ℓ} : {A : Type ℓ} (a b : A) → some a ≡ some b → a ≡ b
some-injective a b h = cc

int_value-Ends : (c : Constant) → Ends (get_const_int_value c)
unfolding get_const_int_value
int_value-Ends (int_const w v) = cc
int_value-Ends _ = cc

fp_value-Ends : (c : Constant) → Ends (get_const_fp_value c)
unfolding get_const_fp_value
fp_value-Ends (fp_const b) = cc
fp_value-Ends _ = cc

int_arith-Ends : (o : OpId) (a b : ℤ) → Ends (int_arith o a b)
unfolding int_arith
int_arith-Ends OpId.sdiv a b = ground arith
int_arith-Ends _ a b = ground arith

module _ (fl : FloatOps) where
  on_ints-Ends :
      (c d : Constant) (f : ℤ → ℤ → Result Constant)
      → ((a b : ℤ) → Ends (f a b))
      → Ends (on_ints fl c d f)
  on_ints-Ends c d f h =
      Ends-bind (get_const_int_value c) _ (int_value-Ends c)
        (λ a _. Ends-bind (get_const_int_value d) _ (int_value-Ends d) (λ b _. h a b))

  on_fps-Ends :
      (c d : Constant) (f : ℕ → ℕ → Result Constant)
      → ((a b : ℕ) → Ends (f a b))
      → Ends (on_fps fl c d f)
  on_fps-Ends c d f h =
      Ends-bind (get_const_fp_value c) _ (fp_value-Ends c)
        (λ a _. Ends-bind (get_const_fp_value d) _ (fp_value-Ends d) (λ b _. h a b))

  compute_op-Ends : (o : OpId) (c d : Constant) → Ends (compute_op fl o c d)
  unfolding compute_op
  compute_op-Ends OpId.add c d = on_ints-Ends c d _ (int_arith-Ends OpId.add)
  compute_op-Ends OpId.sub c d = on_ints-Ends c d _ (int_arith-Ends OpId.sub)
  compute_op-Ends OpId.mul c d = on_ints-Ends c d _ (int_arith-Ends OpId.mul)
  compute_op-Ends OpId.sdiv c d = on_ints-Ends c d _ (int_arith-Ends OpId.sdiv)
  compute_op-Ends OpId.fadd c d = on_fps-Ends c d _ (λ a b. cc)
  compute_op-Ends OpId.fsub c d = on_fps-Ends c d _ (λ a b. cc)
  compute_op-Ends OpId.fmul c d = on_fps-Ends c d _ (λ a b. cc)
  compute_op-Ends OpId.fdiv c d = on_fps-Ends c d _ (λ a b. cc)
  compute_op-Ends _ c d = cc

  module _ (m : Module) (pout : ℕ → Partitions) where
    -- A side is shallower than the expression, or a constant.
    side-Ends :
        (o : OpId) (a b : Expr)
        → Ends (side fl m pout o a b)
          × ((v : Expr) → side fl m pout o a b ≡ ok v → depth v ≤ suc (max (depth a) (depth b)))
    unfolding side depth
    side-Ends o (constant c) (constant d) = (
      Ends-bind (compute_op fl o c d) _ (compute_op-Ends o c d) (λ r _. cc),
      λ v h.
          let (r, _, e) = >>=-eq-ok (compute_op fl o c d) _ h in
          rw (← ok-injective _ v e) (omega arith),
    )
    side-Ends o Expr.null b = (cc, λ v h. cc)
    side-Ends o (constant c) Expr.null = (cc, λ v h. cc)
    side-Ends o a b = (cc, λ v h. rw (← ok-injective _ v h) (omega arith))

over_phis-depth :
    (ve : Expr) (e : OverPhis)
    → over_phis ve ≡ some e
    → (suc (max (depth e.lhs_left) (depth e.rhs_left)) < depth ve)
      × (suc (max (depth e.lhs_right) (depth e.rhs_right)) < depth ve)
unfolding over_phis depth
over_phis-depth (bin o (phi a b) (phi c d)) e h =
    let same : OverPhis = record {
      op = o;
      lhs_left = a;
      lhs_right = b;
      rhs_left = c;
      rhs_right = d;
    } in
    rw (← some-injective same e h) (omega arith, omega arith)
over_phis-depth _ e h = cc

back-Ends : (bs : List ℕ) → Ends (back bs)
unfolding back
back-Ends [] = cc
back-Ends (b ∷ []) = cc
back-Ends (b ∷ c ∷ bs) = back-Ends (c ∷ bs)

front-Ends : (bs : List ℕ) → Ends (front bs)
front-Ends [] = cc
front-Ends (b ∷ bs) = cc

module _ (fl : FloatOps) (m : Module) (pout : ℕ → Partitions) where
  -- The recursive call ends on expressions that the fuel covers.
  abbrev EndsBelow : ℕ → (Expr → Partitions → ℕ → ℕ → Result (Option Phi × ℕ)) → Type 0
  EndsBelow fuel again =
      (v : Expr) (p : Partitions) (b n : ℕ) → depth v < fuel → Ends (again v p b n)

  look_up-Ends :
      (fuel : ℕ) (again : Expr → Partitions → ℕ → ℕ → Result (Option Phi × ℕ)) (v : Expr) (b n : ℕ)
      → EndsBelow fuel again
      → depth v < fuel
      → Ends (look_up fl m pout again v b n)
  look_up-Ends fuel again v b n ends lt = elim (Bool-cases (is_null (get_vn (pout b) v))) [
    | inl e ↦
        rw (e, look_up) (Ends-bind (again v (pout b) b n) _ (ends v (pout b) b n lt) (λ r _. cc))
    | inr e ↦ rw (e, look_up) (cc)
  ]

  both_sides-Ends :
      (fuel : ℕ) (again : Expr → Partitions → ℕ → ℕ → Result (Option Phi × ℕ)) (ve : Expr)
      (e : OverPhis) (bb n : ℕ)
      → EndsBelow fuel again
      → over_phis ve ≡ some e
      → depth ve < suc fuel
      → Ends (both_sides fl m pout again e bb n)
  both_sides-Ends fuel again ve e bb n ends found lt =
      let (d1, d2) = over_phis-depth ve e found in
      let (s1, l1) = side-Ends fl m pout e.op e.lhs_left e.rhs_left in
      let (s2, l2) = side-Ends fl m pout e.op e.lhs_right e.rhs_right in
      Ends-bind (side fl m pout e.op e.lhs_left e.rhs_left) _ s1 (λ v1 e1.
        Ends-bind (side fl m pout e.op e.lhs_right e.rhs_right) _ s2 (λ v2 e2.
          Ends-bind (front (pres_of (m.at bb))) _ (front-Ends (pres_of (m.at bb))) (λ b1 _.
            Ends-bind (look_up fl m pout again v1 b1 n) _
              (look_up-Ends fuel again v1 b1 n ends (omega (arith, l1 v1 e1)))
              (λ i _.
                Ends-bind (back (pres_of (m.at bb))) _ (back-Ends (pres_of (m.at bb))) (λ b2 _.
                  Ends-bind (look_up fl m pout again v2 b2 i.1) _
                    (look_up-Ends fuel again v2 b2 i.1 ends (omega (arith, l2 v2 e2)))
                    (λ j _. cc))))))

  -- With more fuel than the depth of the expression `valuePhiFunc` never runs out of it.
  pub value_phi_func-ends :
      (fuel : ℕ) (ve : Expr) (p : Partitions) (bb n : ℕ)
      → depth ve < fuel
      → value_phi_func fl m pout fuel ve p bb n ≢ fault out_of_fuel
  unfolding value_phi_func
  value_phi_func-ends zero ve p bb n lt = elim lt [ ]
  value_phi_func-ends (suc fuel) ve p bb n lt = elim (Bool-cases (is_null ve || is_nil p)) [
    | inl e ↦ rw e (cc)
    | inr e ↦ elim (Option-cases (over_phis ve)) [
      | inl o ↦ rw (e, o) (cc)
      | inr (parts, o) ↦
          rw (e, o)
            (both_sides-Ends fuel (value_phi_func fl m pout fuel) ve parts bb n
              (λ v q b k l. value_phi_func-ends fuel v q b k l) o lt)
    ]
  ]
