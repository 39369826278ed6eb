-- ===== src/Gvn/Fold/Laws.antt =====
-- What the constant folder computes, where C++ defines it.
use gvn.Prelude.{
  ℕ, suc, ◌+◌, ◌*◌, ◌%◌, ◌^◌, ◌<◌, ◌≤◌, ◌≡◌, refl, ◌⊎◌, inr, Bool, true, false, not, ◌&&◌, ◌||◌, ok,
  fault, overflow, arith, ◌≢◌,
}
use gvn.Prelude.Integers.{
  ℤ, pos, negsuc, sub_ℕ, ◌+ℤ◌, ◌-ℤ◌, ◌*ℤ◌, ◌/ℤ◌, magnitude, magnitude-div, is_negative, pos_part,
  neg_part, eqb_ℤ, ltb_ℤ, leb_ℤ,
}
use gvn.Ir.Opcodes.{OpId, CmpOp, eq, ne, gt, ge, lt, le}
use gvn.Ir.Constants.{Constant, int_const, FloatOps}
use gvn.Gvn.Fold.{
  compute_op, compute_instr, int_arith, int_compare, get_const_int_value, get_bool, get_int,
}

-- The opcodes whose results are exact where they are defined.
pub data IntOp : OpId → Type 0 where
  plus : IntOp OpId.add
  minus : IntOp OpId.sub
  times : IntOp OpId.mul

-- The comparison that holds exactly where the given one fails.
abbrev pub negation : CmpOp → CmpOp
negation eq = ne
negation ne = eq
negation gt = le
negation ge = lt
negation lt = ge
negation le = gt

abbrev pub same_sign : ℤ → ℤ → Bool
same_sign a b = is_negative a && is_negative b || not (is_negative a) && not (is_negative b)

-- The sign of a product or a quotient of `a` and `b`, where it has one.
abbrev pub HasSign : ℤ → ℤ → ℤ → Type 0
HasSign a b v = (magnitude v ≡ 0) ⊎ (is_negative v ≡ not (same_sign a b))

-- The result `v` of an operator on `a` and `b`, told on natural numbers only.
abbrev pub IsExact : OpId → ℤ → ℤ → ℤ → Type 0
IsExact OpId.add a b v = pos_part a + pos_part b + neg_part v ≡ neg_part a + neg_part b + pos_part v
IsExact OpId.sub a b v = pos_part v + neg_part a + pos_part b ≡ neg_part v + pos_part a + neg_part b
IsExact OpId.mul a b v = (magnitude v ≡ magnitude a * magnitude b) × HasSign a b v
IsExact _ a b v = ⊥

-- From -2^31 to 2^31 - 1.
abbrev pub IsInt : ℤ → Type 0
IsInt v = (pos_part v < 2 ^ 31) × (neg_part v ≤ 2 ^ 31)

add-IsExact : (a b : ℤ) → IsExact OpId.add a b (a +ℤ b)
unfolding ◌+ℤ◌
add-IsExact a b = ground arith

sub-IsExact : (a b : ℤ) → IsExact OpId.sub a b (a -ℤ b)
unfolding ◌-ℤ◌
sub-IsExact a b = ground arith

sub_ℕ-left :
    (p q n : ℕ) → p ≡ n → q ≡ 0 → (magnitude (sub_ℕ p q) ≡ n) × (is_negative (sub_ℕ p q) ≡ false)
sub_ℕ-left p q n e z = ground arith

sub_ℕ-right :
    (p q n : ℕ)
    → p ≡ 0
    → q ≡ n
    → (magnitude (sub_ℕ p q) ≡ n) × ((magnitude (sub_ℕ p q) ≡ 0) ⊎ (is_negative (sub_ℕ p q) ≡ true))
sub_ℕ-right p q n z e = ground arith

mul-IsExact : (a b : ℤ) → IsExact OpId.mul a b (a *ℤ b)
unfolding ◌*ℤ◌
mul-IsExact (pos a) (pos b) =
    let (m, n) = sub_ℕ-left (a * b + 0 * 0) (a * 0 + 0 * b) (a * b) (omega arith) (omega arith) in
    (m, inr n)
mul-IsExact (pos a) (negsuc b) =
    sub_ℕ-right (a * 0 + 0 * suc b) (a * suc b + 0 * 0) (a * suc b) (omega arith) (omega arith)
mul-IsExact (negsuc a) (pos b) =
    sub_ℕ-right (0 * b + suc a * 0) (0 * 0 + suc a * b) (suc a * b) (omega arith) (omega arith)
mul-IsExact (negsuc a) (negsuc b) =
    let (m, n) =
      sub_ℕ-left (0 * 0 + suc a * suc b) (0 * suc b + suc a * 0) (suc a * suc b) (omega arith)
        (omega arith) in
    (m, inr n)

div-HasSign : (a b : ℤ) → HasSign a b (a /ℤ b)
unfolding ◌/ℤ◌
div-HasSign (pos a) (pos b) = inr refl
div-HasSign (pos a) (negsuc b) = ground arith
div-HasSign (negsuc a) (pos b) = ground arith
div-HasSign (negsuc a) (negsuc b) = inr refl

get_int-IsInt :
    (v : ℤ)
    → (IsInt v × (get_int v ≡ ok (int_const 32 v))) ⊎ ((IsInt v → ⊥) × (get_int v ≡ fault overflow))
get_int-IsInt (pos n) = ground arith
get_int-IsInt (negsuc n) = ground arith

module _ (fl : FloatOps) where
  -- For a sum, a difference or a product of integer constants there is an integer that is the exact
  -- result; where it is a value of `int` folding gives it as a constant of type `i32`, and elsewhere
  -- folding is an overflow.
  pub compute-IsExact :
      (op : OpId) (c : CmpOp) (w x : ℕ) (a b : ℤ)
      → IntOp op
      → (v : ℤ) × IsExact op a b v
        × ((IsInt v × (compute_instr fl op c (int_const w a) (int_const x b) ≡ ok (int_const 32 v)))
            ⊎ ((IsInt v → ⊥)
                × (compute_instr fl op c (int_const w a) (int_const x b) ≡ fault overflow)))
  unfolding compute_instr int_arith get_const_int_value
  compute-IsExact op c w x a b plus = (a +ℤ b, add-IsExact a b, get_int-IsInt (a +ℤ b))
  compute-IsExact op c w x a b minus = (a -ℤ b, sub-IsExact a b, get_int-IsInt (a -ℤ b))
  compute-IsExact op c w x a b times = (a *ℤ b, mul-IsExact a b, get_int-IsInt (a *ℤ b))

  -- The two overloads for binary operators agree on every opcode but the comparisons.
  pub compute-agree :
      (op : OpId) (c : CmpOp) (v w : Constant)
      → op ≢ OpId.cmp
      → op ≢ OpId.fcmp
      → compute_instr fl op c v w ≡ compute_op fl op v w
  unfolding compute_instr compute_op
  compute-agree OpId.cmp c v w h k = absurd (h refl)
  compute-agree OpId.fcmp c v w h k = absurd (k refl)
  compute-agree OpId.add c v w h k = refl
  compute-agree _ c v w h k = refl

  -- A folded quotient `q` of `a` by `b` is a constant of type `i32`, and C++'s `/`: its magnitude is
  -- that of the division with a remainder below the divisor, and unless it is 0 it is negative
  -- exactly if the signs of `a` and `b` differ.
  pub compute-sdiv :
      (c : CmpOp) (w x : ℕ) (a b : ℤ) (r : Constant)
      → compute_instr fl OpId.sdiv c (int_const w a) (int_const x b) ≡ ok r
      → (q : ℤ) × (r ≡ int_const 32 q)
        × (magnitude a ≡ magnitude b * magnitude q + magnitude a % magnitude b)
        × (magnitude a % magnitude b < magnitude b)
        × HasSign a b q
  unfolding compute_instr int_arith get_const_int_value
  compute-sdiv c w x a b r h = (
    a /ℤ b,
    ground arith,
    ground (arith, magnitude-div a b),
    ground (arith, magnitude-div a b),
    div-HasSign a b,
  )

  -- A folded comparison of integers and its negation are both constants of type `i1`, and one is
  -- true where the other is false.
  compare-negation :
      (c : CmpOp) (w x : ℕ) (a b : ℤ)
      → (p : Bool) × (compute_instr fl OpId.cmp c (int_const w a) (int_const x b) ≡ ok (get_bool p))
        × (compute_instr fl OpId.cmp (negation c) (int_const w a) (int_const x b)
            ≡ ok (get_bool (not p)))
  unfolding compute_instr int_compare get_const_int_value
  compare-negation eq w x a b = (eqb_ℤ a b, refl, refl)
  compare-negation ne w x a b = (not (eqb_ℤ a b), refl, ground arith)
  compare-negation gt w x a b = (ltb_ℤ b a, refl, ground arith)
  compare-negation ge w x a b = (leb_ℤ b a, refl, ground arith)
  compare-negation lt w x a b = (ltb_ℤ a b, refl, ground arith)
  compare-negation le w x a b = (leb_ℤ a b, refl, ground arith)
