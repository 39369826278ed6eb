-- ===== src/Ir/Uses/Moved.antt =====
-- What replace_use_with_when (src/lightir/Value.cpp) moves where each use in a list is an operand of
-- its user.
use gvn.Prelude.{
  ℕ, ◌≡◌, ap, sym, subst, ◌∙◌, ◌⊎◌, inl, inr, Bool, true, false, ◌&&◌, Option, some, List, [], ◌∷◌,
  if◌then◌else◌, ◌==◌, ==_iff, update, ok, >>=-eq-ok, ok-injective, arith, Bool-cases,
}
use gvn.Ir.Module.{Module, Value, object, Use}
use gvn.Ir.Uses.{set_operand, replace_uses, replace_use_with_when}
use gvn.Ir.Uses.Replaced.{operand_at, set_operand-operand_at}
use gvn.Ir.Uses.Traced.{has_use, IsTraced, shape, IsAlike, set_operand-IsAlike, set_operand-has_use}

-- What the loop over the uses `us` has done once it returns.
record Replacing (m : Module) (new : Value) (pred : ℕ → Bool) (us : List Use)
    (r : Module × List Use) : Type 0 where
  moved :
      (b k : ℕ)
      → (operand_at r.0 b k ≡ operand_at m b k)
        ⊎ ((pred b ≡ true) × (has_use us b k ≡ true) × (operand_at r.0 b k ≡ some new))
  added :
      (x b k : ℕ)
      → has_use (r.0.use_list x) b k ≡ true
      → (has_use (m.use_list x) b k ≡ true) ⊎ ((new ≡ object x) × (operand_at r.0 b k ≡ some new))
  left : (b k : ℕ) → has_use r.1 b k ≡ true → (has_use us b k ≡ true) × (pred b ≡ false)
  alike : IsAlike m r.0

Replacing-step :
    (m m1 : Module) (new : Value) (pred : ℕ → Bool) (u : Use) (us : List Use)
    (r : Module × List Use)
    → pred u.val ≡ true
    → set_operand m u.val u.arg_no new ≡ ok m1
    → Replacing m1 new pred us r
    → Replacing m new pred (u ∷ us) r
Replacing-step m m1 new pred u us r p h z = record {
  moved = λ b k. elim (z.moved b k) [
    | inr (q, t, o) ↦ inr (q, ground arith, o)
    | inl same ↦ elim (Bool-cases (u.val == b && u.arg_no == k)) [
      | inl here ↦
          inr (
            ap pred (sym ((==_iff u.val b).0 (ground arith))) ∙ p,
            ground arith,
            same ∙ hit b k here,
          )
      | inr away ↦
          inl (same ∙ at_user b k ∙ ap (λ t. if t then some new else operand_at m b k) away)
    ]
  ];
  added = λ x b k t. elim (z.added x b k t) [
    | inr q ↦ inr q
    | inl t1 ↦ elim (set_operand-has_use m m1 u.val u.arg_no new x b k h t1) [
      | inl old ↦ inl old
      | inr (ev, eb, ek) ↦
          let here : (u.val == b && u.arg_no == k) ≡ true =
            ground (arith, (==_iff u.val b).1 eb, (==_iff u.arg_no k).1 ek) in
          inr (ev, elim (z.moved b k) [ inr (q, t2, o) ↦ o | inl same ↦ same ∙ hit b k here ])
    ]
  ];
  left = λ b k t. let (t1, q) = z.left b k t in (ground arith, q);
  alike = λ x. z.alike x ∙ set_operand-IsAlike m m1 u.val u.arg_no new h x;
}
  where
    at_user :
        (b k : ℕ)
        → operand_at m1 b k ≡ (if u.val == b && u.arg_no == k then some new else operand_at m b k)
    at_user b k = set_operand-operand_at m m1 u.val u.arg_no new b k h

    hit : (b k : ℕ) → (u.val == b && u.arg_no == k) ≡ true → operand_at m1 b k ≡ some new
    hit b k here = at_user b k ∙ ap (λ t. if t then some new else operand_at m b k) here

Replacing-skip :
    (m : Module) (new : Value) (pred : ℕ → Bool) (u : Use) (us : List Use) (s : Module × List Use)
    → pred u.val ≡ false
    → Replacing m new pred us s
    → Replacing m new pred (u ∷ us) (s.0, u ∷ s.1)
Replacing-skip m new pred u us s p z = record {
  moved =
      λ b k. elim (z.moved b k) [ inl same ↦ inl same | inr (q, t, o) ↦ inr (q, ground arith, o) ];
  added = z.added;
  left = λ b k t. elim (Bool-cases (u.val == b && u.arg_no == k)) [
    | inl here ↦ (ground arith, ap pred (sym ((==_iff u.val b).0 (ground arith))) ∙ p)
    | inr away ↦ let (t1, q) = z.left b k (ground arith) in (ground arith, q)
  ];
  alike = z.alike;
}

replace_uses-Replacing :
    (m : Module) (new : Value) (pred : ℕ → Bool) (us : List Use) (r : Module × List Use)
    → replace_uses m new pred us ≡ ok r
    → Replacing m new pred us r
unfolding replace_uses
replace_uses-Replacing m new pred [] r h =
    let e : (m, []) ≡ r = ok-injective h in
    record {
      moved = λ b k. inl (ap (λ (z : Module × List Use). operand_at z.0 b k) (sym e));
      added = λ x b k t. inl (ap (λ (z : Module × List Use). has_use (z.0.use_list x) b k) e ∙ t);
      left = λ b k t. absurd (cc (ap (λ (z : Module × List Use). has_use z.1 b k) e ∙ t));
      alike = λ x. ap (λ (z : Module × List Use). shape (z.0.at x)) (sym e);
    }
replace_uses-Replacing m new pred (u ∷ us) r h = elim (Bool-cases (pred u.val)) [
  | inl e ↦
      let (m1, h1, h2) =
        >>=-eq-ok (set_operand m u.val u.arg_no new) _ (rw (e, replace_uses) at h) in
      Replacing-step m m1 new pred u us r e h1 (replace_uses-Replacing m1 new pred us r h2)
  | inr e ↦
      let (s, h1, h2) = >>=-eq-ok (replace_uses m new pred us) _ (rw (e, replace_uses) at h) in
      subst (Replacing m new pred (u ∷ us)) (ok-injective h2)
        (Replacing-skip m new pred u us s e (replace_uses-Replacing m new pred us s h1))
]

-- What replace_use_with_when has done once it returns: each use is traced still, and an operand that
-- is another is now the new value, in a selected user, where it was the object before.
pub record Replaces (m : Module) (a : ℕ) (new : Value) (pred : ℕ → Bool) (m' : Module)
    : Type 0 where
  pub traced : IsTraced m'
  pub alike : IsAlike m m'
  pub moved :
      (b k : ℕ)
      → (operand_at m' b k ≡ operand_at m b k)
        ⊎ ((pred b ≡ true) × (operand_at m b k ≡ some (object a)) × (operand_at m' b k ≡ some new))

object_of : Option Value → ℕ
object_of (some (object a)) = a
object_of _ = 0

-- Where each use in a list is an operand of its user.
pub replace_use_with_when-Replaces :
    (m m' : Module) (a : ℕ) (new : Value) (pred : ℕ → Bool)
    → IsTraced m
    → replace_use_with_when m a new pred ≡ ok m'
    → Replaces m a new pred m'
unfolding replace_use_with_when object_of
replace_use_with_when-Replaces m m' a new pred w h =
    let (r, h1, h2) = >>=-eq-ok (replace_uses m new pred (m.use_list a)) _ h in
    subst (Replaces m a new pred) (ok-injective h2)
      (finished r (replace_uses-Replacing m new pred (m.use_list a) r h1))
  where
    finished :
        (r : Module × List Use)
        → Replacing m new pred (m.use_list a) r
        → Replaces m a new pred (record r.0 { use_list = update r.0.use_list a r.1 })
    finished r z = record {
      traced = λ x b k t. elim (Bool-cases (a == x)) [
        | inl e ↦
            let (t1, q) = z.left b k (rw e at t) in
            elim (z.moved b k) [
              | inl same ↦ same ∙ w a b k t1 ∙ ap (λ n. some (object n)) ((==_iff a x).0 e)
              | inr (p, t2, o) ↦ absurd (cc)
            ]
        | inr e ↦ elim (z.added x b k (rw e at t)) [
          | inr (en, o) ↦ o ∙ ap some en
          | inl old ↦ elim (z.moved b k) [
            | inl same ↦ same ∙ w x b k old
            | inr (p, t2, o) ↦
                let n = (==_iff a x).1 (ap object_of (sym (w a b k t2) ∙ w x b k old)) in absurd cc
          ]
        ]
      ];
      alike = z.alike;
      moved =
          λ b k. elim (z.moved b k) [ inl same ↦ inl same | inr (p, t, o) ↦ inr (p, w a b k t, o) ];
    }
