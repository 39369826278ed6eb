-- ===== src/Gvn/Expr/Equality.antt =====
-- The comparison of expressions decides whether they are built alike.
use gvn.Prelude.{
  ◌≡◌, refl, ◌↔◌, Bool, true, not, ◌||◌, ◌&&◌, is_eq, is_eq_iff, is_eq_refl, ℕ_discrete, arith,
  subst, ap, ◌⊎◌, inl, inr, Bool-cases,
}
use gvn.Prelude.Texts.{Text-discrete}
use gvn.Ir.Types.{Ty-discrete}
use gvn.Ir.Opcodes.{OpId-discrete, CmpOp-discrete}
use gvn.Ir.Constants.{Constant-discrete}
use gvn.Gvn.Expr.{
  Expr, Args, null, constant, bin, phi, var, cmp, fcmp, call, gep, only, no_args, arg, is_null,
  expr_eq, args_eq, ptr_eq,
}

null_sound : (a b : Expr) → is_null a ≡ true → is_null b ≡ true → a ≡ b
null_sound null null h k = refl
null_sound _ _ h k = cc

and_parts : (a b : Bool) → (a && b) ≡ true → (a ≡ true) × (b ≡ true)
and_parts a b h = ground arith

and_intro : (a b : Bool) → a ≡ true → b ≡ true → (a && b) ≡ true
and_intro a b h k = ground arith

-- Three tests in a row.
and3_parts : (a b c : Bool) → (a && b && c) ≡ true → (a ≡ true) × (b ≡ true) × (c ≡ true)
and3_parts a b c h = ground arith

and3_intro : (a b c : Bool) → a ≡ true → b ≡ true → c ≡ true → (a && b && c) ≡ true
and3_intro a b c h k l = ground arith

same-parts :
    (a b : Expr) (t : Bool)
    → (is_null a && is_null b || not (is_null a) && not (is_null b) && t) ≡ true
    → (a ≡ b) ⊎ (t ≡ true)
same-parts a b t h = elim (Bool-cases t) [
  | inl e ↦ inr e
  | inr e ↦ inl (null_sound a b (ground arith) (ground arith))
]

same-intro :
    (a : Expr) (t : Bool)
    → t ≡ true
    → (is_null a && is_null a || not (is_null a) && not (is_null a) && t) ≡ true
same-intro a t h = ground arith

mutual
  unfolding expr_eq

  expr_eq_sound : (a b : Expr) → expr_eq a b ≡ true → a ≡ b
  expr_eq_sound null null h = refl
  expr_eq_sound (constant c) (constant d) h = ap constant ((is_eq_iff Constant-discrete c d).0 h)
  expr_eq_sound (bin o a b) (bin p c d) h =
      let (e, f, g) = and3_parts (is_eq OpId-discrete o p) (expr_eq a c) (expr_eq b d) h in
      cc ((is_eq_iff OpId-discrete o p).0 e, expr_eq_sound a c f, expr_eq_sound b d g)
  expr_eq_sound (phi a b) (phi c d) h =
      let (f, g) = and_parts (expr_eq a c) (expr_eq b d) h in
      cc (expr_eq_sound a c f, expr_eq_sound b d g)
  expr_eq_sound (var s) (var t) h = ap var ((is_eq_iff Text-discrete s t).0 h)
  expr_eq_sound (cmp o a b) (cmp p c d) h =
      let (e, f, g) = and3_parts (is_eq CmpOp-discrete o p) (expr_eq a c) (expr_eq b d) h in
      cc ((is_eq_iff CmpOp-discrete o p).0 e, expr_eq_sound a c f, expr_eq_sound b d g)
  expr_eq_sound (fcmp o a b) (fcmp p c d) h =
      let (e, f, g) = and3_parts (is_eq CmpOp-discrete o p) (expr_eq a c) (expr_eq b d) h in
      cc ((is_eq_iff CmpOp-discrete o p).0 e, expr_eq_sound a c f, expr_eq_sound b d g)
  expr_eq_sound (call f as') (call g bs) h =
      let (e, k) = and_parts (is_eq ℕ_discrete f g) (args_eq as' bs) h in
      cc ((is_eq_iff ℕ_discrete f g).0 e, args_eq_sound as' bs k)
  expr_eq_sound (gep t as') (gep u bs) h =
      let (e, k) = and_parts (is_eq Ty-discrete t u) (args_eq as' bs) h in
      cc ((is_eq_iff Ty-discrete t u).0 e, args_eq_sound as' bs k)
  expr_eq_sound (only o a) (only p b) h =
      let (e, k) = and_parts (is_eq OpId-discrete o p) (expr_eq a b) h in
      cc ((is_eq_iff OpId-discrete o p).0 e, expr_eq_sound a b k)
  expr_eq_sound _ _ h = cc

  args_eq_sound : (as' bs : Args) → args_eq as' bs ≡ true → as' ≡ bs
  args_eq_sound no_args no_args h = refl
  args_eq_sound (arg a as') (arg b bs) h =
      let (e, k) = and_parts _ (args_eq as' bs) h in
      elim (same-parts a b (expr_eq a b) e) [
        | inl same ↦ cc (same, args_eq_sound as' bs k)
        | inr t ↦ cc (expr_eq_sound a b t, args_eq_sound as' bs k)
      ]
  args_eq_sound _ _ h = cc

mutual
  unfolding expr_eq

  expr_eq_refl : (a : Expr) → expr_eq a a ≡ true
  expr_eq_refl null = refl
  expr_eq_refl (constant c) = is_eq_refl Constant-discrete c
  expr_eq_refl (bin o a b) =
      and3_intro _ _ _ (is_eq_refl OpId-discrete o) (expr_eq_refl a) (expr_eq_refl b)
  expr_eq_refl (phi a b) = and_intro _ _ (expr_eq_refl a) (expr_eq_refl b)
  expr_eq_refl (var s) = is_eq_refl Text-discrete s
  expr_eq_refl (cmp o a b) =
      and3_intro _ _ _ (is_eq_refl CmpOp-discrete o) (expr_eq_refl a) (expr_eq_refl b)
  expr_eq_refl (fcmp o a b) =
      and3_intro _ _ _ (is_eq_refl CmpOp-discrete o) (expr_eq_refl a) (expr_eq_refl b)
  expr_eq_refl (call f as') = and_intro _ _ (is_eq_refl ℕ_discrete f) (args_eq_refl as')
  expr_eq_refl (gep t as') = and_intro _ _ (is_eq_refl Ty-discrete t) (args_eq_refl as')
  expr_eq_refl (only o a) = and_intro _ _ (is_eq_refl OpId-discrete o) (expr_eq_refl a)

  args_eq_refl : (as' : Args) → args_eq as' as' ≡ true
  args_eq_refl no_args = refl
  args_eq_refl (arg a as') =
      and_intro _ _ (same-intro a (expr_eq a a) (expr_eq_refl a)) (args_eq_refl as')

-- The comparison of two expressions is true exactly when they have the same class, operator and
-- operands, in this order, all the way down.
expr_eq_iff : (a b : Expr) → (expr_eq a b ≡ true) ↔ (a ≡ b)
expr_eq_iff a b = (expr_eq_sound a b, λ e. subst (λ x. expr_eq a x ≡ true) e (expr_eq_refl a))

-- So is the comparison of two shared pointers, the null pointer included.
pub ptr_eq_iff : (a b : Expr) → (ptr_eq a b ≡ true) ↔ (a ≡ b)
unfolding ptr_eq
ptr_eq_iff a b = (
  λ h. elim (same-parts a b (expr_eq a b) h) [ inl same ↦ same | inr t ↦ expr_eq_sound a b t ],
  λ e. subst (λ x. ptr_eq a x ≡ true) e (same-intro a (expr_eq a a) (expr_eq_refl a)),
)
