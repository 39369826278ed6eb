-- ===== src/Ir/Uses/All.antt =====
-- replace_all_use_with is replace_use_with_when for all users.
use gvn.Prelude.{
  ℕ, ◌≡◌, refl, ap, sym, ◌∙◌, Bool, true, List, [], ◌∷◌, Result, ok, fault, ◌>>=◌, update, ◌≢◌,
}
use gvn.Ir.Module.{Module, Value, object, Use}
use gvn.Ir.Uses.{
  set_operand, replace_uses, replace_use_with_when, replace_all, replace_all_use_with,
}

abbrev every_user : ℕ → Bool
every_user u = true

replace_uses-all :
    (m : Module) (new : Value) (us : List Use)
    → replace_uses m new every_user us ≡ (replace_all m new us >>= λ m'. ok (m', []))
unfolding replace_uses replace_all
replace_uses-all m new [] = refl
replace_uses-all m new (u ∷ us) =
    after (set_operand m u.val u.arg_no new) (λ m'. replace_uses-all m' new us)
  where
    after :
        (r : Result Module)
        → ((m' : Module)
            → replace_uses m' new every_user us ≡ (replace_all m' new us >>= λ z. ok (z, [])))
        → (r >>= λ m'. replace_uses m' new every_user us)
          ≡ ((r >>= λ m'. replace_all m' new us) >>= λ m'. ok (m', []))
    after (ok m') rest = rest m'
    after (fault why) rest = refl

-- Of a value and another one, `replace_all_use_with` does what `replace_use_with_when` does if every
-- user passes the test, the faults included.
pub replace_all_use_with-when :
    (m : Module) (a : ℕ) (new : Value)
    → new ≢ object a
    → replace_all_use_with m a new ≡ replace_use_with_when m a new (λ u. true)
unfolding replace_all_use_with replace_use_with_when
replace_all_use_with-when m a new other = sym (
    ap
      (λ r.
        r >>= λ (s : Module × List Use). ok (record s.0 { use_list = update s.0.use_list a s.1 }))
      (replace_uses-all m new (m.use_list a))
    ∙ joined (replace_all m new (m.use_list a)))
  where
    joined :
        (r : Result Module)
        → ((r >>= λ m'. ok (m', [])) >>= λ (s : Module × List Use).
            ok (record s.0 { use_list = update s.0.use_list a s.1 }))
          ≡ (r >>= λ m'. ok (record m' { use_list = update m'.use_list a [] }))
    joined (ok m') = refl
    joined (fault why) = refl
