-- ===== src/Tests/Replace.antt =====
-- The replacement of 103, which the instruction 105 uses twice, by the leader 100 of its class.
use gvn.Prelude.{
  ℕ, ◌≡◌, refl, sym, ap, ap₂, ◌∙◌, arith, ◌≢◌, inl, inr, Bool-cases, ==_iff, Bool, true, some, [],
  ◌∷◌, ◌==◌, ◌&&◌, if◌then◌else◌, any, ok, is_eq, ℕ_discrete,
}
use gvn.Ir.Types.{int32_ty}
use gvn.Ir.Opcodes.{OpId}
use gvn.Ir.Module.{Module, Object, Value, object, constant, value_eq, Value-discrete}
use gvn.Ir.Uses
use gvn.Ir.Uses.Replaced.{replace_use_with_when-operands, operand_at, selects}
use gvn.Ir.Uses.All.{replace_all_use_with-when}
use gvn.Gvn.Expr.{Expr}
use gvn.Gvn.Class.{Partitions}
use gvn.Gvn.Replace
use gvn.Gvn.Replace.Leaders.{replace_cc_members-Leads, Steps, Leads}
use gvn.Ir.Uses.Traced.{IsTraced, has_use}
use gvn.Tests.Sample.{plain, find_or, sample, use_at, class_of}

abbrev shared : Module
shared = record sample {
  at = find_or (Object.argument int32_ty) (
      (103, plain OpId.add int32_ty (object 100 ∷ object 101 ∷ []) 22)
      ∷ (105, plain OpId.add int32_ty (object 103 ∷ object 103 ∷ []) 22)
      ∷ []);
  use_list = find_or [] ((103, use_at 105 0 ∷ use_at 105 1 ∷ []) ∷ []);
}

abbrev is_user : ℕ → Bool
is_user u = u == 105

apart : object 100 ≢ object 103
apart e =
    let n = ap {B = ℕ} (λ (v : Value). elim v [ constant c ↦ 0 | object a ↦ a ]) e in
    omega (arith, n)

replace_use_with_when-operands_example :
    (m' : Module) × (Uses.replace_use_with_when shared 103 (object 100) is_user ≡ ok m')
    × (m'.use_list 103 ≡ [])
    × ((b k : ℕ)
        → operand_at m' b k ≡ (
            if any (selects is_user b k) (use_at 105 0 ∷ use_at 105 1 ∷ [])
            then some (object 100)
            else operand_at shared b k))
replace_use_with_when-operands_example =
    replace_use_with_when-operands shared 103 (object 100) is_user apart (refl, (refl, tt))

abbrev at_block : ℕ → Partitions
at_block b = class_of 1 Expr.null (100 ∷ 103 ∷ []) ∷ []

replaced : (m' : Module) × (Replace.replace_cc_members shared at_block (22 ∷ []) ≡ ok m')
unfolding Replace.replace_cc_members Replace.replace_classes Replace.replace_members
    Replace.replace_member Replace.is_replaced Replace.used_in Uses.replace_use_with_when
    Uses.replace_uses Uses.set_operand value_eq is_eq Value-discrete ℕ_discrete Uses.add_use
    Uses.write_operand
replaced = (_, refl)

shared-IsTraced : IsTraced shared
shared-IsTraced a b k t = elim (Bool-cases (103 == a)) [
  | inr e ↦ absurd (cc (rw e at t))
  | inl e ↦
      let uses : has_use (use_at 105 0 ∷ use_at 105 1 ∷ []) b k ≡ true = rw e at t in
      elim (Bool-cases (105 == b && 0 == k)) [
        | inl z ↦ at_use 0 refl (ground arith) (ground arith) e
        | inr z ↦ at_use 1 refl (ground arith) (ground arith) e
      ]
]
  where
    at_use :
        (n : ℕ)
        → operand_at shared 105 n ≡ some (object 103)
        → (105 == b) ≡ true
        → (n == k) ≡ true
        → (103 == a) ≡ true
        → operand_at shared b k ≡ some (object a)
    at_use n o eb ek ea =
        ap₂ (operand_at shared) (sym ((==_iff 105 b).0 eb)) (sym ((==_iff n k).0 ek))
        ∙ o
        ∙ ap (λ x. some (object x)) ((==_iff 103 a).0 ea)

replace_cc_members-Leads_example :
    Steps
      (Leads shared at_block (22 ∷ []))
      105
      (operand_at shared 105 1)
      (operand_at replaced.0 105 1)
replace_cc_members-Leads_example =
    replace_cc_members-Leads shared replaced.0 at_block (22 ∷ []) 105 1 shared-IsTraced replaced.1

replace_all_use_with-when_example :
    Uses.replace_all_use_with shared 103 (object 100)
    ≡ Uses.replace_use_with_when shared 103 (object 100) (λ u. true)
replace_all_use_with-when_example = replace_all_use_with-when shared 103 (object 100) apart
