-- ===== src/Tests/Sample.antt =====
-- A module with four functions: main (10) calls square (11) and wrap (13), which calls put (12),
-- and put stores to the global 60. The instruction 32 of main is dead.
use gvn.Prelude.{ℕ, Bool, false, List, [], ◌∷◌, ◌==◌, if◌then◌else◌}
use gvn.Prelude.Integers.{pos}
use gvn.Prelude.Texts.{Text, text}
use gvn.Ir.Types.{Ty, Tys, none_left, param, void_ty, int32_ty}
use gvn.Ir.Opcodes.{OpId, eq}
use gvn.Ir.Constants.{int_const, null_const, FloatOps}
use gvn.Prelude.{fault, overflow, none}
use gvn.Gvn.Expr.{Expr}
use gvn.Gvn.Class.{CongruenceClass}
use gvn.Ir.Module.{
  Module, Object, Value, Use, constant, object, instr, block, func, argument, global,
}

abbrev pub find_or {ℓ} : {A : Type ℓ} → A → List (ℕ × A) → ℕ → A
find_or d [] k = d
find_or d ((j, a) ∷ rest) k = if j == k then a else find_or d rest k

abbrev pub five : Value
five = constant (int_const 32 (pos 5))

abbrev pub plain : OpId → Ty → List Value → ℕ → Object
plain op t vs b = instr (record {
  op_id = op;
  ty = t;
  operands = vs;
  parent = b;
  cmp_op = eq;
  own_ty = void_ty;
  l_val = constant null_const;
})

abbrev pub a_block : ℕ → List ℕ → Object
a_block f is = block (record { parent = f; instr_list = is; pre_bbs = []; succ_bbs = [] })

abbrev pub a_func : Ty → Tys → List ℕ → List ℕ → Object
a_func t ps as' bs =
    func (record { return_ty = t; params = ps; arguments = as'; basic_blocks = bs })

abbrev pub use_at : ℕ → ℕ → Use
use_at u n = record { val = u; arg_no = n }

abbrev pub sample_at : ℕ → Object
sample_at = find_or (global void_ty) (
    (10, a_func int32_ty none_left [] (20 ∷ []))
    ∷ (11, a_func int32_ty (param int32_ty none_left) (70 ∷ []) (21 ∷ []))
    ∷ (12, a_func void_ty none_left [] (22 ∷ []))
    ∷ (13, a_func void_ty none_left [] (23 ∷ []))
    ∷ (20, a_block 10 (30 ∷ 31 ∷ 32 ∷ 33 ∷ []))
    ∷ (21, a_block 11 (40 ∷ 41 ∷ []))
    ∷ (22, a_block 12 (50 ∷ 51 ∷ []))
    ∷ (23, a_block 13 (80 ∷ 81 ∷ []))
    ∷ (30, plain OpId.call int32_ty (object 11 ∷ five ∷ []) 20)
    ∷ (31, plain OpId.call void_ty (object 13 ∷ []) 20)
    ∷ (32, plain OpId.add int32_ty (object 30 ∷ five ∷ []) 20)
    ∷ (33, plain OpId.ret void_ty (object 30 ∷ []) 20)
    ∷ (40, plain OpId.mul int32_ty (object 70 ∷ object 70 ∷ []) 21)
    ∷ (41, plain OpId.ret void_ty (object 40 ∷ []) 21)
    ∷ (50, plain OpId.store void_ty (five ∷ object 60 ∷ []) 22)
    ∷ (51, plain OpId.ret void_ty [] 22)
    ∷ (60, global int32_ty)
    ∷ (70, argument int32_ty)
    ∷ (80, plain OpId.call void_ty (object 12 ∷ []) 23)
    ∷ (81, plain OpId.ret void_ty [] 23)
    ∷ [])

abbrev pub sample_name : ℕ → Text
sample_name =
    find_or [] ((10, text "main") ∷ (11, text "square") ∷ (12, text "put") ∷ (13, text "wrap") ∷ [])

abbrev pub sample_uses : ℕ → List Use
sample_uses = find_or [] (
    (11, use_at 30 0 ∷ [])
    ∷ (12, use_at 80 0 ∷ [])
    ∷ (13, use_at 31 0 ∷ [])
    ∷ (30, use_at 32 0 ∷ use_at 33 0 ∷ [])
    ∷ (40, use_at 41 0 ∷ [])
    ∷ (60, use_at 50 1 ∷ [])
    ∷ (70, use_at 40 0 ∷ use_at 40 1 ∷ [])
    ∷ [])

abbrev pub sample : Module
sample = record {
  at = sample_at;
  name = sample_name;
  use_list = sample_uses;
  function_list = 10 ∷ 11 ∷ 12 ∷ 13 ∷ [];
  global_list = 60 ∷ [];
}

abbrev pub all_false : ℕ → Bool
all_false v = false

-- Some operations on the objects of floats.
abbrev pub floats : FloatOps
floats = record {
  fp_add = λ a b. a;
  fp_sub = λ a b. a;
  fp_mul = λ a b. a;
  fp_div = λ a b. a;
  fp_eq = λ a b. a == b;
  fp_lt = λ a b. false;
  fp_le = λ a b. a == b;
  of_int = λ v. 0;
  to_int = λ a. fault overflow;
}

abbrev pub class_of : ℕ → Expr → List ℕ → CongruenceClass
class_of n e ms = record {
  index = n;
  leader = object 100;
  value_expr = e;
  value_phi = none;
  members = ms;
}

abbrev pub no_pure : ℕ → Bool
no_pure f = false
