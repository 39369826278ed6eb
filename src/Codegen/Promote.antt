-- ===== src/Codegen/Promote.antt =====
-- The conversion of two operands to one type.
use gvn.Prelude.{
  ℕ, ◌≡◌, ◌<◌, ◌⊎◌, inl, inr, refl, sym, ap, ◌∙◌, Bool, false, some, [], ◌∷◌, ok, ◌==◌, Bool-cases,
  ==_iff, arith, is_eq, is_eq_refl,
}
use gvn.Ir.Types.{Ty, Ty-discrete, int32_ty, float_ty, is_integer_type, is_eq_type}
use gvn.Ir.Opcodes.{OpId, CmpOp}
use gvn.Ir.Module.{
  Module, Value, constant, object, Object, instr, block, func, argument, global, Instr, get_type,
  object_ty,
}
use gvn.Codegen.State.{Codegen, ◌>>=◌}
use gvn.Codegen.Create.{add_object, add_instruction, insert_instr}
use gvn.Codegen.Builder.{create_sitofp}
use gvn.Codegen.Convert.{promote}
use gvn.Codegen.Blocks.Created.{update-other, update-same, add_uses-at}
use gvn.Codegen.Calm.{new_instr, with_instr, create-runs}

-- The types of the operands of an expression.
abbrev pub IsNumeric : Ty → Type 0
IsNumeric t = (t ≡ int32_ty) ⊎ (t ≡ float_ty)

-- A constant, or an object below `n`.
abbrev pub IsOld : ℕ → Value → Type 0
IsOld n (constant c) = Unit
IsOld n (object a) = a < n

add_instruction-ty : (o : Object) (n : ℕ) → object_ty (add_instruction o n) ≡ object_ty o
unfolding add_instruction
add_instruction-ty (instr i) n = refl
add_instruction-ty (block b) n = refl
add_instruction-ty (func f) n = refl
add_instruction-ty (argument t) n = refl
add_instruction-ty (global t) n = refl

module _ (m : Module) (n : ℕ) (i : Instr) where
  inserted-ty :
      (a : ℕ)
      → object_ty ((insert_instr m n i).at a) ≡ object_ty ((add_object m n (instr i) []).at a)
  unfolding insert_instr
  inserted-ty a = elim (Bool-cases (i.parent == a)) [
    | inl e ↦ rw (add_uses-at, e, add_instruction-ty, (==_iff i.parent a).0 e) refl
    | inr e ↦ rw (add_uses-at, e) refl
  ]

  -- The new instruction has its type, and what stood there keeps its own.
  new-ty : get_type (insert_instr m n i) (object n) ≡ i.ty
  unfolding add_object
  new-ty = inserted-ty n ∙ rw (update-same m n (instr i)) refl

  old-ty : (v : Value) → IsOld n v → get_type (insert_instr m n i) v ≡ get_type m v
  unfolding add_object
  old-ty (constant c) h = refl
  old-ty (object a) h =
      inserted-ty a ∙ rw (update-other m n a (instr i) λ q. omega (arith, h, q)) refl

-- What `promote` returns: two operands of one type, and whether this is the integers'.
abbrev pub Agrees : Codegen → Bool × Value × Value → Type 0
Agrees s p =
    (get_type s.ir_module p.1 ≡ get_type s.ir_module p.2)
    × (p.0 ≡ is_integer_type (get_type s.ir_module p.1))

module _ (l r : Value) (s : Codegen) (bb : ℕ) (e : s.insert_block ≡ some bb) where
  abbrev convert : Value → Codegen
  convert v = with_instr (new_instr OpId.sitofp float_ty (v ∷ []) CmpOp.eq float_ty bb) s

  convert-runs : (v : Value) → create_sitofp v float_ty s ≡ ok (object s.next, convert v)
  unfolding create_sitofp
  convert-runs v = create-runs OpId.sitofp float_ty (v ∷ []) CmpOp.eq float_ty s bb e

  promote-same :
      get_type s.ir_module l ≡ get_type s.ir_module r
      → promote l r s ≡ ok ((is_integer_type (get_type s.ir_module l), l, r), s)
  unfolding promote is_eq_type
  promote-same f = rw (f, is_eq_refl Ty-discrete (get_type s.ir_module r), promote) refl

  promote-left :
      get_type s.ir_module l ≡ int32_ty
      → get_type s.ir_module r ≡ float_ty
      → promote l r s ≡ ok ((false, object s.next, r), convert l)
  unfolding promote is_eq_type is_eq Ty-discrete
  promote-left f g = rw (f, g, convert-runs l, ◌>>=◌) refl

  promote-right :
      get_type s.ir_module l ≡ float_ty
      → get_type s.ir_module r ≡ int32_ty
      → promote l r s ≡ ok ((false, l, object s.next), convert r)
  unfolding promote is_eq_type is_eq Ty-discrete
  promote-right f g = rw (f, g, convert-runs r, ◌>>=◌) refl

  abbrev Agreed : Type 0
  Agreed = (p : Bool × Value × Value) × (s' : Codegen) × (promote l r s ≡ ok (p, s')) × Agrees s' p

  agreed-same : get_type s.ir_module l ≡ get_type s.ir_module r → Agreed
  agreed-same f = (_, s, promote-same f, (f, refl))

  agreed-left :
      IsOld s.next r
      → get_type s.ir_module l ≡ int32_ty
      → get_type s.ir_module r ≡ float_ty
      → Agreed
  agreed-left o f g =
      let i : Instr = new_instr OpId.sitofp float_ty (l ∷ []) CmpOp.eq float_ty bb in
      let new : get_type (insert_instr s.ir_module s.next i) (object s.next) ≡ float_ty =
        new-ty s.ir_module s.next i in
      let old : get_type (insert_instr s.ir_module s.next i) r ≡ float_ty =
        old-ty s.ir_module s.next i r o ∙ g in
      (_, convert l, promote-left f g, (new ∙ sym old, ap is_integer_type (sym new)))

  agreed-right :
      IsOld s.next l
      → get_type s.ir_module l ≡ float_ty
      → get_type s.ir_module r ≡ int32_ty
      → Agreed
  agreed-right o f g =
      let i : Instr = new_instr OpId.sitofp float_ty (r ∷ []) CmpOp.eq float_ty bb in
      let new : get_type (insert_instr s.ir_module s.next i) (object s.next) ≡ float_ty =
        new-ty s.ir_module s.next i in
      let old : get_type (insert_instr s.ir_module s.next i) l ≡ float_ty =
        old-ty s.ir_module s.next i l o ∙ f in
      (_, convert r, promote-right f g, (old ∙ sym new, ap is_integer_type (sym old)))

-- From a state with an insertion block, and for two values of the types i32 or float that stand
-- below the next free address, promote returns: the two values that it returns have one type, and
-- the flag tells whether this is the type of the integers.
pub promote-Agrees :
    (l r : Value) (s : Codegen) (bb : ℕ)
    → s.insert_block ≡ some bb
    → IsNumeric (get_type s.ir_module l)
    → IsNumeric (get_type s.ir_module r)
    → IsOld s.next l
    → IsOld s.next r
    → (p : Bool × Value × Value) × (s' : Codegen) × (promote l r s ≡ ok (p, s')) × Agrees s' p
promote-Agrees l r s bb e (inl f) (inl g) o o' = agreed-same l r s bb e (f ∙ sym g)
promote-Agrees l r s bb e (inr f) (inr g) o o' = agreed-same l r s bb e (f ∙ sym g)
promote-Agrees l r s bb e (inl f) (inr g) o o' = agreed-left l r s bb e o' f g
promote-Agrees l r s bb e (inr f) (inl g) o o' = agreed-right l r s bb e o f g
