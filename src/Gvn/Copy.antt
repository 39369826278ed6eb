-- ===== src/Gvn/Copy.antt =====
-- The copy statements of GVN::detectEquivalences (src/optimization/GVN.cpp): a phi of a successor is
-- at the end of the block a copy of its operand.
pub mod Source
use gvn.Prelude.{
  ℕ, ◌+◌, Bool, true, false, not, ◌&&◌, ◌||◌, Option, none, some, List, [], ◌∷◌, if◌then◌else◌,
  ◌==◌, any, Result, ok, fault, ◌>>=◌,
}
use gvn.Prelude.Texts.{Text}
use gvn.Prelude.Integers.{ℤ, pos, eqb_ℤ}
use gvn.Ir.Constants.{Constant, int_const, fp_const, zero_const, null_const}
use gvn.Ir.Module.{Module, Instr, Value, constant, object, get_name, as_instr, instrs_of}
use gvn.Passes.FuncInfo.{operand}
use gvn.Gvn.Expr.{Expr, var}
use gvn.Gvn.Class.{
  CongruenceClass, Partitions, Counter, bump, create_class, insert_member, insert_class,
}
use gvn.Gvn.Join.{is_empty}
use gvn.Gvn.ValueExpr.{names_eq}
use gvn.Gvn.Transfer.{is_phi}

-- The first member with the name leaves the class.
unfoldable pub erase_named : Module → Text → List ℕ → List ℕ
erase_named m n [] = []
erase_named m n (v ∷ vs) = if names_eq (m.name v) n then vs else v ∷ erase_named m n vs

-- The first loop: it ends at the first class without members, which is erased.
unfoldable pub drop_named : Module → Text → Partitions → Partitions
drop_named m n [] = []
drop_named m n (c ∷ cs) =
    let rest = drop_named m n cs in
    let ms = erase_named m n c.members in
    if is_empty ms then cs else record c { members = ms } ∷ rest

-- The class has a member with the name.
unfoldable pub has_named : Module → Text → CongruenceClass → Bool
has_named m n c = any (λ v. names_eq (m.name v) n) c.members

-- Equality of what two constants print: the value of integers of one type, the object of floats,
-- which print their bits, and one word for all zeros. A null constant has no print.
unfoldable pub prints_alike : Constant → Constant → Bool
prints_alike (int_const w a) (int_const x b) =
    if w == 1
    then x == 1
      && (eqb_ℤ a (pos 0) && eqb_ℤ b (pos 0) || not (eqb_ℤ a (pos 0)) && not (eqb_ℤ b (pos 0)))
    else not (x == 1) && eqb_ℤ a b
prints_alike (fp_const a) (fp_const b) = a == b
prints_alike (zero_const t) (zero_const u) = true
prints_alike _ _ = false

-- The class has a constant for its value expression, with the same print.
unfoldable pub has_constant : Constant → CongruenceClass → Bool
has_constant d c = elim c.value_expr [ Expr.constant e ↦ prints_alike e d | _ ↦ false ]

-- `x` enters the classes that pass a test.
unfoldable pub insert_where : ℕ → (CongruenceClass → Bool) → Partitions → Partitions
insert_where x test [] = []
insert_where x test (c ∷ cs) =
    (if test c then record c { members = insert_member x c.members } else c)
    ∷ insert_where x test cs

-- A class of one member.
abbrev pub single : ℕ → Value → ℕ → Expr → CongruenceClass
single x leader n e = record (create_class n) { leader = leader; members = x ∷ []; value_expr = e }

-- `x` enters the classes that pass the test, or a new one.
unfoldable pub insert_or :
    ℕ
    → (CongruenceClass → Bool)
    → (ℕ → CongruenceClass)
    → Partitions
    → Counter
    → Partitions × Counter
insert_or x test fresh p k =
    if any test p
    then (insert_where x test p, k)
    else (insert_class (fresh k.next_value_number) p, bump k)

-- No member has the name of the operand.
abbrev pub copy_unnamed : Module → ℕ → Value → Partitions → Counter → Partitions × Counter
copy_unnamed m x (object o) p k =
    (insert_class (single x (object x) k.next_value_number (var (m.name o))) p, bump k)
copy_unnamed m x (constant c) p k =
    insert_or x (has_constant c) (λ n. single x (constant c) n (Expr.constant c)) p k

unfoldable pub copy_from : Module → ℕ → Value → Partitions → Counter → Partitions × Counter
copy_from m x op p k =
    if any (has_named m (get_name m op)) p
    then (insert_where x (has_named m (get_name m op)) p, k)
    else copy_unnamed m x op p k

-- The operand that the phi takes from the block `bb`.
unfoldable pub copied_operand : Module → ℕ → Instr → Result Value
copied_operand m bb i = operand i 1 >>= λ from.
    if names_eq (get_name m from) (m.name bb) then operand i 0 else operand i 2

-- The copy statement of the phi `i` at the address `x`.
unfoldable pub copy_statement :
    Module → ℕ → ℕ → Instr → Partitions → Counter → Result (Partitions × Counter)
copy_statement m bb x i p k =
    copied_operand m bb i >>= λ op. ok (copy_from m x op (drop_named m (m.name x) p) k)

-- The phis of one successor, and of all.
unfoldable pub copy_block :
    Module → ℕ → List ℕ → Partitions → Counter → Result (Partitions × Counter)
copy_block m bb [] p k = ok (p, k)
copy_block m bb (x ∷ xs) p k = elim (as_instr (m.at x)) [
  | none ↦ copy_block m bb xs p k
  | some i ↦
      if is_phi i
      then (copy_statement m bb x i p k >>= λ r. copy_block m bb xs r.0 r.1)
      else copy_block m bb xs p k
]

unfoldable pub copy_all : Module → ℕ → List ℕ → Partitions → Counter → Result (Partitions × Counter)
copy_all m bb [] p k = ok (p, k)
copy_all m bb (b ∷ bs) p k =
    copy_block m bb (instrs_of (m.at b)) p k >>= λ r. copy_all m bb bs r.0 r.1
