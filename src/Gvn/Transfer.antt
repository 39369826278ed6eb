-- ===== src/Gvn/Transfer.antt =====
-- GVN::transferFunction (src/optimization/GVN.cpp), on instructions `x = x`.
pub mod Congruence
use gvn.Prelude.{
  ℕ, Bool, true, false, not, ◌&&◌, ◌||◌, Option, none, some, List, [], ◌∷◌, if◌then◌else◌, any,
  Result, ok, ◌>>=◌, map,
}
use gvn.Ir.Opcodes.{OpId}
use gvn.Ir.Constants.{Constant, FloatOps}
use gvn.Ir.Module.{Module, Instr, Value, constant, object}
use gvn.Gvn.Expr.{Expr, phi, is_null, expr_eq, ptr_eq}
use gvn.Gvn.Class.{
  CongruenceClass, Partitions, Phi, Counter, bump, create_class, insert_member, erase_member,
  insert_class,
}
use gvn.Gvn.ValueExpr.{value_expr_of}
use gvn.Gvn.ValuePhi.{value_phi_func}

abbrev pub is_phi : Instr → Bool
is_phi i = elim i.op_id [ OpId.phi ↦ true | _ ↦ false ]

-- The first loop: no class holds `x`.
unfoldable pub erase_value : ℕ → Partitions → Partitions
erase_value x [] = []
erase_value x (c ∷ cs) = record c { members = erase_member x c.members } ∷ erase_value x cs

-- A value phi of two equal sides is the side.
unfoldable pub settle : Expr → Option Phi → Expr × Option Phi
settle ve none = (ve, none)
settle ve (some p) = if ptr_eq p.lhs p.rhs then (p.lhs, none) else (ve, some p)

abbrev pub has_phi_like : Phi → Option Phi → Bool
has_phi_like p none = false
has_phi_like p (some q) = expr_eq (phi q.lhs q.rhs) (phi p.lhs p.rhs)

-- The tests of the two loops that insert `x`.
unfoldable pub matches : Expr × Option Phi → CongruenceClass → Bool
matches (ve, none) c = not (is_null ve) && not (is_null c.value_expr) && expr_eq c.value_expr ve
matches (ve, some p) c = has_phi_like p c.value_phi

unfoldable pub insert_matching : ℕ → Expr × Option Phi → Partitions → Partitions
insert_matching x s [] = []
insert_matching x s (c ∷ cs) =
    (if matches s c then record c { members = insert_member x c.members } else c)
    ∷ insert_matching x s cs

-- A constant leads the class of the values that fold to it.
abbrev pub leader_of : ℕ → Expr → Value
leader_of x (Expr.constant c) = constant c
leader_of x _ = object x

abbrev pub new_class : ℕ → Expr × Option Phi → ℕ → CongruenceClass
new_class x (ve, vpf) n = record (create_class n) {
  leader = leader_of x ve;
  members = x ∷ [];
  value_expr = ve;
  value_phi = vpf;
}

-- `x` enters the classes of its value, or a class of its own.
unfoldable pub place : Bool → ℕ → Expr × Option Phi → Partitions → Counter → Partitions × Counter
place is_phi x s p k =
    let q = insert_matching x s p in
    if any (matches s) p || is_phi
    then (q, k)
    else (insert_class (new_class x s k.next_value_number) q, bump k)

abbrev pub erased : Bool → ℕ → Partitions → Partitions
erased is_phi x p = if is_phi then p else erase_value x p

-- transferFunction of the instruction `i` at the address `x`, in the block `bb`.
module _ (fl : FloatOps) (m : Module) (is_pure : ℕ → Bool) (pout : ℕ → Partitions) where
  unfoldable pub transfer_function :
      ℕ → ℕ → Instr → ℕ → Partitions → Counter → Result (Partitions × Counter)
  transfer_function fuel x i bb pin k = do
    ve ← value_expr_of fl m is_pure pin x i
    r ← value_phi_func fl m pout fuel ve pin bb k.next_addr
    ok (place (is_phi i) x (settle ve r.0) (erased (is_phi i) x pin) (record k { next_addr = r.1 }))
