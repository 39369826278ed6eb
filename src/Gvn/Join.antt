-- ===== src/Gvn/Join.antt =====
-- GVN::join and GVN::intersect (src/optimization/GVN.cpp).
pub mod Meet
use gvn.Prelude.{
  ℕ, zero, suc, ◌+◌, Bool, true, false, not, ◌&&◌, ◌||◌, Option, none, some, List, [], ◌∷◌,
  if◌then◌else◌, ◌==◌, length,
}
use gvn.Ir.Module.{Value, object}
use gvn.Gvn.Expr.{Expr, null, phi, is_null, ptr_eq}
use gvn.Gvn.Class.{
  CongruenceClass, Partitions, Phi, Counter, bump, create_class, insert_member, insert_class,
  phi_ptr_eq,
}

-- The body of the inner loop: `Ck` gains `i` where `i == j`, and its first member leads it.
unfoldable pub meet_step : ℕ → ℕ → CongruenceClass → CongruenceClass
meet_step i j ck =
    if i == j
    then (let ms = insert_member i ck.members in
        record ck { members = ms; leader = if length ms == 1 then object i else ck.leader })
    else ck

unfoldable pub meet_inner : ℕ → List ℕ → CongruenceClass → CongruenceClass
meet_inner i [] ck = ck
meet_inner i (j ∷ js) ck = meet_inner i js (meet_step i j ck)

unfoldable pub meet_members : List ℕ → List ℕ → CongruenceClass → CongruenceClass
meet_members [] js ck = ck
meet_members (i ∷ is) js ck = meet_members is js (meet_inner i js ck)

abbrev pub has_phi : Option Phi → Bool
has_phi none = false
has_phi (some p) = true

abbrev pub is_empty : List ℕ → Bool
is_empty [] = true
is_empty (x ∷ xs) = false

-- Ck before the loops: what the two classes agree on.
unfoldable pub agreed : CongruenceClass → CongruenceClass → CongruenceClass
agreed ci cj = record (create_class (if ci.index == cj.index then ci.index else 0)) {
  value_expr = if ptr_eq ci.value_expr cj.value_expr then ci.value_expr else null;
  value_phi = if phi_ptr_eq ci.value_phi cj.value_phi then ci.value_phi else none;
}

-- Ck after the tests that follow the loops: the value number of Ci where the value expressions or
-- the value phis agree.
unfoldable pub numbered : CongruenceClass → CongruenceClass → CongruenceClass → CongruenceClass
numbered ci cj ck =
    if not (is_null ck.value_expr) && ptr_eq ci.value_expr cj.value_expr
      || has_phi ck.value_phi && phi_ptr_eq ci.value_phi cj.value_phi
    then record ck { index = ci.index }
    else ck

-- The value phi of a new class; `value_expr_` and `value_phi_` get an object each.
unfoldable pub with_phi : CongruenceClass → CongruenceClass → CongruenceClass → ℕ → CongruenceClass
with_phi ci cj ck a =
    if ptr_eq ci.value_expr cj.value_expr
    then record ck { value_expr = ci.value_expr }
    else record ck {
      value_expr = phi ci.value_expr cj.value_expr;
      value_phi = some (record { addr = a; lhs = ci.value_expr; rhs = cj.value_expr });
    }

-- A class with members and no value number gets a new one.
unfoldable pub renumbered :
    CongruenceClass → CongruenceClass → CongruenceClass → Counter → CongruenceClass × Counter
renumbered ci cj ck k =
    if ck.index == 0 && not (is_empty ck.members)
    then (
      with_phi ci cj (record ck { index = k.next_value_number }) k.next_addr,
      record (bump k) { next_addr = k.next_addr + 1 },
    )
    else (ck, k)

abbrev pub met : CongruenceClass → CongruenceClass → CongruenceClass
met ci cj = numbered ci cj (meet_members ci.members cj.members (agreed ci cj))

unfoldable pub intersect :
    CongruenceClass → CongruenceClass → Counter → Option CongruenceClass × Counter
intersect ci cj k =
    let (ck, k') = renumbered ci cj (met ci cj) k in
    (if not (ck.index == 0) && not (is_empty ck.members) then some ck else none, k')

-- The body of the loops of join.
abbrev pub insert_if : Option CongruenceClass → Partitions → Partitions
insert_if none p = p
insert_if (some c) p = insert_class c p

unfoldable pub join_step :
    CongruenceClass → CongruenceClass → Partitions × Counter → Partitions × Counter
join_step ci cj (p, k) =
    if ci.index == 0 || cj.index == 0
    then (p, k)
    else (let (o, k') = intersect ci cj k in (insert_if o p, k'))

unfoldable pub join_inner :
    CongruenceClass → Partitions → Partitions × Counter → Partitions × Counter
join_inner ci [] s = s
join_inner ci (cj ∷ cjs) s = join_inner ci cjs (join_step ci cj s)

unfoldable pub join_outer : Partitions → Partitions → Partitions × Counter → Partitions × Counter
join_outer [] p2 s = s
join_outer (ci ∷ cis) p2 s = join_outer cis p2 (join_inner ci p2 s)

-- `P.size() == 1 && (*(P.begin()))->index_ == 0`
unfoldable pub is_top : Partitions → Bool
is_top [] = false
is_top (c ∷ []) = c.index == 0
is_top (c ∷ d ∷ ds) = false

unfoldable pub join : Partitions → Partitions → Counter → Partitions × Counter
join p1 p2 k =
    if is_top p1 then (p2, k) else if is_top p2 then (p1, k) else join_outer p1 p2 ([], k)
