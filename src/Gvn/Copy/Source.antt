-- ===== src/Gvn/Copy/Source.antt =====
-- What a copy statement makes congruent.
use gvn.Prelude.{
  ok-injective, ℕ, ◌≡◌, refl, ap, sym, ◌∙◌, ◌≢◌, inl, inr, Bool, true, false, ◌||◌, List, [], ◌∷◌,
  ◌==◌, ==_iff, contains, any, ok, arith, Bool-cases, >>=-eq-ok, is_eq_refl, subst,
}
use gvn.Prelude.Texts.{Text, Text-discrete}
use gvn.Ir.Module.{Module, Instr, Value, constant, object, get_name}
use gvn.Gvn.Expr.{Expr, var}
use gvn.Gvn.Class.{CongruenceClass, Partitions, Counter, together}
use gvn.Gvn.Class.Sets.{contains-insert_member}
use gvn.Gvn.Join.{is_empty}
use gvn.Gvn.ValueExpr.{names_eq}
use gvn.Gvn.Transfer.Congruence.{together-insert_single}
use gvn.Gvn.Copy.{
  erase_named, drop_named, has_named, has_constant, insert_where, single, insert_or, copy_unnamed,
  copy_from, copied_operand, copy_statement,
}

contains-erase_named :
    (m : Module) (n : Text) (vs : List ℕ) (v : ℕ)
    → names_eq (m.name v) n ≡ false
    → contains (erase_named m n vs) v ≡ contains vs v
unfolding erase_named
contains-erase_named m n [] v h = refl
contains-erase_named m n (u ∷ vs) v h = elim (Bool-cases (u == v)) [
  | inl e ↦
      let same = subst (λ z. names_eq (m.name z) n ≡ false) (sym ((==_iff u v).0 e)) h in
      rw same (ap (λ b. u == v || b) (contains-erase_named m n vs v h))
  | inr e ↦ ground (arith, contains-erase_named m n vs v h)
]

contains-is_empty : (ms : List ℕ) (v : ℕ) → is_empty ms ≡ true → contains ms v ≡ false
contains-is_empty [] v h = refl
contains-is_empty (x ∷ ms) v h = cc

together-drop_named :
    (m : Module) (n : Text) (p : Partitions) (v w : ℕ)
    → names_eq (m.name v) n ≡ false
    → names_eq (m.name w) n ≡ false
    → together (drop_named m n p) v w ≡ together p v w
unfolding drop_named
together-drop_named m n [] v w a b = refl
together-drop_named m n (c ∷ p) v w a b = ground (
  arith,
  together-drop_named m n p v w a b,
  contains-erase_named m n c.members v a,
  contains-erase_named m n c.members w b,
  contains-is_empty (erase_named m n c.members) v,
)

together-insert_where :
    (x : ℕ) (test : CongruenceClass → Bool) (p : Partitions) (v w : ℕ)
    → v ≢ x
    → w ≢ x
    → together (insert_where x test p) v w ≡ together p v w
unfolding insert_where
together-insert_where x test [] v w a b = refl
together-insert_where x test (c ∷ p) v w a b = ground (
  arith,
  together-insert_where x test p v w a b,
  contains-insert_member x c.members v,
  contains-insert_member x c.members w,
  ==_iff x v,
  ==_iff x w,
)

copy_unnamed-together :
    (m : Module) (x : ℕ) (op : Value) (p : Partitions) (k : Counter) (v w : ℕ)
    → v ≢ x
    → w ≢ x
    → together (copy_unnamed m x op p k).0 v w ≡ together p v w
unfolding insert_or
copy_unnamed-together m x (object o) p k v w a b =
    together-insert_single x (single x (object x) k.next_value_number (var (m.name o))) p v w refl b
copy_unnamed-together m x (constant c) p k v w a b = elim (Bool-cases (any (has_constant c) p)) [
  | inl e ↦ rw e (together-insert_where x (has_constant c) p v w a b)
  | inr e ↦ rw e (
      together-insert_single x (single x (constant c) k.next_value_number (Expr.constant c)) p v w
        refl b)
]

copy_from-together :
    (m : Module) (x : ℕ) (op : Value) (p : Partitions) (k : Counter) (v w : ℕ)
    → v ≢ x
    → w ≢ x
    → together (copy_from m x op p k).0 v w ≡ together p v w
unfolding copy_from
copy_from-together m x op p k v w a b = elim (Bool-cases (any (has_named m (get_name m op)) p)) [
  | inl e ↦ rw e (together-insert_where x (has_named m (get_name m op)) p v w a b)
  | inr e ↦ rw e (copy_unnamed-together m x op p k v w a b)
]

apart : (m : Module) (v x : ℕ) → names_eq (m.name v) (m.name x) ≡ false → v ≢ x
apart m v x h e =
    let own = is_eq_refl Text-discrete (m.name x) in
    let other = subst (λ z. names_eq (m.name z) (m.name x) ≡ false) e h in cc

-- A copy statement keeps which values are congruent among those that have another name than the
-- phi.
pub copy_statement-others :
    (m : Module) (bb x : ℕ) (i : Instr) (p : Partitions) (k : Counter) (r : Partitions × Counter)
    (v w : ℕ)
    → names_eq (m.name v) (m.name x) ≡ false
    → names_eq (m.name w) (m.name x) ≡ false
    → copy_statement m bb x i p k ≡ ok r
    → together r.0 v w ≡ together p v w
unfolding copy_statement
copy_statement-others m bb x i p k r v w a b h =
    let (op, _, e) = >>=-eq-ok (copied_operand m bb i) _ h in
    ap (λ (z : Partitions × Counter). together z.0 v w) (sym (ok-injective e))
    ∙ copy_from-together m x op (drop_named m (m.name x) p) k v w (apart m v x a) (apart m w x b)
    ∙ together-drop_named m (m.name x) p v w a b

-- A class that holds a value has its name.
any-named :
    (m : Module) (n : Text) (w : ℕ) (ms : List ℕ)
    → names_eq (m.name w) n ≡ true
    → contains ms w ≡ true
    → any (λ v. names_eq (m.name v) n) ms ≡ true
any-named m n w [] e h = cc
any-named m n w (u ∷ ms) e h = elim (Bool-cases (u == w)) [
  | inl same ↦ rw (subst (λ z. names_eq (m.name z) n ≡ true) (sym ((==_iff u w).0 same)) e) (refl)
  | inr differ ↦ ground (arith, any-named m n w ms e)
]

any-has_named :
    (m : Module) (n : Text) (w : ℕ) (p : Partitions)
    → names_eq (m.name w) n ≡ true
    → together p w w ≡ true
    → any (has_named m n) p ≡ true
unfolding has_named
any-has_named m n w [] e h = cc
any-has_named m n w (c ∷ p) e h =
    ground (arith, any-named m n w c.members e, any-has_named m n w p e)

together-insert_where-in :
    (m : Module) (n : Text) (x w : ℕ) (p : Partitions)
    → names_eq (m.name w) n ≡ true
    → together p w w ≡ true
    → together (insert_where x (has_named m n) p) x w ≡ true
unfolding insert_where has_named
together-insert_where-in m n x w [] e h = cc
together-insert_where-in m n x w (c ∷ p) e h = elim (Bool-cases (contains c.members w)) [
  | inl inside ↦
      let found = any-named m n w c.members e inside in
      rw found (
        ground (
          arith,
          contains-insert_member x c.members x,
          contains-insert_member x c.members w,
          ==_iff x x,
        ))
  | inr outside ↦ ground (arith, together-insert_where-in m n x w p e)
]

-- The phi of a copy statement becomes congruent to the operand that it takes from the block, where
-- that is a value of another name in some class.
pub copy_statement-source :
    (m : Module) (bb x o : ℕ) (i : Instr) (p : Partitions) (k : Counter)
    → copied_operand m bb i ≡ ok (object o)
    → names_eq (m.name o) (m.name x) ≡ false
    → together p o o ≡ true
    → (r : Partitions × Counter) × (copy_statement m bb x i p k ≡ ok r) × (together r.0 x o ≡ true)
unfolding copy_statement copy_from
copy_statement-source m bb x o i p k e differ held =
    let q = drop_named m (m.name x) p in
    let still = together-drop_named m (m.name x) p o o differ differ ∙ held in
    let own = is_eq_refl Text-discrete (m.name o) in
    let known = any-has_named m (m.name o) o q own still in
    (
      (insert_where x (has_named m (m.name o)) q, k),
      rw (e, known) (refl),
      together-insert_where-in m (m.name o) x o q own still,
    )
