-- ===== src/Ir/Uses/Replaced.antt =====
-- What replace_use_with_when replaces, and what it leaves.
use gvn.Prelude.{
  ℕ, zero, suc, ◌<◌, ◌≡◌, refl, ap, sym, ◌∙◌, ◌≢◌, inl, inr, Bool, true, false, not, ◌&&◌, ◌||◌,
  List, [], ◌∷◌, Option, some, if◌then◌else◌, ◌==◌, ==_iff, ltb, length, set, update, keep, any,
  get_elem?, Result, ok, fault, arith, Bool-cases, All,
}
use gvn.Ir.Module.{Module, Value, constant, object, Use, Object, instr, operands_of}
use gvn.Ir.Uses.{add_use, write_operand, set_operand, replace_uses, replace_use_with_when}

-- The operand `n` of the object at `a`.
abbrev pub operand_at : Module → ℕ → ℕ → Option Value
operand_at m a n = get_elem? (operands_of (m.at a)) n

-- How many operands the object at `a` has.
abbrev pub arity : Module → ℕ → ℕ
arity m a = length (operands_of (m.at a))

-- Each use that is selected is an operand of its user.
abbrev pub InRange : Module → (ℕ → Bool) → List Use → Type 0
InRange m pred us = All (λ (u : Use). (not (pred u.val) || ltb u.arg_no (arity m u.val)) ≡ true) us

get_elem?-set :
    (xs : List Value) (n k : ℕ) (v : Value)
    → n < length xs
    → get_elem? (set xs n v) k ≡ (if n == k then some v else get_elem? xs k)
get_elem?-set [] n k v lt = elim lt [ ]
get_elem?-set (x ∷ xs) zero zero v lt = refl
get_elem?-set (x ∷ xs) zero (suc k) v lt = ground (arith, ==_iff 0 (suc k))
get_elem?-set (x ∷ xs) (suc n) zero v lt = ground (arith, ==_iff (suc n) 0)
get_elem?-set (x ∷ xs) (suc n) (suc k) v lt =
    ground (arith, get_elem?-set xs n k v (omega (arith, lt)), ==_iff n k, ==_iff (suc n) (suc k))

length-set : (xs : List Value) (n : ℕ) (v : Value) → length (set xs n v) ≡ length xs
length-set [] n v = refl
length-set (x ∷ xs) zero v = refl
length-set (x ∷ xs) (suc n) v = ap suc (length-set xs n v)

add_use-at : (m : Module) (v : Value) (user n : ℕ) → (add_use m v user n).at ≡ m.at
unfolding add_use
add_use-at m (constant c) user n = refl
add_use-at m (object a) user n = refl

operands-write_operand :
    (o : Object) (n : ℕ) (v : Value) → operands_of (write_operand o n v) ≡ set (operands_of o) n v
unfolding write_operand
operands-write_operand (instr i) n v = refl
operands-write_operand (Object.block b) n v = refl
operands-write_operand (Object.func f) n v = refl
operands-write_operand (Object.argument t) n v = refl
operands-write_operand (Object.global t) n v = refl

-- The objects after set_operand.
set_operand-operands :
    (m m' : Module) (user n : ℕ) (v : Value) (a : ℕ)
    → set_operand m user n v ≡ ok m'
    → (n < arity m user)
      × (operands_of (m'.at a)
          ≡ (if user == a then set (operands_of (m.at user)) n v else operands_of (m.at a)))
unfolding set_operand
set_operand-operands m m' user n v a h = elim (Bool-cases (ltb n (arity m user))) [
  | inl e ↦
      let w = record m { at = update m.at user (write_operand (m.at user) n v) } in
      let same =
        ap (λ (r : Result Module). elim r [ ok z ↦ z | fault f ↦ m' ]) (rw (e, set_operand) at h) in
      (
        ground arith,
        ap (λ (z : Module). operands_of (z.at a)) (sym same)
            ∙ ap (λ (g : ℕ → Object). operands_of (g a)) (add_use-at w v user n)
            ∙ updated (user == a),
      )
  | inr e ↦ cc (rw (e, set_operand) at h)
]
  where
    updated :
        (b : Bool)
        → operands_of (if b then write_operand (m.at user) n v else m.at a)
          ≡ (if b then set (operands_of (m.at user)) n v else operands_of (m.at a))
    updated true = operands-write_operand (m.at user) n v
    updated false = refl

pub set_operand-operand_at :
    (m m' : Module) (user n : ℕ) (v : Value) (a k : ℕ)
    → set_operand m user n v ≡ ok m'
    → operand_at m' a k ≡ (if user == a && n == k then some v else operand_at m a k)
set_operand-operand_at m m' user n v a k h =
    let (lt, e) = set_operand-operands m m' user n v a h in
    ap (λ (vs : List Value). get_elem? vs k) e ∙ both (user == a) refl lt
  where
    both :
        (b : Bool)
        → (user == a) ≡ b
        → n < arity m user
        → get_elem? (if b then set (operands_of (m.at user)) n v else operands_of (m.at a)) k
          ≡ (if b && n == k then some v else operand_at m a k)
    both true e lt =
        get_elem?-set (operands_of (m.at user)) n k v lt
        ∙ ap (λ z. if n == k then some v else operand_at m z k) ((==_iff user a).0 e)
    both false e lt = refl

set_operand-arity :
    (m m' : Module) (user n : ℕ) (v : Value) (a : ℕ)
    → set_operand m user n v ≡ ok m'
    → arity m' a ≡ arity m a
set_operand-arity m m' user n v a h =
    let (_, e) = set_operand-operands m m' user n v a h in ap length e ∙ both (user == a) refl
  where
    both :
        (b : Bool)
        → (user == a) ≡ b
        → length (if b then set (operands_of (m.at user)) n v else operands_of (m.at a)) ≡ arity m a
    both true e =
        length-set (operands_of (m.at user)) n v ∙ ap (λ z. arity m z) ((==_iff user a).0 e)
    both false e = refl

-- The use is selected, and is the operand `k` of `a`.
abbrev pub selects : (ℕ → Bool) → ℕ → ℕ → Use → Bool
selects pred a k u = pred u.val && (u.val == a && u.arg_no == k)

-- What `replace_uses` has done once it returns.
abbrev Done : Value → (ℕ → Bool) → List Use → Module → Module × List Use → Type 0
Done new pred us m r =
    (r.1 ≡ keep (λ (u : Use). not (pred u.val)) us)
    × ((a k : ℕ)
        → operand_at r.0 a k ≡ (if any (selects pred a k) us then some new else operand_at m a k))

InRange-set_operand :
    (m m' : Module) (pred : ℕ → Bool) (user n : ℕ) (v : Value) (us : List Use)
    → set_operand m user n v ≡ ok m'
    → InRange m pred us
    → InRange m' pred us
InRange-set_operand m m' pred user n v [] h r = tt
InRange-set_operand m m' pred user n v (u ∷ us) h r = (
  ap (λ l. not (pred u.val) || ltb u.arg_no l) (set_operand-arity m m' user n v u.val h) ∙ r.0,
  InRange-set_operand m m' pred user n v us h r.1,
)

set_operand-total :
    (m : Module) (user n : ℕ) (v : Value)
    → n < arity m user
    → (m' : Module) × (set_operand m user n v ≡ ok m')
unfolding set_operand
set_operand-total m user n v lt = (
  add_use (record m { at = update m.at user (write_operand (m.at user) n v) }) v user n,
  ground arith,
)

replace_uses-Done :
    (m : Module) (new : Value) (pred : ℕ → Bool) (us : List Use)
    → InRange m pred us
    → (r : Module × List Use) × (replace_uses m new pred us ≡ ok r) × Done new pred us m r
unfolding replace_uses
replace_uses-Done m new pred [] range = ((m, []), refl, (refl, λ a k. refl))
replace_uses-Done m new pred (u ∷ us) (first, range) = elim (Bool-cases (pred u.val)) [
  | inl e ↦
      let (m', set) = set_operand-total m u.val u.arg_no new (ground arith) in
      let (r, h, (left, ops)) =
        replace_uses-Done m' new pred us
          (InRange-set_operand m m' pred u.val u.arg_no new us set range) in
      (
        r,
        rw (e, set) (h),
        (
          rw e (left),
          λ a k.
              ops a k
              ∙ step (any (selects pred a k) us) (u.val == a && u.arg_no == k) (pred u.val)
                  (operand_at m' a k) (operand_at m a k) e
                  (set_operand-operand_at m m' u.val u.arg_no new a k set),
        ),
      )
  | inr e ↦
      let (r, h, (left, ops)) = replace_uses-Done m new pred us range in
      ((r.0, u ∷ r.1), rw (e, h) (refl), (rw e (ap (λ vs. u ∷ vs) left), λ a k. rw e (ops a k)))
]
  where
    step :
        (later here p : Bool) (x y : Option Value)
        → p ≡ true
        → x ≡ (if here then some new else y)
        → (if later then some new else x) ≡ (if p && here || later then some new else y)
    step later here p x y e h = ground arith

-- Where each selected use is an operand of its user, and the value is replaced by another one,
-- `replace_use_with_when` returns. Then exactly
-- the uses that are not selected are left in the use list, each operand that a selected use names
-- is the new value, and every other operand is as before.
pub replace_use_with_when-operands :
    (m : Module) (a : ℕ) (new : Value) (pred : ℕ → Bool)
    → new ≢ object a
    → InRange m pred (m.use_list a)
    → (m' : Module) × (replace_use_with_when m a new pred ≡ ok m')
      × (m'.use_list a ≡ keep (λ (u : Use). not (pred u.val)) (m.use_list a))
      × ((b k : ℕ)
          → operand_at m' b k
            ≡ (if any (selects pred b k) (m.use_list a) then some new else operand_at m b k))
unfolding replace_use_with_when
replace_use_with_when-operands m a new pred other range =
    let (r, h, (left, ops)) = replace_uses-Done m new pred (m.use_list a) range in
    (
      record r.0 { use_list = update r.0.use_list a r.1 },
      rw h (refl),
      rw ((==_iff a a).1 refl) (left),
      ops,
    )
