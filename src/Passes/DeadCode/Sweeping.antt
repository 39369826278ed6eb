-- ===== src/Passes/DeadCode/Sweeping.antt =====
-- What sweep leaves: the marked instructions, in order, with no operand or use that dangles.
use gvn.Prelude.{
  ℕ, ◌+◌, ◌≡◌, refl, sym, ap, ◌∙◌, inl, inr, Bool, true, false, not, ◌||◌, ◌&&◌, List, [], ◌∷◌,
  ◌++◌, ◌==◌, ==_iff, contains, contains-append, contains-keep, keep, length, Bool-cases, arith, ok,
}
use gvn.Ir.Module.{
  Module, Value, Object, instr, block, func, argument, global, constant, object, instrs_of,
  blocks_of, operands_of,
}
use gvn.Passes.DeadCode.{
  instrs, block_instrs, defs, mark, remove_use, remove_uses, remove_use_of_ops, remove_all_uses,
  erase_from, unlink, erase, erase_all, wait_del, sweep,
}
use gvn.Passes.DeadCode.Marking.{mark-defs}

module _ {ℓ} {A : Type ℓ} where
  keep-keep : (p q : A → Bool) (xs : List A) → keep p (keep q xs) ≡ keep (λ v. q v && p v) xs
  keep-keep p q [] = refl
  keep-keep p q (x ∷ xs) = ground (arith, keep-keep p q xs)

  keep-append : (p : A → Bool) (xs ys : List A) → keep p (xs ++ ys) ≡ keep p xs ++ keep p ys
  keep-append p [] ys = refl
  keep-append p (x ∷ xs) ys = ground (arith, keep-append p xs ys)

  length-keep :
      (p : A → Bool) (xs : List A)
      → length (keep p xs) + length (keep (λ v. not (p v)) xs) ≡ length xs
  length-keep p [] = refl
  length-keep p (x ∷ xs) = ground (arith, length-keep p xs)

keep-congr :
    (p q : ℕ → Bool) (xs : List ℕ)
    → ((v : ℕ) → contains xs v ≡ true → p v ≡ q v)
    → keep p xs ≡ keep q xs
keep-congr p q [] h = refl
keep-congr p q (x ∷ xs) h =
    ground (arith, keep-congr p q xs (λ v c. h v (ground arith)), h x (ground (arith, ==_iff x x)))

-- The address holds an instruction whose parent is the block `b`.
abbrev pub parent_is : Object → ℕ → Bool
parent_is (instr i) b = i.parent == b
parent_is (block x) b = false
parent_is (func x) b = false
parent_is (argument t) b = false
parent_is (global t) b = false

abbrev erased : (ℕ → Object) → List ℕ → ℕ → ℕ → Bool
erased at [] b v = false
erased at (a ∷ as') b v = a == v && parent_is (at a) b || erased at as' b v

erase_from-parent : (a b : ℕ) (o : Object) → parent_is (erase_from a o) b ≡ parent_is o b
unfolding erase_from
erase_from-parent a b (block x) = refl
erase_from-parent a b _ = refl

erase_from-instrs :
    (a : ℕ) (o : Object) → instrs_of (erase_from a o) ≡ keep (λ v. not (v == a)) (instrs_of o)
unfolding erase_from
erase_from-instrs a (block x) = refl
erase_from-instrs a _ = refl

keep_all : (p : ℕ → Bool) (xs : List ℕ) → ((v : ℕ) → p v ≡ true) → keep p xs ≡ xs
keep_all p [] h = refl
keep_all p (x ∷ xs) h = ground (arith, h x, keep_all p xs h)

unlink-parent :
    (m : Module) (o : Object) (a v b : ℕ) → parent_is ((unlink m o a).at v) b ≡ parent_is (m.at v) b
unfolding unlink
unlink-parent m (instr i) a v b =
    ground (arith, erase_from-parent a b (m.at i.parent), ==_iff i.parent v)
unlink-parent m _ a v b = refl

unlink-instrs :
    (m : Module) (o : Object) (a b : ℕ)
    → instrs_of ((unlink m o a).at b)
      ≡ keep (λ v. not (a == v && parent_is o b)) (instrs_of (m.at b))
unfolding unlink
unlink-instrs m (instr i) a b = elim (Bool-cases (i.parent == b)) [
  | inl here ↦
      let e = (==_iff i.parent b).0 here in
      rw (here, e)
        (erase_from-instrs a (m.at b)
          ∙ keep-congr (λ v. not (v == a)) (λ v. not (a == v && true)) (instrs_of (m.at b))
              (λ v c. ground arith))
  | inr there ↦
      rw there
        (sym (keep_all (λ v. not (a == v && false)) (instrs_of (m.at b)) (λ v. ground arith)))
]
unlink-instrs m _ a b =
    sym (keep_all (λ v. not (a == v && false)) (instrs_of (m.at b)) (λ v. ground arith))

erase-instrs :
    (m : Module) (a b : ℕ)
    → instrs_of ((erase m a).at b)
      ≡ keep (λ v. not (a == v && parent_is (m.at a) b)) (instrs_of (m.at b))
unfolding erase
erase-instrs m a b = unlink-instrs m (m.at a) a b

erased-erase :
    (m : Module) (a : ℕ) (xs : List ℕ) (b v : ℕ) → erased (erase m a).at xs b v ≡ erased m.at xs b v
unfolding erase
erased-erase m a [] b v = refl
erased-erase m a (x ∷ xs) b v =
    ground (arith, unlink-parent m (m.at a) a x b, erased-erase m a xs b v)

erase_all-instrs :
    (m : Module) (xs : List ℕ) (b : ℕ)
    → instrs_of ((erase_all m xs).at b) ≡ keep (λ v. not (erased m.at xs b v)) (instrs_of (m.at b))
unfolding erase_all
erase_all-instrs m [] b = sym (keep_all (λ v. true) (instrs_of (m.at b)) (λ v. refl))
erase_all-instrs m (a ∷ xs) b =
    erase_all-instrs (erase m a) xs b
    ∙ keep-congr (λ v. not (erased (erase m a).at xs b v)) (λ v. not (erased m.at xs b v))
        (instrs_of ((erase m a).at b)) (λ v c. ap not (erased-erase m a xs b v))
    ∙ ap (keep (λ v. not (erased m.at xs b v))) (erase-instrs m a b)
    ∙ keep-keep (λ v. not (erased m.at xs b v)) (λ v. not (a == v && parent_is (m.at a) b))
        (instrs_of (m.at b))
    ∙ keep-congr (λ v. not (a == v && parent_is (m.at a) b) && not (erased m.at xs b v))
        (λ v. not (erased m.at (a ∷ xs) b v)) (instrs_of (m.at b)) (λ v c. ground arith)

-- The use lists change, and no object does.
remove_use-at : (m : Module) (v : Value) (a : ℕ) → (remove_use m v a).at ≡ m.at
unfolding remove_use
remove_use-at m (constant c) a = refl
remove_use-at m (object b) a = refl

pub remove_uses-at : (m : Module) (vs : List Value) (a : ℕ) → (remove_uses m vs a).at ≡ m.at
unfolding remove_uses
remove_uses-at m [] a = refl
remove_uses-at m (v ∷ vs) a = remove_uses-at (remove_use m v a) vs a ∙ remove_use-at m v a

remove_all_uses-at : (m : Module) (xs : List ℕ) → (remove_all_uses m xs).at ≡ m.at
unfolding remove_all_uses remove_use_of_ops
remove_all_uses-at m [] = refl
remove_all_uses-at m (a ∷ xs) =
    remove_all_uses-at (remove_use_of_ops m a) xs ∙ remove_uses-at m (operands_of (m.at a)) a

erased-parent :
    (m : Module) (xs : List ℕ) (b v : ℕ)
    → erased m.at xs b v ≡ (contains xs v && parent_is (m.at v) b)
erased-parent m [] b v = refl
erased-parent m (a ∷ xs) b v = elim (Bool-cases (a == v)) [
  | inl e ↦ rw ((==_iff a v).0 e) (ground (arith, erased-parent m xs b v))
  | inr e ↦ rw e (erased-parent m xs b v)
]

-- Every instruction that a block of the list holds names that block as its parent.
abbrev pub IsOwned : Module → List ℕ → Type 0
IsOwned m bs =
    (b v : ℕ)
    → contains bs b ≡ true
    → contains (instrs_of (m.at b)) v ≡ true
    → parent_is (m.at v) b ≡ true

contains-block_instrs :
    (m : Module) (bs : List ℕ) (b v : ℕ)
    → contains bs b ≡ true
    → contains (instrs_of (m.at b)) v ≡ true
    → contains (block_instrs m bs) v ≡ true
unfolding block_instrs
contains-block_instrs m [] b v i j = cc
contains-block_instrs m (c ∷ bs) b v i j = elim (Bool-cases (c == b)) [
  | inl e ↦
      let here : contains (instrs_of (m.at c)) v ≡ true =
        ap (λ x. contains (instrs_of (m.at x)) v) ((==_iff c b).0 e) ∙ j in
      ground (arith, contains-append (instrs_of (m.at c)) (block_instrs m bs) v)
  | inr e ↦ ground (
    arith,
    contains-append (instrs_of (m.at c)) (block_instrs m bs) v,
    contains-block_instrs m bs b v (ground arith) j,
  )
]

erase_from-blocks : (a : ℕ) (o : Object) → blocks_of (erase_from a o) ≡ blocks_of o
unfolding erase_from
erase_from-blocks a (block x) = refl
erase_from-blocks a _ = refl

unlink-blocks :
    (m : Module) (o : Object) (a b : ℕ) → blocks_of ((unlink m o a).at b) ≡ blocks_of (m.at b)
unfolding unlink
unlink-blocks m (instr i) a b = elim (Bool-cases (i.parent == b)) [
  | inl here ↦ rw (here, (==_iff i.parent b).0 here) (erase_from-blocks a (m.at b))
  | inr there ↦ rw there
]
unlink-blocks m _ a b = refl

erase_all-blocks :
    (m : Module) (xs : List ℕ) (b : ℕ) → blocks_of ((erase_all m xs).at b) ≡ blocks_of (m.at b)
unfolding erase_all erase
erase_all-blocks m [] b = refl
erase_all-blocks m (a ∷ xs) b = erase_all-blocks (erase m a) xs b ∙ unlink-blocks m (m.at a) a b

module _ (m : Module) (marked : ℕ → Bool) (f : ℕ) (owned : IsOwned m (blocks_of (m.at f))) where
  -- A block of the function keeps the marked instructions, in their order.
  sweep-block :
      (b : ℕ)
      → contains (blocks_of (m.at f)) b ≡ true
      → instrs_of ((sweep m marked f).0.at b) ≡ keep marked (instrs_of (m.at b))
  unfolding sweep
  sweep-block b i =
      let wd = wait_del m marked f in
      erase_all-instrs (remove_all_uses m wd) wd b
      ∙ ap (λ (at : ℕ → Object). keep (λ v. not (erased at wd b v)) (instrs_of (at b)))
          (remove_all_uses-at m wd)
      ∙ keep-congr (λ v. not (erased m.at wd b v)) marked (instrs_of (m.at b))
          (λ v c. ground (
            arith,
            erased-parent m wd b v,
            owned b v i c,
            contains-keep (λ x. not (marked x)) (instrs m f) v,
            contains-block_instrs m (blocks_of (m.at f)) b v i c,
          ))

  block_instrs-keep :
      (m' : Module) (bs : List ℕ)
      → ((b : ℕ) → contains bs b ≡ true → instrs_of (m'.at b) ≡ keep marked (instrs_of (m.at b)))
      → block_instrs m' bs ≡ keep marked (block_instrs m bs)
  unfolding block_instrs
  block_instrs-keep m' [] h = refl
  block_instrs-keep m' (b ∷ bs) h =
      rw (h b (ground (arith, ==_iff b b)), block_instrs-keep m' bs (λ c i. h c (ground arith)))
        (sym (keep-append marked (instrs_of (m.at b)) (block_instrs m bs)))

  sweep-instrs : instrs (sweep m marked f).0 f ≡ keep marked (instrs m f)
  unfolding sweep
  sweep-instrs =
      let wd = wait_del m marked f in
      let same : blocks_of ((sweep m marked f).0.at f) ≡ blocks_of (m.at f) =
        erase_all-blocks (remove_all_uses m wd) wd f
        ∙ ap (λ (at : ℕ → Object). blocks_of (at f)) (remove_all_uses-at m wd) in
      ap (block_instrs (sweep m marked f).0) same
      ∙ block_instrs-keep (sweep m marked f).0 (blocks_of (m.at f)) sweep-block

  -- With each instruction in the block that it names as its parent, `sweep` leaves the function
  -- exactly its marked instructions, in their order, and tells how many it deleted.
  pub sweep-keep :
      (instrs (sweep m marked f).0 f ≡ keep marked (instrs m f))
      × ((sweep m marked f).1 + length (instrs (sweep m marked f).0 f) ≡ length (instrs m f))
  unfolding sweep
  sweep-keep =
      (sweep-instrs, omega (arith, ap length sweep-instrs, length-keep marked (instrs m f)))

  -- With each instruction in the block that it names as its parent, after `mark` and `sweep` of a
  -- function, with an instruction that is still there every operand of it that was an instruction of
  -- the function is still there.
  pub mark-sweep :
      (is_pure : ℕ → Bool) (a d : ℕ)
      → mark m is_pure f ≡ ok marked
      → contains (instrs (sweep m marked f).0 f) a ≡ true
      → contains (defs m a) d ≡ true
      → contains (instrs m f) d ≡ true
      → contains (instrs (sweep m marked f).0 f) d ≡ true
  mark-sweep is_pure a d h i edge j =
      let kept =
        λ (x : ℕ). ap (λ xs. contains xs x) sweep-instrs ∙ contains-keep marked (instrs m f) x in
      ground (arith, kept a, kept d, mark-defs m is_pure f marked a d h)
