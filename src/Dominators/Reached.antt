-- ===== src/Dominators/Reached.antt =====
-- create_reverse_post_order numbers each block that can be reached, once.
use gvn.Prelude.{
  ℕ, zero, suc, ◌+◌, ◌<◌, ◌≤◌, ◌≡◌, refl, sym, ap, subst, ◌∙◌, ◌↔◌, Bool, true, false, not, List,
  [], ◌∷◌, ◌++◌, length, length-append, count, contains, contains-append, ◌==◌, ==_iff, ==_refl,
  Bool-cases, inl, inr, Result, ok, ◌>>=◌, arith,
}
use gvn.Dominators.{
  Graph, PostOrder, visit_unvisited, enter, leave, post_order_visit, start, reverse, entry_block,
  create_reverse_post_order,
}
use gvn.Dominators.Visits.{
  IsOnce, IsOnce-append, index_of, index_of-append_in, index_of-append_out, Reach, stay, go,
  Explored, none-Explored, then-Explored, skip-Explored, leave-Explored,
}

count-length : (p : ℕ → Bool) (xs : List ℕ) → count p xs ≤ length xs
count-length p [] = omega arith
count-length p (x ∷ xs) = ground (arith, count-length p xs)

count_mono :
    (p q : ℕ → Bool) (xs : List ℕ) → ((a : ℕ) → p a ≡ true → q a ≡ true) → count p xs ≤ count q xs
count_mono p q [] h = omega arith
count_mono p q (x ∷ xs) h = ground (arith, count_mono p q xs h, h x)

count_less :
    (p q : ℕ → Bool) (xs : List ℕ) (b : ℕ)
    → ((a : ℕ) → p a ≡ true → q a ≡ true)
    → contains xs b ≡ true
    → p b ≡ false
    → q b ≡ true
    → count p xs < count q xs
count_less p q [] b h c e f = ground arith
count_less p q (x ∷ xs) b h c e f = elim (Bool-cases (x == b)) [
  | inl s ↦
      let same_b = (==_iff x b).0 s in
      let px : p x ≡ false = subst (λ z. p z ≡ false) (sym same_b) e in
      let qx : q x ≡ true = subst (λ z. q z ≡ true) (sym same_b) f in
      ground (arith, count_mono p q xs h, px, qx)
  | inr s ↦ ground (arith, count_less p q xs b h (ground arith) e f, h x)
]

contains-reverse : (xs : List ℕ) (a : ℕ) → contains (reverse xs) a ≡ contains xs a
unfolding reverse
contains-reverse [] a = refl
contains-reverse (x ∷ xs) a =
    ground (arith, contains-append (reverse xs) (x ∷ []) a, contains-reverse xs a)

length-reverse : (xs : List ℕ) → length (reverse xs) ≡ length xs
unfolding reverse
length-reverse [] = refl
length-reverse (x ∷ xs) = omega (arith, length-append (reverse xs) (x ∷ []), length-reverse xs)

reverse-IsOnce : (xs : List ℕ) → IsOnce xs → IsOnce (reverse xs)
unfolding reverse
reverse-IsOnce [] h = tt
reverse-IsOnce (x ∷ xs) h =
    IsOnce-append (reverse xs) (x ∷ []) (reverse-IsOnce xs h.1) (refl, tt)
      (λ a c.
        contains-reverse xs a
        ∙ subst (λ z. contains xs z ≡ false) ((==_iff x a).0 (ground arith)) h.0)

index_of-reverse :
    (xs : List ℕ) (a : ℕ)
    → IsOnce xs
    → contains xs a ≡ true
    → index_of xs a + suc (index_of (reverse xs) a) ≡ length xs
unfolding reverse
index_of-reverse [] a h c = ground arith
index_of-reverse (x ∷ xs) a h c = elim (Bool-cases (contains xs a)) [
  | inl d ↦ grind (
    arith,
    index_of-reverse xs a h.1 d,
    index_of-append_in (reverse xs) (x ∷ []) a (contains-reverse xs a ∙ d),
    h.0,
    ==_iff x a,
  )
  | inr d ↦ ground (
    arith,
    index_of-append_out (reverse xs) (x ∷ []) a (contains-reverse xs a ∙ d),
    length-reverse xs,
  )
]

module _ (rec : ℕ → PostOrder → Result PostOrder) where
  visit_none : (s : PostOrder) → visit_unvisited rec [] s ≡ ok s
  unfolding visit_unvisited
  visit_none s = refl

  visit_skip :
      (r : ℕ) (rs : List ℕ) (s : PostOrder)
      → s.visited r ≡ true
      → visit_unvisited rec (r ∷ rs) s ≡ visit_unvisited rec rs s
  unfolding visit_unvisited
  visit_skip r rs s v = rw (v, visit_unvisited) refl

  visit_next :
      (r : ℕ) (rs : List ℕ) (s t : PostOrder)
      → s.visited r ≡ false
      → rec r s ≡ ok t
      → visit_unvisited rec (r ∷ rs) s ≡ visit_unvisited rec rs t
  unfolding visit_unvisited
  visit_next r rs s t v e = rw (v, e, visit_unvisited) refl

module _ (succs : ℕ → List ℕ) (blocks : List ℕ)
    (closed : (x y : ℕ)
      → contains blocks x ≡ true
      → contains (succs x) y ≡ true
      → contains blocks y ≡ true) where
  abbrev unvisited : PostOrder → ℕ
  unvisited s = count (λ b. not (s.visited b)) blocks

  -- The visits of blocks end, with fuel for each block that is not visited yet.
  abbrev Ends : ℕ → Type 0
  Ends fuel =
      (b : ℕ) (s : PostOrder)
      → contains blocks b ≡ true
      → s.visited b ≡ false
      → unvisited s < fuel
      → (t : PostOrder) × (ns : List ℕ) × (post_order_visit succs fuel b s ≡ ok t)
        × Explored succs (b ∷ []) s t ns

  fewer :
      (s t : PostOrder) (r : ℕ) (ns : List ℕ)
      → Explored succs (r ∷ []) s t ns
      → unvisited t ≤ unvisited s
  fewer s t r ns e =
      count_mono (λ b. not (t.visited b)) (λ b. not (s.visited b)) blocks
        (λ a h. ground (arith, e.seen a))

  fewer_entered :
      (s : PostOrder) (b : ℕ)
      → contains blocks b ≡ true
      → s.visited b ≡ false
      → unvisited (enter b s) < unvisited s
  unfolding enter
  fewer_entered s b c v =
      count_less (λ a. not ((enter b s).visited a)) (λ a. not (s.visited a)) blocks b
        (λ a h. ground arith) c (ground (arith, ==_refl b)) (ground arith)

  all_end :
      (fuel : ℕ)
      → Ends fuel
      → (rs : List ℕ) (s : PostOrder) → ((x : ℕ) → contains rs x ≡ true → contains blocks x ≡ true)
      → unvisited s < fuel
      → (t : PostOrder) × (ns : List ℕ) × (visit_unvisited (post_order_visit succs fuel) rs s
          ≡ ok t)
        × Explored succs rs s t ns
  all_end fuel ends [] s inside lt =
      (s, [], visit_none (post_order_visit succs fuel) s, none-Explored succs s)
  all_end fuel ends (r ∷ rs) s inside lt = elim (Bool-cases (s.visited r)) [
    | inl v ↦
        let q = all_end fuel ends rs s (λ x c. inside x (ground arith)) lt in
        (
          q.0,
          q.1,
          visit_skip (post_order_visit succs fuel) r rs s v ∙ q.2,
          skip-Explored succs r rs s q.0 q.1 v q.3,
        )
    | inr v ↦
        let o = ends r s (inside r (ground (arith, ==_refl r))) v lt in
        let q =
          all_end fuel ends rs o.0 (λ x c. inside x (ground arith))
            (omega (arith, lt, fewer s o.0 r o.1 o.3)) in
        (
          q.0,
          o.1 ++ q.1,
          visit_next (post_order_visit succs fuel) r rs s o.0 v o.2 ∙ q.2,
          then-Explored succs r rs s o.0 q.0 o.1 q.1 o.3 q.3,
        )
  ]

  all_Ends : (fuel : ℕ) → Ends fuel
  unfolding post_order_visit
  all_Ends zero b s c v lt = elim lt [ ]
  all_Ends (suc fuel) b s c v lt =
      let q =
        all_end fuel (all_Ends fuel) (succs b) (enter b s) (λ x d. closed b x c d)
          (omega (arith, fewer_entered s b c v)) in
      (
        leave b q.0,
        q.1 ++ b ∷ [],
        ap (λ z. z >>= λ t. ok (leave b t)) q.2,
        leave-Explored succs b s q.0 q.1 v q.3,
      )

-- Every block that a path leads to from an explored one is explored.
contains-Reach :
    {succs : ℕ → List ℕ} {b a : ℕ} (roots ns : List ℕ) (t : PostOrder)
    → Explored succs roots start t ns
    → Reach succs b a
    → contains ns b ≡ true
    → contains ns a ≡ true
unfolding start
contains-Reach roots ns t e (stay b) c = c
contains-Reach roots ns t e (go b d a edge r) c =
    contains-Reach roots ns t e r (sym (e.seen d) ∙ e.closed b d c edge)

-- Each successor of a block of the function is one of its blocks.
abbrev pub IsClosed : Graph → Type 0
IsClosed g =
    (x y : ℕ)
    → contains g.blocks x ≡ true
    → contains (g.succ_blocks x) y ≡ true
    → contains g.blocks y ≡ true

abbrev pub IsReversePostOrder : Graph → ℕ → PostOrder → Type 0
IsReversePostOrder g entry s =
    IsOnce s.order
    × ((b : ℕ) → (contains s.order b ≡ true) ↔ Reach g.succ_blocks entry b)
    × ((b : ℕ) → contains s.order b ≡ true → index_of s.order b + suc (s.id b) ≡ length s.order)

Explored-IsReversePostOrder :
    (g : Graph) (entry : ℕ) (t : PostOrder) (ns : List ℕ)
    → Explored g.succ_blocks (entry ∷ []) start t ns
    → IsReversePostOrder g entry
        (record { visited = t.visited; order = reverse t.order; id = t.id })
unfolding start
Explored-IsReversePostOrder g entry t ns e =
    let same_order : reverse t.order ≡ reverse ns = ap reverse e.grows in
    (subst IsOnce (sym same_order) (reverse-IsOnce ns e.once), λ b. (to b, from b), pos)
  where
    in_news : (b : ℕ) → contains (reverse t.order) b ≡ contains ns b
    in_news b = contains-reverse t.order b ∙ ap (λ z. contains z b) e.grows

    to : (b : ℕ) → contains (reverse t.order) b ≡ true → Reach g.succ_blocks entry b
    to b c =
        let r = e.reached b (sym (in_news b) ∙ c) in
        subst (λ z. Reach g.succ_blocks z b) (sym ((==_iff entry r.0).0 (ground (arith, r.1)))) r.2

    from : (b : ℕ) → Reach g.succ_blocks entry b → contains (reverse t.order) b ≡ true
    from b r =
        in_news b
        ∙ contains-Reach (entry ∷ []) ns t e r
            (sym (e.seen entry) ∙ e.roots_seen entry (ground (arith, ==_refl entry)))

    pos :
        (b : ℕ)
        → contains (reverse t.order) b ≡ true
        → index_of (reverse t.order) b + suc (t.id b) ≡ length (reverse t.order)
    pos b c =
        let d : contains ns b ≡ true = sym (in_news b) ∙ c in
        ground (
          arith,
          index_of-reverse ns b e.once d,
          e.numbered b,
          d,
          length-reverse t.order,
          ap length e.grows,
          ap (λ z. index_of (reverse z) b) e.grows,
        )

create_run :
    (g : Graph) (entry : ℕ) (t : PostOrder)
    → entry_block g ≡ ok entry
    → post_order_visit g.succ_blocks (suc (length g.blocks)) entry start ≡ ok t
    → create_reverse_post_order g
      ≡ ok (record { visited = t.visited; order = reverse t.order; id = t.id })
unfolding create_reverse_post_order
create_run g entry t e f = rw (e, f) refl

-- Where the successors of the blocks of a function are blocks of it, and the entry is the first
-- block, create_reverse_post_order ends, and its list holds exactly the blocks that a path leads to
-- from the entry, each once, and from the highest number down to 0.
pub create_reverse_post_order-IsReversePostOrder :
    (g : Graph) (entry : ℕ) (rest : List ℕ)
    → g.blocks ≡ entry ∷ rest
    → IsClosed g
    → (s : PostOrder) × (create_reverse_post_order g ≡ ok s) × IsReversePostOrder g entry s
unfolding create_reverse_post_order entry_block start
create_reverse_post_order-IsReversePostOrder g entry rest e closed =
    let inside : contains g.blocks entry ≡ true =
      subst (λ z. contains z entry ≡ true) (sym e) (ground (arith, ==_refl entry)) in
    let q =
      all_Ends g.succ_blocks g.blocks closed (suc (length g.blocks)) entry start inside refl
        (omega (arith, count-length (λ b. not (start.visited b)) g.blocks)) in
    (
      record { visited = q.0.visited; order = reverse q.0.order; id = q.0.id },
      create_run g entry q.0 (rw (e, entry_block) refl) q.2,
      Explored-IsReversePostOrder g entry q.0 q.1 q.3,
    )
