-- ===== src/Codegen/Jumps.antt =====
-- Code that opens, ends and enters blocks.
pub mod Visits
pub mod Falls
pub mod Locals
pub mod Statements
use gvn.Prelude.{
  ℕ, suc, ◌≡◌, ◌⊎◌, inl, inr, refl, sym, subst, ◌∙◌, Bool, true, false, Option, none, some, List,
  [], ◌∷◌, ok, if◌then◌else◌,
}
use gvn.Prelude.Texts.{Text}
use gvn.Ir.Opcodes.{OpId, CmpOp}
use gvn.Ir.Module.{Module, Value, object, as_block}
use gvn.Codegen.Scope.{Scopes}
use gvn.Codegen.State.{Codegen, Build, ◌>>=◌, return, set_insert_point}
use gvn.Codegen.Create.{add_pred, add_next, insert_block_at}
use gvn.Codegen.Builder.{
  add_edges, target, create_br, create_cond_br, create_ret, create_void_ret, create_block,
}
use gvn.Codegen.Blocks.{status, ended}
use gvn.Codegen.Blocks.Laid.{Laid, Laid-swap, Laid-rotate}
use gvn.Codegen.Blocks.Created.{add_pred-Laid, add_next-Laid, insert_block_at-Laid}
use gvn.Codegen.Blocks.Linked.{Linked, insert_block_at-Linked}
use gvn.Codegen.Blocks.Edges.{IsBlock, as_block-IsBlock, br-Linked, cond_br-Linked}
use gvn.Codegen.Triple.{Triple, seq, weaken, strengthen, returns, reads, changes, chooses, requires}
use gvn.Codegen.Calm.{IsOpen, IsEnded, create-ends}

-- A statement leaves its last block either way.
abbrev pub IsLeft : Scopes → Bool → List ℕ → Codegen → Type 0
IsLeft sc e ps s = IsOpen sc e ps s ⊎ IsEnded sc e ps s

-- The target of a branch is a block.
target-IsBlock :
    {P : Codegen → Type 0} (q : ℕ) → Triple P (target q) λ _ s. IsBlock (s.ir_module.at q) × P s
unfolding target
target-IsBlock {P} q =
    seq (reads {Q = λ m s. (m ≡ s.ir_module) × P s} {f = λ s. s.ir_module} λ s p. (refl, p)) λ m.
      seq
        (requires {Q = λ b s. IsBlock (s.ir_module.at q) × P s} (as_block (m.at q))
          λ b e s p. (subst (λ k. IsBlock (k.at q)) p.0 (as_block-IsBlock (m.at q) b e), p.1))
        λ b. returns λ s h. h

module _ {sc : Scopes} {e : Bool} {ps : List ℕ} where
  pub create_ret-ends : (v : Value) → Triple (IsOpen sc e ps) (create_ret v) λ _. IsEnded sc e ps
  unfolding create_ret
  create_ret-ends v = create-ends OpId.ret refl _ _ _ _ sc e ps

  pub create_void_ret-ends : Triple (IsOpen sc e ps) create_void_ret λ _. IsEnded sc e ps
  unfolding create_void_ret
  create_void_ret-ends = create-ends OpId.ret refl _ _ _ _ sc e ps

  -- Edges leave the code as it is.
  add_edges-IsOpen :
      (f : Module → ℕ → Module) (Pre : Module → Type 0)
      → ((m : Module) (n b : ℕ) (qs : List ℕ) → Laid m n qs → Laid (f m b) n qs)
      → ((m : Module) (n b : ℕ) → Pre m → Linked m n → Linked (f m b) n)
      → Triple (λ s. Pre s.ir_module × IsOpen sc e ps s) (add_edges f) λ _. IsOpen sc e ps
  unfolding add_edges
  add_edges-IsOpen f Pre h k =
      changes (λ s o. (tt, record s { ir_module = f s.ir_module o.1.bb })) (λ s o. rw o.1.here refl)
        λ s (p, o). record {
          bb = o.bb;
          here = o.here;
          laid = h s.ir_module s.next o.bb _ o.laid;
          linked = k s.ir_module s.next o.bb p o.linked;
          scoped = o.scoped;
          pre = o.pre;
        }

  pub create_br-ends : (q : ℕ) → Triple (IsOpen sc e ps) (create_br q) λ _. IsEnded sc e ps
  unfolding create_br
  create_br-ends q = seq (target-IsBlock q) λ _.
      seq
        (add_edges-IsOpen (λ m bb. add_next (add_pred m bb q) bb q) (λ m. IsBlock (m.at q))
          (λ m n b qs l. add_next-Laid _ n b q qs (add_pred-Laid m n b q qs l))
          (λ m n b p l. br-Linked m n b q p l))
        λ _. create-ends OpId.br refl _ _ _ _ sc e ps

  pub create_cond_br-ends :
      (c : Value) (t f : ℕ) → Triple (IsOpen sc e ps) (create_cond_br c t f) λ _. IsEnded sc e ps
  unfolding create_cond_br
  create_cond_br-ends c t f = seq (target-IsBlock t) λ _. seq (target-IsBlock f) λ _.
      seq
        (strengthen (λ s p. ((p.1.0, p.0), p.1.1))
          (add_edges-IsOpen
            (λ m bb. add_next (add_next (add_pred (add_pred m bb t) bb f) bb f) bb t)
            (λ m. IsBlock (m.at t) × IsBlock (m.at f))
            (λ m n b qs l.
              add_next-Laid _ n b t qs
                (add_next-Laid _ n b f qs (add_pred-Laid _ n b f qs (add_pred-Laid m n b t qs l))))
            (λ m n b p l. cond_br-Linked m n b t f p.0 p.1 l)))
        λ _. create-ends OpId.br refl _ _ _ _ sc e ps

  -- A new block waits.
  pub create_block-IsOpen :
      (name : Text) → Triple (IsOpen sc e ps) (create_block name) λ n. IsOpen sc e (n ∷ ps)
  unfolding create_block
  create_block-IsOpen name =
      seq (seq (reads {Q = λ o s. IsOpen sc e ps s} λ s h. h) λ o. requires o λ f q s h. h) λ f.
        changes
          (λ s o. (
            s.next,
            record s { ir_module = insert_block_at s.ir_module s.next name f; next = suc s.next },
          ))
          (λ s o. refl)
          λ s o. record {
            bb = o.bb;
            here = o.here;
            laid = Laid-swap (insert_block_at-Laid s.ir_module s.next name f _ o.laid);
            linked = insert_block_at-Linked s.ir_module s.next name f o.linked;
            scoped = o.scoped;
            pre = o.pre;
          }

  pub set_insert_point-IsOpen :
      (p : ℕ) → Triple (IsEnded sc e (p ∷ ps)) (set_insert_point p) λ _. IsOpen sc e ps
  unfolding set_insert_point
  set_insert_point-IsOpen p =
      changes (λ s h. (tt, record s { insert_block = some p })) (λ s h. refl)
        λ s h. record {
          bb = p;
          here = refl;
          laid = h.laid;
          linked = h.linked;
          scoped = h.scoped;
          pre = h.pre;
        }

  pub IsEnded-swap :
      {p q : ℕ} (s : Codegen) → IsEnded sc e (p ∷ q ∷ ps) s → IsEnded sc e (q ∷ p ∷ ps) s
  IsEnded-swap s h = record {
    bb = h.bb;
    here = h.here;
    stopped = h.stopped;
    laid = Laid-swap h.laid;
    linked = h.linked;
    scoped = h.scoped;
    pre = h.pre;
  }

  IsEnded-rotate :
      {p q r : ℕ} (s : Codegen) → IsEnded sc e (p ∷ q ∷ r ∷ ps) s → IsEnded sc e (r ∷ p ∷ q ∷ ps) s
  IsEnded-rotate s h = record {
    bb = h.bb;
    here = h.here;
    stopped = h.stopped;
    laid = Laid-rotate h.laid;
    linked = h.linked;
    scoped = h.scoped;
    pre = h.pre;
  }

-- The block that was created last but one is entered first.
pub set_insert_point-second :
    {sc : Scopes} {e : Bool} {ps : List ℕ} (p q : ℕ)
    → Triple (IsEnded sc e (q ∷ p ∷ ps)) (set_insert_point p) λ _. IsOpen sc e (q ∷ ps)
set_insert_point-second p q = strengthen IsEnded-swap (set_insert_point-IsOpen p)

-- The block that was created last but two is entered first.
pub set_insert_point-third :
    {sc : Scopes} {e : Bool} {ps : List ℕ} (p q r : ℕ)
    → Triple (IsEnded sc e (r ∷ q ∷ p ∷ ps)) (set_insert_point p) λ _. IsOpen sc e (r ∷ q ∷ ps)
set_insert_point-third p q r = strengthen IsEnded-rotate (set_insert_point-IsOpen p)
