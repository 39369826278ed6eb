-- ===== src/Codegen/Calm.antt =====
-- Code that goes on in a block without a terminator.
pub mod Creates
use gvn.Prelude.{
  ℕ, suc, ◌≡◌, refl, sym, subst, ◌∙◌, Bool, true, false, Option, none, some, List, [], ◌∷◌, Result,
  ok, if◌then◌else◌, Fault, ◌||◌,
}
use gvn.Ir.Types.{Ty}
use gvn.Ir.Opcodes.{OpId, CmpOp}
use gvn.Ir.Constants.{null_const}
use gvn.Ir.Module.{Module, Value, object, constant, Instr, instr}
use gvn.Codegen.Scope.{Scopes}
use gvn.Codegen.State.{
  Codegen, Build, ◌>>=◌, return, fail, require, check, gets, put_val, put_lvalue,
}
use gvn.Codegen.Create.{insert_instr}
use gvn.Codegen.Builder.{create, create_in, ends}
use gvn.Codegen.Blocks.{status, ended}
use gvn.Codegen.Blocks.Laid.{Laid}
use gvn.Codegen.Blocks.Linked.{Linked, insert_instr-Linked}
use gvn.Codegen.Blocks.Inserted.{insert_instr-Laid, insert_instr-ends, insert_instr-ended}
use gvn.Codegen.Triple.{Triple, seq, returns, reads, changes, fails, chooses, requires, checks}

-- The insertion point's block has no terminator; the blocks `ps` wait for their code; all others
-- have ended. `sc` are the scopes, and `e` tells whether a scope was entered ahead.
pub record IsOpen (sc : Scopes) (e : Bool) (ps : List ℕ) (s : Codegen) : Type 0 where
  pub bb : ℕ
  pub here : s.insert_block ≡ some bb
  pub laid : Laid s.ir_module s.next (bb ∷ ps)
  pub linked : Linked s.ir_module s.next
  pub scoped : s.scope ≡ sc
  pub pre : s.pre_enter_scope ≡ e

-- The same with a block that has got its terminator.
pub record IsEnded (sc : Scopes) (e : Bool) (ps : List ℕ) (s : Codegen) : Type 0 where
  pub bb : ℕ
  pub here : s.insert_block ≡ some bb
  pub stopped : status s.ir_module bb ≡ ended
  pub laid : Laid s.ir_module s.next ps
  pub linked : Linked s.ir_module s.next
  pub scoped : s.scope ≡ sc
  pub pre : s.pre_enter_scope ≡ e

abbrev pub new_instr : OpId → Ty → List Value → CmpOp → Ty → ℕ → Instr
new_instr op ty vs cmp own bb = record {
  op_id = op;
  ty = ty;
  operands = vs;
  parent = bb;
  cmp_op = cmp;
  own_ty = own;
  l_val = constant null_const;
}

abbrev pub with_instr : Instr → Codegen → Codegen
with_instr i s = record s { ir_module = insert_instr s.ir_module s.next i; next = suc s.next }

pub create-runs :
    (op : OpId) (ty : Ty) (vs : List Value) (cmp : CmpOp) (own : Ty) (s : Codegen) (bb : ℕ)
    → s.insert_block ≡ some bb
    → create op ty vs cmp own s ≡ ok (object s.next, with_instr (new_instr op ty vs cmp own bb) s)
unfolding create create_in
create-runs op ty vs cmp own s bb e = rw e refl

-- Whatever blocks wait, the code goes on and they wait on.
pub record Calm {A : Type 0} (c : Build A) : Type 0 where
  pub calm : (sc : Scopes) (e : Bool) (ps : List ℕ) → Triple (IsOpen sc e ps) c λ _. IsOpen sc e ps

pub create-Calm :
    (op : OpId)
    → ends op ≡ false
    → (ty : Ty) (vs : List Value) (cmp : CmpOp) (own : Ty) → Calm (create op ty vs cmp own)
create-Calm op f ty vs cmp own = record {
  calm = λ sc e ps.
      changes (λ s h. (object s.next, with_instr (new_instr op ty vs cmp own h.bb) s))
        (λ s h. create-runs op ty vs cmp own s h.bb h.here)
        (λ s h. record {
          bb = h.bb;
          here = h.here;
          laid = insert_instr-Laid s.ir_module s.next (new_instr op ty vs cmp own h.bb) ps h.laid f;
          linked =
              insert_instr-Linked s.ir_module s.next (new_instr op ty vs cmp own h.bb) h.linked;
          scoped = h.scoped;
          pre = h.pre;
        });
}

-- A terminator ends the block.
pub create-ends :
    (op : OpId)
    → ends op ≡ true
    → (ty : Ty) (vs : List Value) (cmp : CmpOp) (own : Ty) (sc : Scopes) (e : Bool) (ps : List ℕ)
    → Triple (IsOpen sc e ps) (create op ty vs cmp own) λ _. IsEnded sc e ps
create-ends op f ty vs cmp own sc e ps =
    changes (λ s h. (object s.next, with_instr (new_instr op ty vs cmp own h.bb) s))
      (λ s h. create-runs op ty vs cmp own s h.bb h.here)
      (λ s h.
        let i : Instr = new_instr op ty vs cmp own h.bb in
        record {
          bb = h.bb;
          here = h.here;
          stopped = insert_instr-ended s.ir_module s.next i ps h.laid f;
          laid = insert_instr-ends s.ir_module s.next i ps h.laid f;
          linked = insert_instr-Linked s.ir_module s.next i h.linked;
          scoped = h.scoped;
          pre = h.pre;
        })

module _ {A : Type 0} where
  pub then-Calm :
      {B : Type 0} {c : Build A} {f : A → Build B}
      → Calm c
      → ((x : A) → Calm (f x))
      → Calm (c >>= f)
  then-Calm hc hf = record { calm = λ sc e ps. seq (hc.calm sc e ps) λ x. (hf x).calm sc e ps }

  pub return-Calm : (x : A) → Calm (return x)
  return-Calm x = record { calm = λ sc e ps. returns λ s h. h }

  pub gets-Calm : (f : Codegen → A) → Calm (gets f)
  gets-Calm f = record { calm = λ sc e ps. reads λ s h. h }

  pub fail-Calm : (why : Fault) → Calm {A = A} (fail why)
  fail-Calm why = record { calm = λ sc e ps. fails }

  pub require-Calm : (o : Option A) → Calm (require o)
  require-Calm o = record { calm = λ sc e ps. requires o λ x q s h. h }

  pub if-Calm : {c d : Build A} (b : Bool) → Calm c → Calm d → Calm (if b then c else d)
  if-Calm b hc hd = record {
    calm = λ sc e ps. chooses b (λ _. hc.calm sc e ps) λ _. hd.calm sc e ps;
  }

pub check-Calm : (b : Bool) → Calm (check b)
check-Calm b = record { calm = λ sc e ps. checks b }

-- The variables that the invariant does not speak of.
module _ {sc : Scopes} {e : Bool} {ps : List ℕ} {s : Codegen} (h : IsOpen sc e ps s) where
  IsOpen-put_val : (v : Value) → IsOpen sc e ps (record s { tmp_val = v })
  IsOpen-put_val v = record {
    bb = h.bb;
    here = h.here;
    laid = h.laid;
    linked = h.linked;
    scoped = h.scoped;
    pre = h.pre;
  }

  IsOpen-put_lvalue : (b : Bool) → IsOpen sc e ps (record s { require_lvalue = b })
  IsOpen-put_lvalue b = record {
    bb = h.bb;
    here = h.here;
    laid = h.laid;
    linked = h.linked;
    scoped = h.scoped;
    pre = h.pre;
  }

pub put_val-Calm : (v : Value) → Calm (put_val v)
put_val-Calm v = record {
  calm = λ sc e ps.
      changes (λ s h. (tt, record s { tmp_val = v })) (λ s h. refl) λ s h. IsOpen-put_val h v;
}

pub put_lvalue-Calm : (b : Bool) → Calm (put_lvalue b)
put_lvalue-Calm b = record {
  calm = λ sc e ps.
      changes (λ s h. (tt, record s { require_lvalue = b })) (λ s h. refl)
        λ s h. IsOpen-put_lvalue h b;
}

pub ruleset calm_rules = (
  then-Calm, return-Calm, gets-Calm, fail-Calm, require-Calm, if-Calm, check-Calm, put_val-Calm,
  put_lvalue-Calm,
)
