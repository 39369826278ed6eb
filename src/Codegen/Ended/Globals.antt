-- ===== src/Codegen/Ended/Globals.antt =====
-- Declarations at the level of the program.
use gvn.Prelude.{ℕ, suc, ◌+◌, ◌≡◌, refl, Bool, true, false, List, [], ◌∷◌, Option, some, none}
use gvn.Prelude.Texts.{Text}
use gvn.Ast.Types.{VarDeclaration, CminusType, Num, int_num, float_num}
use gvn.Ir.Types.{Ty, Tys}
use gvn.Ir.Module.{Value, object}
use gvn.Codegen.Scope.{Bindings, in_global}
use gvn.Codegen.State.{Codegen, put_fun, push_scope}
use gvn.Codegen.Create.{insert_func, insert_global, insert_block_at, count_args}
use gvn.Codegen.Builder.{create_function, create_block, create_global}
use gvn.Codegen.Statement.{declared_ty, declare_var, visit_var_declaration}
use gvn.Codegen.Blocks.Laid.{Laid}
use gvn.Codegen.Blocks.Created.{insert_func-Laid, insert_global-Laid, insert_block_at-Laid}
use gvn.Codegen.Blocks.Linked.{
  Linked, insert_func-Linked, insert_global-Linked, insert_block_at-Linked,
}
use gvn.Codegen.Triple.{Triple, seq, strengthen, returns, reads, changes, requires, fails}
use gvn.Codegen.Jumps.Locals.{push-grows}

-- Between the declarations of a program: one scope, and no block that waits but `ps`.
pub record IsGlobal (ps : List ℕ) (s : Codegen) : Type 0 where
  pub names : Bindings
  pub scoped : s.scope ≡ names ∷ []
  pub pre : s.pre_enter_scope ≡ false
  pub laid : Laid s.ir_module s.next ps
  pub linked : Linked s.ir_module s.next

pub create_function-IsGlobal :
    (ret : Ty) (ts : Tys) (name : Text)
    → Triple (IsGlobal []) (create_function ret ts name) λ _. IsGlobal []
unfolding create_function
create_function-IsGlobal ret ts name =
    changes
      (λ s g. (
        s.next,
        record s {
          ir_module = insert_func s.ir_module s.next ret ts name;
          next = suc s.next + count_args ts;
        },
      ))
      (λ s g. refl)
      λ s g. record {
        names = g.names;
        scoped = g.scoped;
        pre = g.pre;
        laid = insert_func-Laid s.ir_module s.next ret ts name [] g.laid;
        linked = insert_func-Linked s.ir_module s.next ret ts name g.linked;
      }

create_global-IsGlobal :
    (t : Ty) (id : Text) → Triple (IsGlobal []) (create_global t id) λ _. IsGlobal []
unfolding create_global
create_global-IsGlobal t id =
    changes
      (λ s g. (
        object s.next,
        record s { ir_module = insert_global s.ir_module s.next t id; next = suc s.next },
      ))
      (λ s g. refl)
      λ s g. record {
        names = g.names;
        scoped = g.scoped;
        pre = g.pre;
        laid = insert_global-Laid s.ir_module s.next t id [] g.laid;
        linked = insert_global-Linked s.ir_module s.next t id g.linked;
      }

pub push_scope-IsGlobal :
    (id : Text) (v : Value) → Triple (IsGlobal []) (push_scope id v) λ _. IsGlobal []
unfolding push_scope
push_scope-IsGlobal id v =
    changes (λ s g. (tt, record s { scope = (push-grows g.names [] id v).1 ∷ [] }))
      (λ s g. rw (g.scoped, (push-grows g.names [] id v).2, push_scope) refl)
      λ s g. record {
        names = (push-grows g.names [] id v).1;
        scoped = refl;
        pre = g.pre;
        laid = g.laid;
        linked = g.linked;
      }

pub put_fun-IsGlobal : (f : ℕ) → Triple (IsGlobal []) (put_fun f) λ _. IsGlobal []
put_fun-IsGlobal f =
    changes (λ s g. (tt, record s { cur_fun = some f })) (λ s g. refl)
      λ s g. record {
        names = g.names;
        scoped = g.scoped;
        pre = g.pre;
        laid = g.laid;
        linked = g.linked;
      }

pub create_block-IsGlobal :
    (name : Text) → Triple (IsGlobal []) (create_block name) λ n. IsGlobal (n ∷ [])
unfolding create_block
create_block-IsGlobal name =
    seq (seq (reads {Q = λ o s. IsGlobal [] s} λ s h. h) λ o. requires o λ f q s h. h) λ f.
      changes
        (λ s g. (
          s.next,
          record s { ir_module = insert_block_at s.ir_module s.next name f; next = suc s.next },
        ))
        (λ s g. refl)
        λ s g. record {
          names = g.names;
          scoped = g.scoped;
          pre = g.pre;
          laid = insert_block_at-Laid s.ir_module s.next name f [] g.laid;
          linked = insert_block_at-Linked s.ir_module s.next name f g.linked;
        }

declared_ty-IsGlobal :
    (t : CminusType) (n : Option Num) → Triple (IsGlobal []) (declared_ty t n) λ _. IsGlobal []
declared_ty-IsGlobal t none = returns λ s g. g
declared_ty-IsGlobal t (some (int_num n)) = returns λ s g. g
declared_ty-IsGlobal t (some (float_num b)) = fails

declare_var-IsGlobal :
    (b : Bool) (t : Ty) (id : Text)
    → Triple (λ s. (b ≡ true) × IsGlobal [] s) (declare_var b t id) λ _. IsGlobal []
unfolding declare_var
declare_var-IsGlobal true t id = strengthen (λ s g. g.1) (create_global-IsGlobal t id)
declare_var-IsGlobal false t id = record { runs = λ s g x s' e. absurd (cc) }

read_global : (s : Codegen) → IsGlobal [] s → in_global s.scope ≡ true
unfolding in_global
read_global s g = rw g.scoped refl

pub visit_var_declaration-IsGlobal :
    (d : VarDeclaration) → Triple (IsGlobal []) (visit_var_declaration d) λ _. IsGlobal []
unfolding visit_var_declaration
visit_var_declaration-IsGlobal d = seq (declared_ty-IsGlobal d.ty d.num) λ t.
    seq
      (reads {Q = λ inner s. (in_global inner ≡ true) × IsGlobal [] s} {f = λ s. s.scope}
        λ s g. (read_global s g, g))
      λ inner. seq (declare_var-IsGlobal (in_global inner) t d.id) λ v. push_scope-IsGlobal d.id v
