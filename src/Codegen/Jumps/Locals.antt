-- ===== src/Codegen/Jumps/Locals.antt =====
-- Declarations and the scopes of a statement.
use gvn.Prelude.{
  ℕ, suc, ◌≡◌, inl, inr, refl, ap, Bool, true, false, Option, none, some, List, [], ◌∷◌, ok,
  Option-cases,
}
use gvn.Prelude.Texts.{Text}
use gvn.Ast.Types.{CminusType, Num, int_num, float_num, VarDeclaration}
use gvn.Ir.Module.{Value, object}
use gvn.Ir.Types.{Ty}
use gvn.Codegen.Scope.{Scopes, Bindings, push, find_binding, in_global}
use gvn.Codegen.State.{Codegen, Build, enter_scope, exit_scope, push_scope}
use gvn.Codegen.Create.{insert_global}
use gvn.Codegen.Builder.{create_global}
use gvn.Codegen.Statement.{
  declared_ty, declare_var, visit_var_declaration, visit_var_declarations, enter_compound,
}
use gvn.Codegen.Blocks.Created.{insert_global-Laid}
use gvn.Codegen.Blocks.Linked.{insert_global-Linked}
use gvn.Codegen.Triple.{Triple, seq, returns, changes}
use gvn.Codegen.Calm.{IsOpen, Calm, return-Calm, fail-Calm, if-Calm, gets-Calm}
use gvn.Codegen.Calm.Creates.{create_alloca-Calm}
use gvn.Codegen.Jumps.{IsLeft}

-- The names of the innermost scope may have grown.
abbrev pub Within : (Scopes → Codegen → Type 0) → Scopes → Codegen → Type 0
Within P sc s = (h : Bindings) × P (h ∷ sc) s

declared_ty-Calm : (t : CminusType) (n : Option Num) → Calm (declared_ty t n)
declared_ty-Calm t none = return-Calm _
declared_ty-Calm t (some (int_num n)) = return-Calm _
declared_ty-Calm t (some (float_num b)) = fail-Calm _

create_global-Calm : (t : Ty) (id : Text) → Calm (create_global t id)
unfolding create_global
create_global-Calm t id = record {
  calm = λ sc e ps.
      changes
        (λ s o. (
          object s.next,
          record s { ir_module = insert_global s.ir_module s.next t id; next = suc s.next },
        ))
        (λ s o. refl)
        λ s o. record {
          bb = o.bb;
          here = o.here;
          laid = insert_global-Laid s.ir_module s.next t id _ o.laid;
          linked = insert_global-Linked s.ir_module s.next t id o.linked;
          scoped = o.scoped;
          pre = o.pre;
        };
}

declare_var-Calm : (b : Bool) (t : Ty) (id : Text) → Calm (declare_var b t id)
unfolding declare_var
declare_var-Calm b t id = if-Calm b (create_global-Calm t id) (create_alloca-Calm t)

-- A name joins the innermost scope, or stands there.
pub push-grows :
    (h : Bindings) (sc : Scopes) (id : Text) (v : Value)
    → (b : Bool) × (h' : Bindings) × (push (h ∷ sc) id v ≡ some (b, h' ∷ sc))
unfolding push
push-grows h sc id v = elim (Option-cases (find_binding h id)) [
  | inl e ↦ (true, (id, v) ∷ h, rw (e, push) refl)
  | inr f ↦ (false, h, rw (f.1, push) refl)
]

push_scope-runs :
    (id : Text) (v : Value) (h : Bindings) (sc : Scopes) (s : Codegen)
    → s.scope ≡ h ∷ sc
    → push_scope id v s ≡ ok (tt, record s { scope = (push-grows h sc id v).1 ∷ sc })
unfolding push_scope
push_scope-runs id v h sc s e = rw (e, (push-grows h sc id v).2, push_scope) refl

pub push_scope-Within :
    {e : Bool} {ps : List ℕ} {sc : Scopes} (id : Text) (v : Value)
    → Triple (Within (λ t. IsOpen t e ps) sc) (push_scope id v) λ _. Within (λ t. IsOpen t e ps) sc
push_scope-Within {sc = sc} id v =
    changes (λ s w. (tt, record s { scope = (push-grows w.0 sc id v).1 ∷ sc }))
      (λ s w. push_scope-runs id v w.0 sc s w.1.scoped)
      λ s w. (
        (push-grows w.0 sc id v).1,
        record {
          bb = w.1.bb;
          here = w.1.here;
          laid = w.1.laid;
          linked = w.1.linked;
          scoped = refl;
          pre = w.1.pre;
        },
      )

-- Calm code keeps the scopes.
pub Calm-Within :
    {A : Type 0} {c : Build A} {e : Bool} {ps : List ℕ} {sc : Scopes}
    → Calm c
    → Triple (Within (λ t. IsOpen t e ps) sc) c λ _. Within (λ t. IsOpen t e ps) sc
Calm-Within {e = e} {ps = ps} {sc = sc} hc = record {
  runs = λ s w x s' k. (w.0, (hc.calm (w.0 ∷ sc) e ps).runs s w.1 x s' k);
}

pub visit_var_declaration-Within :
    {e : Bool} {ps : List ℕ} {sc : Scopes} (d : VarDeclaration)
    → Triple
        (Within (λ t. IsOpen t e ps) sc)
        (visit_var_declaration d)
        λ _. Within (λ t. IsOpen t e ps) sc
unfolding visit_var_declaration
visit_var_declaration-Within {e = e} {ps = ps} {sc = sc} d =
    seq (Calm-Within (declared_ty-Calm d.ty d.num)) λ t.
      seq (Calm-Within (gets-Calm λ s. s.scope)) λ inner.
        seq (Calm-Within (declare_var-Calm (in_global inner) t d.id)) λ v. push_scope-Within d.id v

pub visit_var_declarations-Within :
    {e : Bool} {ps : List ℕ} {sc : Scopes} (ds : List VarDeclaration)
    → Triple
        (Within (λ t. IsOpen t e ps) sc)
        (visit_var_declarations ds)
        λ _. Within (λ t. IsOpen t e ps) sc
unfolding visit_var_declarations
visit_var_declarations-Within [] = returns λ s w. w
visit_var_declarations-Within (d ∷ ds) =
    seq (visit_var_declaration-Within d) λ _. visit_var_declarations-Within ds

-- A compound statement in a body enters a scope.
pub enter_compound-Within :
    {ps : List ℕ} {sc : Scopes}
    → Triple
        (IsOpen sc false ps)
        enter_compound
        λ b s. (b ≡ true) × Within (λ t. IsOpen t false ps) sc s
unfolding enter_compound enter_scope
enter_compound-Within =
    changes (λ s o. (true, record s { scope = [] ∷ s.scope })) (λ s o. rw o.pre refl)
      λ s o. (
        refl,
        (
          [],
          record {
            bb = o.bb;
            here = o.here;
            laid = o.laid;
            linked = o.linked;
            scoped = ap (λ t. [] ∷ t) o.scoped;
            pre = o.pre;
          },
        ),
      )

-- The body of a function has its scope already.
pub enter_compound-ahead :
    {ps : List ℕ} {sc : Scopes}
    → Triple
        (Within (λ t. IsOpen t true ps) sc)
        enter_compound
        λ b s. (b ≡ false) × Within (λ t. IsOpen t false ps) sc s
unfolding enter_compound
enter_compound-ahead =
    changes (λ s w. (false, record s { pre_enter_scope = false })) (λ s w. rw w.1.pre refl)
      λ s w. (
        refl,
        (
          w.0,
          record {
            bb = w.1.bb;
            here = w.1.here;
            laid = w.1.laid;
            linked = w.1.linked;
            scoped = w.1.scoped;
            pre = refl;
          },
        ),
      )

module _ {e : Bool} {ps : List ℕ} {sc : Scopes} where
  out_of :
      (s : Codegen) → Within (λ t. IsLeft t e ps) sc s → IsLeft sc e ps (record s { scope = sc })
  out_of s (h, inl o) = inl record {
    bb = o.bb;
    here = o.here;
    laid = o.laid;
    linked = o.linked;
    scoped = refl;
    pre = o.pre;
  }
  out_of s (h, inr o) = inr record {
    bb = o.bb;
    here = o.here;
    stopped = o.stopped;
    laid = o.laid;
    linked = o.linked;
    scoped = refl;
    pre = o.pre;
  }

  scopes_of : (s : Codegen) (w : Within (λ t. IsLeft t e ps) sc s) → s.scope ≡ w.0 ∷ sc
  scopes_of s (h, inl o) = o.scoped
  scopes_of s (h, inr o) = o.scoped

  pub exit_scope-IsLeft : Triple (Within (λ t. IsLeft t e ps) sc) exit_scope λ _. IsLeft sc e ps
  unfolding exit_scope
  exit_scope-IsLeft =
      changes (λ s w. (tt, record s { scope = sc })) (λ s w. rw (scopes_of s w) refl) out_of
