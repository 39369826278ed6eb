-- ===== src/Codegen/Ended/Bodies.antt =====
-- The head of a function: its entry block, its scope and its stored arguments.
use gvn.Prelude.{ℕ, refl, ap, true, false, List, [], ◌∷◌, some}
use gvn.Ast.Types.{Param}
use gvn.Ir.Module.{object}
use gvn.Codegen.Scope.{Scopes, Bindings}
use gvn.Codegen.State.{Codegen, Build, put_pre_enter, set_insert_point, enter_scope}
use gvn.Codegen.Program.{store_args, param_type}
use gvn.Codegen.Triple.{Triple, seq, returns, changes, fails}
use gvn.Codegen.Calm.{IsOpen}
use gvn.Codegen.Calm.Creates.{create_alloca-Calm, create_store-Calm}
use gvn.Codegen.Jumps.Locals.{Within, Calm-Within, push_scope-Within}
use gvn.Codegen.Ended.Globals.{IsGlobal}

-- The first block of a function.
abbrev pub InBody : (Scopes → Codegen → Type 0) → Codegen → Type 0
InBody P s = (g : Bindings) × Within P (g ∷ []) s

pub set_insert_point-first :
    (b : ℕ)
    → Triple
        (IsGlobal (b ∷ []))
        (set_insert_point b)
        λ _ s. (g : Bindings) × IsOpen (g ∷ []) false [] s
unfolding set_insert_point
set_insert_point-first b =
    changes (λ s g. (tt, record s { insert_block = some b })) (λ s g. refl)
      λ s g. (
        g.names,
        record {
          bb = b;
          here = refl;
          laid = g.laid;
          linked = g.linked;
          scoped = g.scoped;
          pre = g.pre;
        },
      )

pub enter_scope-InBody :
    Triple
      (λ s. (g : Bindings) × IsOpen (g ∷ []) false [] s)
      enter_scope
      λ _. InBody λ t. IsOpen t false []
unfolding enter_scope
enter_scope-InBody =
    changes (λ s o. (tt, record s { scope = [] ∷ s.scope })) (λ s o. refl)
      λ s (g, o). (
        g,
        (
          [],
          record {
            bb = o.bb;
            here = o.here;
            laid = o.laid;
            linked = o.linked;
            scoped = ap (λ t. [] ∷ t) o.scoped;
            pre = o.pre;
          },
        ),
      )

pub put_pre_enter-InBody :
    Triple (InBody λ t. IsOpen t false []) (put_pre_enter true) λ _. InBody λ t. IsOpen t true []
put_pre_enter-InBody =
    changes (λ s o. (tt, record s { pre_enter_scope = true })) (λ s o. refl)
      λ s (g, w). (
        g,
        (
          w.0,
          let o = w.1 in
              record {
                bb = o.bb;
                here = o.here;
                laid = o.laid;
                linked = o.linked;
                scoped = o.scoped;
                pre = refl;
              },
        ),
      )

pub in_body :
    {A : Type 0} {c : Build A} (P Q : Scopes → Codegen → Type 0)
    → ((g : Bindings) → Triple (Within P (g ∷ [])) c λ _. Within Q (g ∷ []))
    → Triple (InBody P) c λ _. InBody Q
in_body P Q h = record { runs = λ s w x s' e. (w.0, (h w.0).runs s w.1 x s' e) }

pub store_args-Within :
    (ps : List Param) (args : List ℕ) (sc : Scopes)
    → Triple
        (Within (λ t. IsOpen t true []) sc)
        (store_args ps args)
        λ _. Within (λ t. IsOpen t true []) sc
unfolding store_args
store_args-Within [] args sc = returns λ s w. w
store_args-Within (p ∷ ps) [] sc = fails
store_args-Within (p ∷ ps) (a ∷ args) sc =
    seq (Calm-Within (create_alloca-Calm (param_type p))) λ alloc.
      seq (Calm-Within (create_store-Calm (object a) alloc))
        λ _. seq (push_scope-Within p.id alloc) λ _. store_args-Within ps args sc
