-- ===== src/Codegen/State.antt =====
-- What the visits of the code generator read and write: the module, the insertion point of the
-- IRBuilder, the scopes and the file's variables; and the monad that passes it on.
use gvn.Prelude.{
  ℕ, Bool, true, false, Option, none, some, [], ◌∷◌, Result, ok, fault, null_access, no_element,
  Fault,
}
use gvn.Prelude.Texts.{Text}
use gvn.Ir.Module.{Module, Value, as_func, Func}
use gvn.Codegen.Scope.{Scopes, push}

-- `next` is an address that no object has yet. `insert_block` is `BB_` of the IRBuilder, and the
-- fields from `tmp_val` on are the variables at the head of the file.
pub record Codegen : Type 0 where
  pub ir_module : Module
  pub next : ℕ
  pub insert_block : Option ℕ
  pub scope : Scopes
  pub tmp_val : Value
  pub require_lvalue : Bool
  pub cur_fun : Option ℕ
  pub pre_enter_scope : Bool

abbrev pub Build : Type 0 → Type 0
Build A = Codegen → Result (A × Codegen)

infixl 5 ◌>>=◌ ◌>>◌
abbrev pub ◌>>=◌ : {A B : Type 0} → Build A → (A → Build B) → Build B
◌>>=◌ c f s = elim (c s) [ fault why ↦ fault why | ok r ↦ f r.0 r.1 ]

abbrev pub ◌>>◌ : {A B : Type 0} → Build A → Build B → Build B
c >> d = c >>= λ _. d

abbrev pub return : {A : Type 0} → A → Build A
return x s = ok (x, s)

-- Undefined behaviour and failed assertions.
abbrev pub fail : {A : Type 0} → Fault → Build A
fail why s = fault why

-- What the code dereferences.
abbrev pub require : {A : Type 0} → Option A → Build A
require none = fail null_access
require (some x) = return x

abbrev pub check : Bool → Build Unit
check true = return tt
check false = fail no_element

-- Reading and writing the state.
abbrev pub gets : {A : Type 0} → (Codegen → A) → Build A
gets f s = ok (f s, s)

abbrev pub put_val : Value → Build Unit
put_val v s = ok (tt, record s { tmp_val = v })

abbrev pub put_lvalue : Bool → Build Unit
put_lvalue b s = ok (tt, record s { require_lvalue = b })

abbrev pub put_fun : ℕ → Build Unit
put_fun f s = ok (tt, record s { cur_fun = some f })

abbrev pub put_pre_enter : Bool → Build Unit
put_pre_enter b s = ok (tt, record s { pre_enter_scope = b })

-- IRBuilder::set_insert_point.
unfoldable pub set_insert_point : ℕ → Build Unit
set_insert_point b s = ok (tt, record s { insert_block = some b })

-- Scope::enter and Scope::exit; `pop_back` of no map is undefined.
unfoldable pub enter_scope : Build Unit
enter_scope s = ok (tt, record s { scope = [] ∷ s.scope })

abbrev pub pop_scope : Scopes → Codegen → Result (Unit {0} × Codegen)
pop_scope [] s = fault no_element
pop_scope (bs ∷ inner) s = ok (tt, record s { scope = inner })

unfoldable pub exit_scope : Build Unit
exit_scope s = pop_scope s.scope s

-- Scope::push; the code does not read what it returns.
unfoldable pub push_scope : Text → Value → Build Unit
push_scope name val s = elim (push s.scope name val) [
  | none ↦ fault no_element
  | some r ↦ ok (tt, record s { scope = r.1 })
]

-- `cur_fun` as a function.
abbrev pub current_fun : Build Func
current_fun = do
  f ← gets (λ s. s.cur_fun)
  a ← require f
  m ← gets (λ s. s.ir_module)
  require (as_func (m.at a))
