-- ===== src/Codegen/Create.antt =====
-- New objects in a module: what the constructors of Instruction, BasicBlock, Function, Argument and
-- GlobalVariable do to it (src/lightir).
use gvn.Prelude.{ℕ, suc, List, [], ◌∷◌, ◌++◌, update}
use gvn.Prelude.Texts.{Text, text}
use gvn.Ir.Types.{Ty, Tys, none_left, param}
use gvn.Ir.Module.{Module, Value, Object, instr, block, func, argument, global, Instr, Func}
use gvn.Ir.Uses.{add_use}

-- `new` of an object at a free address, with the name that its Value has.
unfoldable pub add_object : Module → ℕ → Object → Text → Module
add_object m a o name = record m {
  at = update m.at a o;
  name = update m.name a name;
  use_list = update m.use_list a [];
}

-- The `set_operand` calls of a constructor, from operand `n` on: the uses of the values.
unfoldable pub add_uses : Module → List Value → ℕ → ℕ → Module
add_uses m [] a n = m
add_uses m (v ∷ vs) a n = add_uses (add_use m v a n) vs a (suc n)

-- BasicBlock::add_instruction, BasicBlock::add_pre_basic_block, BasicBlock::add_succ_basic_block
-- and Function::add_basic_block of the object, which has that class.
unfoldable pub add_instruction : Object → ℕ → Object
add_instruction (block b) i = block (record b { instr_list = b.instr_list ++ i ∷ [] })
add_instruction o i = o

unfoldable pub add_pre : Object → ℕ → Object
add_pre (block b) p = block (record b { pre_bbs = b.pre_bbs ++ p ∷ [] })
add_pre o p = o

unfoldable pub add_succ : Object → ℕ → Object
add_succ (block b) q = block (record b { succ_bbs = b.succ_bbs ++ q ∷ [] })
add_succ o q = o

unfoldable pub add_block : Object → ℕ → Object
add_block (func f) b = func (record f { basic_blocks = f.basic_blocks ++ b ∷ [] })
add_block o b = o

abbrev pub modify : Module → ℕ → (Object → Object) → Module
modify m a f = record m { at = update m.at a (f (m.at a)) }

-- The constructor of Instruction, which appends to the block, and of its subclass, which sets the
-- operands.
unfoldable pub insert_instr : Module → ℕ → Instr → Module
insert_instr m a i =
    add_uses (modify (add_object m a (instr i) []) i.parent λ o. add_instruction o a) i.operands a 0

-- `if_true->add_pre_basic_block(bb)`, `bb->add_succ_basic_block(if_true)`.
unfoldable pub add_pred : Module → ℕ → ℕ → Module
add_pred m bb q = modify m q λ o. add_pre o bb

unfoldable pub add_next : Module → ℕ → ℕ → Module
add_next m bb q = modify m bb λ o. add_succ o q

-- BasicBlock::create and the constructor of BasicBlock; a name gets the prefix "label_".
abbrev pub label : Text → Text
label [] = []
label (c ∷ cs) = text "label_" ++ c ∷ cs

abbrev pub empty_block : ℕ → Object
empty_block f = block (record { parent = f; instr_list = []; pre_bbs = []; succ_bbs = [] })

unfoldable pub insert_block_at : Module → ℕ → Text → ℕ → Module
insert_block_at m a name f =
    modify (add_object m a (empty_block f) (label name)) f λ o. add_block o a

-- Function::build_args: the arguments stand at the addresses from `a` on.
unfoldable pub add_args : Module → ℕ → Tys → Module
add_args m a none_left = m
add_args m a (param t ts) = add_args (add_object m a (argument t) []) (suc a) ts

abbrev pub arg_addrs : ℕ → Tys → List ℕ
arg_addrs a none_left = []
arg_addrs a (param t ts) = a ∷ arg_addrs (suc a) ts

abbrev pub count_args : Tys → ℕ
count_args none_left = 0
count_args (param t ts) = suc (count_args ts)

abbrev new_func : Ty → Tys → List ℕ → Func
new_func ret ts args = record { return_ty = ret; params = ts; arguments = args; basic_blocks = [] }

-- Function::create and the constructor of Function.
unfoldable pub insert_func : Module → ℕ → Ty → Tys → Text → Module
insert_func m a ret ts name =
    let m' = add_object m a (func (new_func ret ts (arg_addrs (suc a) ts))) name in
    add_args (record m' { function_list = m'.function_list ++ a ∷ [] }) (suc a) ts

-- GlobalVariable::create with an initializer, whose use list nothing reads.
unfoldable pub insert_global : Module → ℕ → Ty → Text → Module
insert_global m a ty name =
    let m' = add_object m a (global ty) name in record m' { global_list = m'.global_list ++ a ∷ [] }
