-- ===== src/Ir/Naming.antt =====
-- Function::set_instr_name (src/lightir/Function.cpp).
pub mod Given
pub mod Distinct
use gvn.Prelude.{
  ℕ, ◌+◌, ◌%◌, ◌^◌, Bool, true, false, Option, none, some, List, [], ◌∷◌, ◌++◌, length, contains,
  if◌then◌else◌, update,
}
use gvn.Prelude.Texts.{Text, text}
use gvn.Ast.Numbers.{to_string}
use gvn.Ir.Module.{Module, Object, Func, Instr, is_void, as_instr, args_of, blocks_of, instrs_of}

-- The names, and the addresses in the map `seq`. The map's numbers are read nowhere.
pub record Naming : Type 0 where
  pub name : ℕ → Text
  pub seq : List ℕ

-- Value::set_name and the insertion, for the text in front of the number.
unfoldable pub give_name : ℕ → Text → ℕ → Naming → Naming
give_name seq_cnt prefix a s = elim (contains s.seq a) [
  | true ↦ s
  | false ↦ elim (s.name a) [
    | [] ↦ record {
      name = update s.name a (prefix ++ to_string (length s.seq + seq_cnt));
      seq = a ∷ s.seq;
    }
    | _ ∷ _ ↦ s
  ]
]

unfoldable pub name_args : ℕ → List ℕ → Naming → Naming
name_args seq_cnt [] s = s
name_args seq_cnt (a ∷ as') s = name_args seq_cnt as' (give_name seq_cnt (text "arg") a s)

-- `!instr.is_void()`
unfoldable pub has_value : Object → Bool
has_value o = elim (as_instr o) [ none ↦ false | some i ↦ if is_void i then false else true ]

unfoldable pub name_instrs : Module → ℕ → List ℕ → Naming → Naming
name_instrs m seq_cnt [] s = s
name_instrs m seq_cnt (a ∷ as') s =
    name_instrs m seq_cnt as' (if has_value (m.at a) then give_name seq_cnt (text "op") a s else s)

unfoldable pub name_blocks : Module → ℕ → List ℕ → Naming → Naming
name_blocks m seq_cnt [] s = s
name_blocks m seq_cnt (b ∷ bs) s =
    name_blocks m seq_cnt bs
      (name_instrs m seq_cnt (instrs_of (m.at b)) (give_name seq_cnt (text "label") b s))

-- The module with the names, and the new `seq_cnt_`, an `unsigned`.
unfoldable pub set_instr_name : Module → ℕ → ℕ → Module × ℕ
set_instr_name m f seq_cnt =
    let s =
      name_blocks m seq_cnt (blocks_of (m.at f))
        (name_args seq_cnt (args_of (m.at f)) (record { name = m.name; seq = [] })) in
    (record m { name = s.name }, (seq_cnt + length s.seq) % 2 ^ 32)
