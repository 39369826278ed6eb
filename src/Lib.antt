-- ===== src/Lib.antt =====
-- The cminusf compiler: the abstract syntax tree (include/ast.hpp, src/common/ast.cpp), the
-- intermediate representation (include/lightir, src/lightir), the code generator
-- (include/cminusf_builder.hpp, src/cminusfc/cminusf_builder.cpp), the analysis of pure functions
-- (include/optimization/FuncInfo.h), the elimination of dead code
-- (include/optimization/DeadCode.h), the dominator tree (include/optimization/Dominators.h,
-- src/optimization/Dominators.cpp), and global value numbering (include/optimization/GVN.h,
-- src/optimization/GVN.cpp).
--
-- The program's parts. AST turns the tree of the parser into the abstract syntax tree, which
-- ASTPrinter prints and the code generator reads. A Module holds functions of basic blocks of
-- instructions, and each value knows its uses. CminusfBuilder visits the syntax tree and makes the
-- Module through an IRBuilder, which appends to one block at a time. Dominators finds the dominator tree of each function
-- for Mem2Reg. GVN::run names the values, lets FuncInfo find the pure functions and DeadCode delete
-- what is unused, then finds for each function which values are congruent, replaces them by leaders,
-- and runs DeadCode again. DeadCode asks FuncInfo whether a call can be deleted, and valueExpr asks it
-- whether two calls with the same arguments have the same value.
--
-- The files.
--   Prelude: lists, results, machine integers and texts that the parts share.
--   Ast.Tree: the tree of the parser. Ast.Nodes: src/common/syntax_tree.c, the nodes of that tree and
--     the bounds of their arrays. Ast.Types: the classes of the abstract syntax tree, with a
--     constructor for each subclass and each case of a null pointer. Ast.Kinds, Ast.Parts and
--     Ast.Transform: AST::transform_node_iter, a function for each branch. Ast.Grammar and Ast.Fits:
--     the tree that the actions of src/parser/syntax_analyzer.y build for a program, and the programs
--     that it is read back for. Ast.Printer: the visits of ASTPrinter.
--   Codegen.Scope: the class Scope. Codegen.State: the state of CminusfBuilder, its file's variables
--     included, and the monad that passes it on. Codegen.Create: what the constructors of the objects
--     of a module do to it. Codegen.Builder: the operations of the IRBuilder. Codegen.Convert,
--     Codegen.Visit, Codegen.Statement and Codegen.Program: the visits of CminusfBuilder. Codegen.Blocks,
--     Codegen.Triple, Codegen.Calm, Codegen.Jumps, Codegen.Ended and Codegen.Mirrored: what a run
--     leaves of the blocks, the edges and the scopes. Codegen.Promote: the types of converted operands.
--   Dominators: the four steps of Dominators::run on the edges of a function, with its maps as
--     functions on addresses, where a missing pointer is `none`.
--   Ir: types (Types), opcodes (Opcodes), constants (Constants), and the heap (Module): objects,
--     names and use lists by address. dynamic_cast is a match on the object, a pointer is an address,
--     and an operation that mutates the heap returns the new one.
--   Ir.Uses: the operations on operands and use lists. Ir.Naming: Function::set_instr_name.
--   Passes.Worklist: the queue with a flag for each address, which FuncInfo and DeadCode share.
--   Passes.FuncInfo: `run`, `trivial_mark` and `callers` (FuncInfo::process) on the map `is_pure`.
--   Passes.DeadCode: `mark` and `sweep`, with the use lists, and the rounds of `run_dead_code`.
--   Gvn.Fold: ConstFolder. Gvn.Expr: the value expressions and their comparison. Gvn.Class: the
--     congruence classes and the sets of them. Gvn.Join: join and intersect. Gvn.ValueExpr: valueExpr.
--   Gvn.ValuePhi: valuePhiFunc and getVN. Gvn.Transfer: transferFunction.
--   Gvn.Copy: the copy statements, and Gvn.Detect: the rounds of detectEquivalences.
--   Gvn.Replace: replace_cc_members. Gvn.Driver: GVN::run, which composes the passes.
--   Tests: sample modules and partitions, on which the theorems are applied.
--
-- States and errors. The counter of value numbers and the next address of a phi expression are
-- passed along (Counter). An undefined access, an exception of `at`, a division by zero and an
-- overflow of `int` are values of Fault. `int` is ℤ with the test `fits_int`; `next_value_number_`
-- wraps at 2 ^ 64. A partition is a list in the order of the value numbers, as the std::set is, and
-- the members of a class are addresses in rising order.
--
-- Fuel. The queues take the number of functions, or twice that of the instructions, as fuel, which
-- is enough since each address is queued at most once after the start. valuePhiFunc
-- takes any fuel; it is enough where it is above the depth of the expression. get_first_addr takes
-- any fuel, and that some is enough is not stated. The rounds of detectEquivalences take any fuel too.
-- The transformation of a tree takes more fuel than the tree has nodes. post_order_visit takes one
-- more than the number of blocks, as each call visits a new one. intersect takes the length of the
-- order for a climb and twice that for its outer loop, which is enough since each turn moves a
-- block up. The rounds of create_idom and the climb of a frontier take any fuel. The rounds of
-- run_dead_code take the number of instructions and one more, as each round but the last deletes an
-- instruction. That the rounds of detectEquivalences, run_dead_code and create_idom end within
-- their fuel is not stated.
--
-- Not modelled: `float` arithmetic is a parameter (FloatOps), and so are std::stof, the text that a
-- stream writes for a float, and the constant that ConstantFP::get finds for one (`fp_get`);
-- logging and printing have no effect on the results; `clone`
-- copies a value, which is the value itself here. Of Dominators, create_doms has no caller.
-- Mem2Reg, the printing of the representation, the scanner and the parser are not part of this
-- development. The code generator reads a null pointer or fails an assertion on a program that uses
-- an undeclared name; such a run is a Fault, and no theorem states for which programs it returns.
pub mod Prelude
pub mod Ir
pub mod Ast
pub mod Dominators
pub mod Codegen
pub mod Passes
pub mod Gvn
pub mod Tests
