-- ===== src/Ast.antt =====
-- The syntax tree of the parser and the abstract syntax tree (include/ast.hpp, src/common/ast.cpp,
-- with the tree that src/parser/syntax_analyzer.y builds).
pub mod Tree
pub mod Types
pub mod Numbers
pub mod Kinds
pub mod Parts
pub mod Transform
pub mod Nodes
pub mod Grammar
pub mod Fits
pub mod Printer
