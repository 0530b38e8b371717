-- ===== src/Parser.antt =====
-- pkg/parser: the syntax tree that the planner reads.
pub mod Ast
pub mod Token
pub mod Lexer
pub mod State
pub mod Lists
pub mod Source
pub mod CreateTable
pub mod Arithmetic
pub mod Expr
pub mod WindowSpec
pub mod SelectItems
pub mod From
pub mod Select
pub mod Statements
pub mod Progress
