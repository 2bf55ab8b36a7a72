-- ===== src/Expr.antt =====
-- The boolean expression language of routing rules (server/internal/router/expr/expr.go): syntax
-- trees, lexer, parser and `Compile`, and below them what is proved of each.
pub mod Ast
pub mod Result
pub mod Lexer
pub mod Parser
pub mod Typing
pub mod Meaning
pub mod Lexes
pub mod Advances
pub mod Parses
pub mod Sound
pub mod Refs
mod Tests
