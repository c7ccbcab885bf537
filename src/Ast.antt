-- ===== src/Ast.antt =====
-- include/ast.h: the syntax tree.
pub mod Expr
pub mod Stmt
pub mod Clone
pub mod Copies
