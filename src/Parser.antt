-- ===== src/Parser.antt =====
-- src/parser.cpp: a list of tokens to a syntax tree.
pub mod Ordinal
pub mod Monad
pub mod Expressions
pub mod FStrings
pub mod Primary
pub mod Levels
pub mod Types
pub mod Headers
pub mod Params
pub mod Definitions
pub mod Blocks
pub mod Simple
pub mod Statements
pub mod Program
pub mod Progress
pub mod Ends
pub mod Chains
pub mod Returns
pub mod AtEnd
pub mod Recovery
