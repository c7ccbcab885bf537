-- ===== src/Lexer/Rounds.antt =====
-- The loop of tokenize in src/lexer.cpp: what every round keeps, and why the rounds end.
pub mod Invariant
pub mod Steps
pub mod Scanning
pub mod Layout
pub mod Progress
