-- ===== src/Lexer/Landing.antt =====
-- Where each routine of src/lexer.cpp leaves the cursor, and what kind of token it makes.
pub mod Kinds
pub mod Words
pub mod Strings
pub mod Operators
