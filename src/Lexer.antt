-- ===== src/Lexer.antt =====
-- src/lexer.cpp, include/lexer.h and include/token.h: source text to a flat list of tokens.
pub mod Token
pub mod Cursor
pub mod Run
pub mod Comments
pub mod Words
pub mod Operators
pub mod Utf8
pub mod Strings
pub mod FStrings
pub mod Indentation
pub mod Tokenize
pub mod Span
pub mod Landing
pub mod Rounds
pub mod Stream
pub mod Reports
pub mod EmptyLine
pub mod Names
pub mod KeywordNames
