-- ===== src/Formatter.antt =====
-- tools/visuall-lsp/src/formatter.cpp: the formatter of the language server.
pub mod Lines
pub mod Spacing
pub mod Layout
pub mod Shown
pub mod Kept
pub mod Format
pub mod Agrees
pub mod Indented
