-- ===== src/Packages.antt =====
-- The package tools: src/vsl_paths.cpp and src/vsl_resolver.cpp.
pub mod Paths
pub mod Versions
pub mod Newest
pub mod Resolver
