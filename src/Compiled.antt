-- ===== src/Compiled.antt =====
-- src/compiled: queries that a language model has written.
pub mod Validator
pub mod MemoryCache
pub mod Hierarchy
pub mod Translator
