-- ===== src/Ingestion.antt =====
-- src/ingestion: files that are read into a collection, row by row, with a record of what failed.
pub mod Schema
pub mod Dedup
pub mod Writer
pub mod Reader
pub mod Engine
pub mod Sequential
pub mod Concurrent
pub mod Progress
