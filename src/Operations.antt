-- ===== src/Operations.antt =====
-- src/operations: references between pipeline steps, and transactional pipelines.
pub mod Driver
pub mod Crud
pub mod Admin
pub mod Json
pub mod Refs
pub mod Pipeline
