-- ===== src/Examples.antt =====
-- Concrete crates, sockets and drivers, and each theorem at a concrete input.
pub mod Instances
pub mod Transport
pub mod Connection
pub mod Operations
pub mod Compiled
pub mod Tenants
pub mod Ingestion
pub mod Dispatch
pub mod Translator
pub mod Jobs
pub mod Tables
pub mod Batches
pub mod Streams
