-- ===== src/Voyage.antt =====
-- src/voyage: the embedding of texts.
pub mod Batch
