-- ===== src/Analytics.antt =====
-- src/analytics: the buffer of recent events.
pub mod RingBuffer
