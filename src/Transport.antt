-- ===== src/Transport.antt =====
-- src/transport: the binary protocol over a Unix domain socket.
pub mod Flags
pub mod Frame
pub mod BufferPool
pub mod Codec
pub mod Queue
pub mod Dispatch
pub mod Prefetch
pub mod Connection
