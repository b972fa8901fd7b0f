-- ===== src/Grpc.antt =====
-- src/grpc: the handlers of the gRPC service.
pub mod Streams
