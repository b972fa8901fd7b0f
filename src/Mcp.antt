-- ===== src/Mcp.antt =====
-- src/mcp: the tools that an agent calls.
pub mod Safety
