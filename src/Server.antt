-- ===== src/Server.antt =====
-- internal/server: the transports of the MCP server.
pub mod Transport
pub mod Serving
