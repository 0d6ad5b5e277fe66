-- ===== src/Mcp.antt =====
-- The MCP server: the shared tool registry and the HTTP listener.
pub mod Tool
pub mod Registry
pub mod Args
pub mod Era
pub mod Call
pub mod Rpc
pub mod Listener
mod Tests
