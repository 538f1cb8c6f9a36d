-- ===== src/Mcp.antt =====
-- The MCP gateway: include/nexus/mcp/tool_registry.h, include/nexus/mcp/mcp_server.h, and
-- src/mcp/tool_registry.cpp and src/mcp/mcp_server.cpp.
pub mod Words
pub mod RegistryWords
pub mod Tool
pub mod Registry
pub mod RegistryLaws
pub mod Listing
pub mod Names
pub mod Convert
pub mod Descriptors
pub mod Nesting
pub mod Circles
pub mod Server
pub mod Session
pub mod Runs
pub mod Tests
