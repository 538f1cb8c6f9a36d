-- ===== src/Json.antt =====
-- JSON values, their text and its parser: include/nexus/mcp/json_rpc.h and src/mcp/json_rpc.cpp.
pub mod Strings
pub mod Value
pub mod Print
pub mod Lexer
pub mod Parser
pub mod Words
pub mod Message
pub mod MessageLaws
pub mod Requests
pub mod RoundTrip
pub mod Termination
pub mod Tests
