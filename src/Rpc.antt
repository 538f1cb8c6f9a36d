-- ===== src/Rpc.antt =====
-- The RPC layer, src/rpc: the messages, the server, and the client.
pub mod Strings
pub mod Message
pub mod Decimal
pub mod Response
pub mod Client
pub mod Server
