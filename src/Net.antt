-- ===== src/Net.antt =====
-- The network library, src/net.
pub mod Buffer
pub mod TcpConnection
