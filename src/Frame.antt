-- ===== src/Frame.antt =====
-- The RPC frame codec: include/nexus/rpc/frame_constants.h and src/rpc/frame_codec.cpp.
pub mod Constants
pub mod BigEndian
pub mod Varint
pub mod Header
pub mod Metadata
pub mod Encode
pub mod Parser
pub mod Tests
