-- ===== src/Frame/Encode.antt =====
-- `encodeFrame` of src/rpc/frame_codec.cpp.
use nexus_rpc.Common.{ℕ, ◌+◌, ◌%◌, ◌^◌, Bytes, ◌++◌, length}
use nexus_rpc.Frame.Constants.{RpcFrameHeader, MessageType, message_type_byte, magic, version1}
use nexus_rpc.Frame.Constants.{fixed_header_size}
use nexus_rpc.Frame.Header.{encode_header}
use nexus_rpc.Frame.Metadata.{Metadata, encode_metadata}

-- The header of a frame; the lengths are cast to 32 bits.
unfoldable pub frame_header : ℕ → MessageType → Metadata → Bytes → RpcFrameHeader
frame_header request_id msg_type metadata body =
    let meta_len = length (encode_metadata metadata) % 2 ^ 32 in
    let body_len = length body % 2 ^ 32 in
    record {
      magic = magic;
      version = version1;
      msg_type = message_type_byte msg_type;
      compress_type = 0;
      serialize_type = 0;
      total_length = (fixed_header_size + meta_len + body_len) % 2 ^ 32;
      request_id = request_id;
      meta_length = meta_len;
      body_length = body_len;
      reserved = 0;
    }

-- The debug-only `assert`s on the lengths are left out.
unfoldable pub encode_frame : ℕ → MessageType → Metadata → Bytes → Bytes
encode_frame request_id msg_type metadata body =
    encode_header (frame_header request_id msg_type metadata body)
    ++ encode_metadata metadata
    ++ body
