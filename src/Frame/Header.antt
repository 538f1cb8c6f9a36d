-- ===== src/Frame/Header.antt =====
-- The fixed header of src/rpc/frame_codec.cpp: its validation, `encodeHeader` and `decodeHeader`.
pub mod Valid
pub mod RoundTrip
pub mod Prefix
use nexus_rpc.Common.{ℕ, ◌+◌, ◌%◌, ◌^◌, Bool, ◌||◌, ◌==◌, ltb, not, if◌then◌else◌}
use nexus_rpc.Common.{Bytes, drop, [], ◌∷◌, ◌++◌}
use nexus_rpc.Frame.Constants.{RpcFrameHeader, MessageType, message_type_byte, ParseResult, ok}
use nexus_rpc.Frame.Constants.{request, response, stream_data, stream_end, ping, pong}
use nexus_rpc.Frame.Constants.{invalid_magic, invalid_version, unsupported_compression}
use nexus_rpc.Frame.Constants.{
  invalid_serialize_type, reserved_field_non_zero, invalid_message_type,
}
use nexus_rpc.Frame.Constants.{total_length_overflow, total_length_mismatch}
use nexus_rpc.Frame.Constants.{metadata_length_overflow, body_length_overflow}
use nexus_rpc.Frame.Constants.{magic, version1, fixed_header_size, max_total_length}
use nexus_rpc.Frame.Constants.{max_metadata_length, max_body_length}
use nexus_rpc.Frame.BigEndian.{write_u32_be, read_u32_be, write_u64_be, read_u64_be, at}

-- What the tests after the common ones find, and the common ones first.
unfoldable pub validate_common : RpcFrameHeader → ParseResult
validate_common hdr =
    if not (hdr.magic == magic)
    then invalid_magic
    else if not (hdr.version == version1)
    then invalid_version
    else if not (hdr.compress_type == 0)
    then unsupported_compression
    else if not (hdr.serialize_type == 0)
    then invalid_serialize_type
    else if not (hdr.reserved == 0)
    then reserved_field_non_zero
    else ok

-- The cases of the `switch` on the message type.
unfoldable pub is_known_message_type : ℕ → Bool
is_known_message_type t =
    t == message_type_byte request
    || t == message_type_byte response
    || t == message_type_byte stream_data
    || t == message_type_byte stream_end
    || t == message_type_byte ping
    || t == message_type_byte pong

-- `validateHeader` behind its call of `validateCommon`.
unfoldable pub validate_lengths : RpcFrameHeader → ParseResult
validate_lengths hdr =
    let expected = (fixed_header_size + hdr.meta_length + hdr.body_length) % 2 ^ 64 in
    if not (is_known_message_type hdr.msg_type)
    then invalid_message_type
    else if ltb max_total_length hdr.total_length
    then total_length_overflow
    else if ltb max_metadata_length hdr.meta_length
    then metadata_length_overflow
    else if ltb max_body_length hdr.body_length
    then body_length_overflow
    else if not (hdr.total_length == expected)
    then total_length_mismatch
    else ok

unfoldable pub validate_header : RpcFrameHeader → ParseResult
validate_header hdr = elim (validate_common hdr) [
  | ParseResult.ok ↦ validate_lengths hdr
  | common ↦ common
]

-- The 32 bytes at `output`, in the order of their offsets. The debug-only `assert` is left out.
unfoldable pub encode_header : RpcFrameHeader → Bytes
encode_header header =
    write_u32_be header.magic
    ++ (header.version ∷ header.msg_type ∷ header.compress_type ∷ header.serialize_type ∷ [])
    ++ write_u32_be header.total_length
    ++ write_u64_be header.request_id
    ++ write_u32_be header.meta_length
    ++ write_u32_be header.body_length
    ++ write_u32_be header.reserved

-- The fields as they are read from `input`, which the callers keep at 32 bytes or more.
unfoldable pub read_header : Bytes → RpcFrameHeader
read_header input = record {
  magic = read_u32_be input;
  version = at input 4;
  msg_type = at input 5;
  compress_type = at input 6;
  serialize_type = at input 7;
  total_length = read_u32_be (drop 8 input);
  request_id = read_u64_be (drop 12 input);
  meta_length = read_u32_be (drop 20 input);
  body_length = read_u32_be (drop 24 input);
  reserved = read_u32_be (drop 28 input);
}

-- The result, and the header that was written through the pointer, also when it is refused.
unfoldable pub decode_header : Bytes → ParseResult × RpcFrameHeader
decode_header input = let header = read_header input in (validate_header header, header)
