-- ===== src/Frame/Constants.antt =====
-- include/nexus/rpc/frame_constants.h: the layout constants, the enumerations and the header.
-- An enumerator drops the prefix `k`; `RpcFrameHeader` holds unsigned numbers of 8, 32 and 64 bits.
use nexus_rpc.Common.{ℕ, ◌+◌, ◌*◌, ◌^◌, ◌<◌, IsByte}

abbrev pub fixed_header_size : ℕ
fixed_header_size = 32

abbrev pub magic : ℕ
magic = 0x4E525043

abbrev pub version1 : ℕ
version1 = 1

abbrev pub max_metadata_length : ℕ
max_metadata_length = 64 * 1024

abbrev pub max_body_length : ℕ
max_body_length = 16 * 1024 * 1024

abbrev pub max_total_length : ℕ
max_total_length = fixed_header_size + max_metadata_length + max_body_length

pub data MessageType : Type 0 where
  request response stream_data stream_end ping pong : MessageType

-- `static_cast<std::uint8_t>` of a message type.
abbrev pub message_type_byte : MessageType → ℕ
message_type_byte request = 0
message_type_byte response = 1
message_type_byte stream_data = 2
message_type_byte stream_end = 3
message_type_byte ping = 4
message_type_byte pong = 5

pub data ParseResult : Type 0 where
  ok : ParseResult
  need_more_data : ParseResult
  invalid_magic : ParseResult
  invalid_version : ParseResult
  invalid_message_type : ParseResult
  unsupported_compression : ParseResult
  invalid_serialize_type : ParseResult
  total_length_overflow : ParseResult
  total_length_mismatch : ParseResult
  metadata_length_overflow : ParseResult
  body_length_overflow : ParseResult
  reserved_field_non_zero : ParseResult
  metadata_parse_error : ParseResult
  internal_error : ParseResult

pub data ParseState : Type 0 where
  need_header need_payload complete : ParseState

pub record RpcFrameHeader : Type 0 where
  pub magic : ℕ
  pub version : ℕ
  pub msg_type : ℕ
  pub compress_type : ℕ
  pub serialize_type : ℕ
  pub total_length : ℕ
  pub request_id : ℕ
  pub meta_length : ℕ
  pub body_length : ℕ
  pub reserved : ℕ

-- `RpcFrameHeader{}`.
abbrev pub default_header : RpcFrameHeader
default_header = record {
  magic = magic;
  version = version1;
  msg_type = 0;
  compress_type = 0;
  serialize_type = 0;
  total_length = 0;
  request_id = 0;
  meta_length = 0;
  body_length = 0;
  reserved = 0;
}

-- The ranges that the C++ types of the fields give.
pub record InRange (h : RpcFrameHeader) : Type 0 where
  pub magic_fits : h.magic < 2 ^ 32
  pub version_fits : IsByte h.version
  pub msg_type_fits : IsByte h.msg_type
  pub compress_type_fits : IsByte h.compress_type
  pub serialize_type_fits : IsByte h.serialize_type
  pub total_length_fits : h.total_length < 2 ^ 32
  pub request_id_fits : h.request_id < 2 ^ 64
  pub meta_length_fits : h.meta_length < 2 ^ 32
  pub body_length_fits : h.body_length < 2 ^ 32
  pub reserved_fits : h.reserved < 2 ^ 32
