-- ===== src/Rpc/Client.antt =====
-- `RpcClient` of src/rpc/rpc_client.cpp: request identifiers, and the part of `call` that reads the
-- response. The socket is the list of the bytes that it delivers, and `lost` is what `readAll` returns
-- when it delivers too few.
pub mod RequestId
pub mod Carried
pub mod Frames
pub mod Reply
pub mod Tests
use nexus_rpc.Common.{
  ℕ, ◌+◌, ◌-◌, ◌%◌, ◌^◌, Bool, true, false, ◌&&◌, ◌||◌, not, if◌then◌else◌, ltb, ◌==◌,
}
use nexus_rpc.Common.{Bytes, [], length, take, drop, Option, none, some}
use nexus_rpc.Common.Outcome.{Outcome, done, ◌>>=◌}
use nexus_rpc.Common.ByteMap.{find}
use nexus_rpc.Frame.Constants.{RpcFrameHeader, ParseResult, message_type_byte, fixed_header_size}
use nexus_rpc.Frame.Constants.{MessageType}
use nexus_rpc.Frame.Header.{decode_header}
use nexus_rpc.Frame.Metadata.{Metadata, decode_metadata}
use nexus_rpc.Frame.Parser.{assign_range}
use nexus_rpc.Rpc.Strings.{status_code_metadata_key, status_message_metadata_key, missing_status}
use nexus_rpc.Rpc.Strings.{invalid_status_code, mismatched_frame, invalid_metadata}
use nexus_rpc.Rpc.Message.{StatusCode, status_code_of, Status, ok_status, is_ok, RpcResponse}
use nexus_rpc.Rpc.Message.{CallResult, failure, value}
use nexus_rpc.Rpc.Decimal.{from_chars}

-- The identifier of the next request, and `next_request_id_` after it.
unfoldable pub next_request_id : ℕ → ℕ × ℕ
next_request_id next =
    let next' = (next + 1) % 2 ^ 64 in (next, if next' == 0 then (next' + 1) % 2 ^ 64 else next')

-- `readAll`: the bytes, and what the socket delivers after them.
unfoldable pub read_all : Bytes → ℕ → Option (Bytes × Bytes)
read_all stream n = if ltb (length stream) n then none else some (take n stream, drop n stream)

abbrev invalid_code : Status
invalid_code = record { code = StatusCode.internal; message = invalid_status_code }

-- The number that `from_chars` has read, the characters behind it, and the tests on them.
unfoldable pub checked_code : Option (Bool × ℕ × Bytes) → Option StatusCode
checked_code none = none
checked_code (some (negative, n, rest)) =
    if ltb 0 (length rest) || (negative && ltb 0 n) || ltb 7 n
    then none
    else some (status_code_of n)

unfoldable pub found_code : Metadata → Option StatusCode → Status × Option Status
found_code metadata none = (invalid_code, none)
found_code metadata (some code) = (
  ok_status,
  some (record {
    code = code;
    message = elim (find status_message_metadata_key metadata) [ none ↦ [] | some m ↦ m ];
  }),
)

-- The returned status, and what was stored through the pointer.
unfoldable pub decode_response_status : Metadata → Status × Option Status
decode_response_status metadata = elim (find status_code_metadata_key metadata) [
  | none ↦ (record { code = StatusCode.internal; message = missing_status }, none)
  | some text ↦ found_code metadata (checked_code (from_chars text))
]

-- The result of `call`, and whether it has closed the connection.
abbrev pub Returned : Type 0
Returned = CallResult × Bool

abbrev closing : Status → Returned
closing status = (failure status, true)

abbrev unavailable : Bytes → Returned
unavailable message = closing (record { code = StatusCode.unavailable; message = message })

-- What is returned for the status of the response.
unfoldable pub finish_call :
    RpcFrameHeader → Bytes → Metadata → Status × Option Status → Outcome Returned
finish_call header payload metadata (status, none) = done (closing status)
finish_call header payload metadata (status, some response_status) =
    let whole : Bytes → Returned =
      λ body. (value (record { status = ok_status; metadata = metadata; body = body }), false) in
    if not (is_ok response_status)
    then done (failure response_status, false)
    else if header.body_length == 0
    then done (whole [])
    else (assign_range payload header.meta_length header.body_length >>= λ body. done (whole body))

-- The end of `call`, from its call of `decodeResponseStatus` on.
unfoldable pub conclude : RpcFrameHeader → Bytes → Metadata → Outcome Returned
conclude header payload metadata =
    finish_call header payload metadata (decode_response_status metadata)

-- What the answer about the metadata leads to.
unfoldable pub with_metadata : RpcFrameHeader → Bytes → ParseResult × Metadata → Outcome Returned
with_metadata header payload (ParseResult.ok, metadata) = conclude header payload metadata
with_metadata header payload (other, metadata) = done (unavailable invalid_metadata)

unfoldable pub read_payload : RpcFrameHeader → Bytes → Outcome Returned
read_payload header payload =
    if header.meta_length == 0
    then conclude header payload []
    else (decode_metadata payload header.meta_length [] >>= with_metadata header payload)

-- The header has been accepted: the payload is read, if there is one.
unfoldable pub receive_payload : Status → RpcFrameHeader → Bytes → Outcome Returned
receive_payload lost header stream =
    let payload_length = (header.total_length + 2 ^ 32 - fixed_header_size) % 2 ^ 32 in
    if payload_length == 0 then read_payload header [] else elim (read_all stream payload_length) [
      | none ↦ done (closing lost)
      | some (payload, rest) ↦ read_payload header payload
    ]

unfoldable pub check_header : Status → ℕ → ParseResult × RpcFrameHeader → Bytes → Outcome Returned
check_header lost request_id (ParseResult.ok, header) stream =
    if not (header.msg_type == message_type_byte MessageType.response)
      || not (header.request_id == request_id)
    then done (unavailable mismatched_frame)
    else receive_payload lost header stream
check_header lost request_id (other, header) stream = done (unavailable mismatched_frame)

-- The part of `call` behind `writeAll`.
unfoldable pub receive : Status → ℕ → Bytes → Outcome Returned
receive lost request_id stream = elim (read_all stream fixed_header_size) [
  | none ↦ done (closing lost)
  | some (header_bytes, rest) ↦ check_header lost request_id (decode_header header_bytes) rest
]
