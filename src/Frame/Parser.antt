-- ===== src/Frame/Parser.antt =====
-- `FrameParser` of src/rpc/frame_codec.cpp: `feed` and `reset`.
pub mod Incremental
pub mod Sent
pub mod Frames
pub mod Chunks
use nexus_rpc.Common.{ℕ, ◌+◌, ◌-◌, ◌%◌, ◌^◌, Bool, true, false, if◌then◌else◌, ltb, ◌==◌}
use nexus_rpc.Common.{Bytes, [], ◌∷◌, ◌++◌, length, take, drop}
use nexus_rpc.Common.Outcome.{Outcome, done, out_of_bounds, ◌>>=◌}
use nexus_rpc.Frame.Constants.{RpcFrameHeader, default_header, fixed_header_size}
use nexus_rpc.Frame.Constants.{ParseState, need_header, need_payload}
use nexus_rpc.Frame.Constants.{ParseResult, ok, need_more_data, internal_error}
use nexus_rpc.Frame.Header.{decode_header}
use nexus_rpc.Frame.Metadata.{Metadata, decode_metadata}

pub record FrameParser : Type 0 where
  pub state : ParseState
  pub header : RpcFrameHeader
  pub buffer : Bytes
  pub metadata : Metadata
  pub body : Bytes
  pub complete : Bool

-- A parser as it is constructed.
abbrev pub new_parser : FrameParser
new_parser = record {
  state = need_header;
  header = default_header;
  buffer = [];
  metadata = [];
  body = [];
  complete = false;
}

-- The arguments of `feed`: a null pointer with a length, or the `length` bytes at `data`.
pub data Input : Type 0 where
  null : ℕ → Input
  bytes : Bytes → Input

abbrev pub Fed : Type 0
Fed = Outcome (FrameParser × ParseResult)

-- `body_.assign(payload + from, payload + from + n)`.
unfoldable pub assign_range : Bytes → ℕ → ℕ → Outcome Bytes
assign_range payload from n =
    if ltb (length payload) (from + n) then out_of_bounds else done (take n (drop from payload))

-- The metadata that is decoded from the payload, if its length is not 0.
pub parse_metadata : FrameParser → Outcome (ParseResult × Metadata)
parse_metadata p =
    if ltb 0 p.header.meta_length
    then decode_metadata p.buffer p.header.meta_length p.metadata
    else done (ok, p.metadata)

pub parse_body : FrameParser → Outcome Bytes
parse_body p =
    if ltb 0 p.header.body_length
    then assign_range p.buffer p.header.meta_length p.header.body_length
    else done p.body

-- What is done with the answer about the metadata: a refusal is returned, with the entries so far.
pub finish_payload : FrameParser → ℕ → ParseResult × Metadata → Fed
finish_payload p payload_len (ParseResult.ok, metadata) = do
  body ← parse_body p
  done (
    record p {
      state = ParseState.complete;
      buffer = drop payload_len p.buffer;
      metadata = metadata;
      body = body;
      complete = true;
    },
    ok,
  )
finish_payload p payload_len (other, metadata) = done (record p { metadata = metadata }, other)

-- The block of the state `kNeedPayload`, when the payload has arrived.
pub take_payload : FrameParser → ℕ → Fed
take_payload p payload_len = parse_metadata p >>= finish_payload p payload_len

-- The 32-bit difference `payload_len`.
abbrev pub payload_length : FrameParser → ℕ
payload_length p = (p.header.total_length + 2 ^ 32 - fixed_header_size) % 2 ^ 32

unfoldable pub feed_payload : FrameParser → Fed
feed_payload p =
    if ltb (length p.buffer) (payload_length p)
    then done (p, need_more_data)
    else take_payload p (payload_length p)

-- The header has been accepted, and its bytes are removed.
unfoldable pub after_header : FrameParser → Fed
after_header p =
    let q = record p { buffer = drop fixed_header_size p.buffer } in
    if p.header.total_length == fixed_header_size
    then done (record q { state = ParseState.complete; complete = true }, ok)
    else feed_payload (record q { state = need_payload })

-- The decoded header is stored also when it is refused.
unfoldable pub accept_header : FrameParser → ParseResult × RpcFrameHeader → Fed
accept_header p (ParseResult.ok, header) = after_header (record p { header = header })
accept_header p (other, header) = done (record p { header = header }, other)

-- The block of the state `kNeedHeader`.
unfoldable pub feed_header : FrameParser → Fed
feed_header p =
    if ltb (length p.buffer) fixed_header_size
    then done (p, need_more_data)
    else accept_header p (decode_header p.buffer)

-- `feed` behind the append to the buffer.
unfoldable pub advance : FrameParser → Fed
advance p = elim p.state [
  | ParseState.need_header ↦ feed_header p
  | ParseState.need_payload ↦ feed_payload p
  | ParseState.complete ↦ done (p, internal_error)
]

unfoldable pub feed : FrameParser → Input → Fed
feed p (null n) =
    if p.complete
    then done (p, internal_error)
    else if n == 0
    then advance p
    else done (p, internal_error)
feed p (bytes data_bytes) =
    if p.complete
    then done (p, internal_error)
    else advance (record p { buffer = p.buffer ++ data_bytes })

-- `reset` keeps the buffer.
unfoldable pub reset : FrameParser → FrameParser
reset p = record p {
  state = need_header;
  header = default_header;
  metadata = [];
  body = [];
  complete = false;
}
