-- ===== src/Frame/Header/Valid.antt =====
-- What `validateHeader` accepts, and what it answers to each fault.
use nexus_rpc.Common.{ℕ, ◌+◌, ◌≤◌, ◌≡◌, refl, arith, ◌↔◌, ◌==◌, Bool-cases, inl, inr, true}
use nexus_rpc.Frame.Constants.{RpcFrameHeader, MessageType, message_type_byte, ok}
use nexus_rpc.Frame.Constants.{request, response, stream_data, stream_end, ping, pong}
use nexus_rpc.Frame.Constants.{magic, version1, fixed_header_size, max_metadata_length}
use nexus_rpc.Frame.Constants.{max_body_length}
use nexus_rpc.Frame.Header.{
  validate_common, is_known_message_type, validate_lengths, validate_header,
}

-- A version 1 header as `validateHeader` understands it, with any of the six message types of the enum.
-- docs/protocol.md implements only requests and responses in version 1, and wants an explicit error for
-- the other types.
pub record IsVersion1 (h : RpcFrameHeader) : Type 0 where
  pub magic_is : h.magic ≡ magic
  pub version_is : h.version ≡ version1
  pub uncompressed : h.compress_type ≡ 0
  pub protobuf : h.serialize_type ≡ 0
  pub reserved_is : h.reserved ≡ 0
  pub type_is : (t : MessageType) × (h.msg_type ≡ message_type_byte t)
  pub meta_fits : h.meta_length ≤ max_metadata_length
  pub body_fits : h.body_length ≤ max_body_length
  pub total_is : h.total_length ≡ fixed_header_size + h.meta_length + h.body_length

type_of : (b : ℕ) → is_known_message_type b ≡ true → (t : MessageType) × (b ≡ message_type_byte t)
unfolding is_known_message_type
type_of b h = elim (Bool-cases (b == 0)) [
  | inl e ↦ (request, ground arith)
  | inr e0 ↦ elim (Bool-cases (b == 1)) [
    | inl e ↦ (response, ground arith)
    | inr e1 ↦ elim (Bool-cases (b == 2)) [
      | inl e ↦ (stream_data, ground arith)
      | inr e2 ↦ elim (Bool-cases (b == 3)) [
        | inl e ↦ (stream_end, ground arith)
        | inr e3 ↦ elim (Bool-cases (b == 4)) [
          | inl e ↦ (ping, ground arith)
          | inr e4 ↦ (pong, ground arith)
        ]
      ]
    ]
  ]
]

known : (t : MessageType) → is_known_message_type (message_type_byte t) ≡ true
unfolding is_known_message_type
known request = refl
known response = refl
known stream_data = refl
known stream_end = refl
known ping = refl
known pong = refl

module _ (h : RpcFrameHeader) where
  accepts : IsVersion1 h → validate_header h ≡ ok
  unfolding validate_header validate_common validate_lengths
  accepts v = ground (arith, known v.type_is.0)

  accepted : validate_header h ≡ ok → IsVersion1 h
  unfolding validate_header validate_common validate_lengths
  accepted e = record {
    magic_is = ground arith;
    version_is = ground arith;
    uncompressed = ground arith;
    protobuf = ground arith;
    reserved_is = ground arith;
    type_is = type_of h.msg_type (ground arith);
    meta_fits = ground arith;
    body_fits = ground arith;
    total_is = ground arith;
  }

  -- `validateHeader` answers `kOk` to exactly the headers with the magic, version 1, no compression,
  -- Protobuf and zero reserved bits, with one of the six types of `MessageType` (also the four that
  -- version 1 does not implement), with metadata and body within their limits, and with the total
  -- length 32 + metadata + body.
  pub validate_header-ok_iff : (validate_header h ≡ ok) ↔ IsVersion1 h
  validate_header-ok_iff = (accepted, accepts)
