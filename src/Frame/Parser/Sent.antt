-- ===== src/Frame/Parser/Sent.antt =====
-- One step of `FrameParser` on what `encodeFrame` wrote.
use nexus_rpc.Common.{ℕ, ◌+◌, ◌^◌, ◌≤◌, ◌<◌, ◌≡◌, refl, sym, ap, ap₂, ◌∙◌, arith}
use nexus_rpc.Common.{Bool-cases, inl, inr, ltb, ◌==◌, true, false}
use nexus_rpc.Common.{Bytes, [], ◌∷◌, ◌++◌, length, drop, append_assoc, length-append}
use nexus_rpc.Common.{take-append_left, drop-append_left, le→ltb}
use nexus_rpc.Common.Outcome.{done}
use nexus_rpc.Common.ByteMap.{IsSorted}
use nexus_rpc.Frame.Constants.{RpcFrameHeader, InRange, MessageType, ok, need_header, ParseState}
use nexus_rpc.Frame.Constants.{message_type_byte}
use nexus_rpc.Frame.Constants.{request, response, stream_data, stream_end, ping, pong}
use nexus_rpc.Frame.Constants.{max_metadata_length, max_body_length, fixed_header_size}
use nexus_rpc.Frame.Header.{encode_header, decode_header, validate_header}
use nexus_rpc.Frame.Header.Valid.{validate_header-ok_iff}
use nexus_rpc.Frame.Header.RoundTrip.{decode_header-encode_header, length-encode_header}
use nexus_rpc.Frame.Metadata.{Metadata, encode_metadata}
use nexus_rpc.Frame.Metadata.Size.{Fits-of_length, empty_of_length}
use nexus_rpc.Frame.Metadata.RoundTrip.{decode_metadata_inverse}
use nexus_rpc.Frame.Encode.{frame_header, encode_frame}
use nexus_rpc.Frame.Parser.{FrameParser, parse_metadata, parse_body, assign_range}
use nexus_rpc.Frame.Parser.{take_payload, finish_payload, payload_length, feed_payload}
use nexus_rpc.Frame.Parser.{after_header, accept_header, feed_header, advance}

-- A parser at the start of a frame, as it is constructed or `reset`.
pub record IsReady (p : FrameParser) : Type 0 where
  pub at_header : p.state ≡ need_header
  pub no_metadata : p.metadata ≡ []
  pub no_body : p.body ≡ []
  pub open_parser : p.complete ≡ false

-- What the sender keeps to: `std::map` order, 64-bit identifiers, and the limits of the protocol.
pub record IsSendable (request_id : ℕ) (metadata : Metadata) (body : Bytes) : Type 0 where
  pub id_fits : request_id < 2 ^ 64
  pub sorted : IsSorted metadata
  pub metadata_fits : length (encode_metadata metadata) ≤ max_metadata_length
  pub body_fits : length body ≤ max_body_length

byte_fits : (t : MessageType) → message_type_byte t < 256
byte_fits request = omega arith
byte_fits response = omega arith
byte_fits stream_data = omega arith
byte_fits stream_end = omega arith
byte_fits ping = omega arith
byte_fits pong = omega arith

empty_of_zero : (b : Bytes) → ltb 0 (length b) ≡ false → [] ≡ b
empty_of_zero [] h = refl
empty_of_zero (x ∷ b) h = absurd (ground arith)

-- The parser that holds a frame, with `rest` behind it in its buffer.
abbrev pub parsed : ℕ → MessageType → Metadata → Bytes → Bytes → FrameParser
parsed id type metadata body rest = record {
  state = ParseState.complete;
  header = frame_header id type metadata body;
  buffer = rest;
  metadata = metadata;
  body = body;
  complete = true;
}

module _ (id : ℕ) (type : MessageType) (metadata : Metadata) (body : Bytes)
    (s : IsSendable id metadata body) where
  open s use {id_fits, sorted, metadata_fits, body_fits}

  abbrev header : RpcFrameHeader
  header = frame_header id type metadata body

  pub lengths :
      (header.meta_length ≡ length (encode_metadata metadata))
      × (header.body_length ≡ length body)
      × (header.total_length ≡ 32 + length (encode_metadata metadata) + length body)
  unfolding frame_header
  lengths = omega arith

  header-InRange : InRange header
  unfolding frame_header
  header-InRange = omega (arith, byte_fits type)

  header-accepted : validate_header header ≡ ok
  unfolding frame_header
  header-accepted = (validate_header-ok_iff header).1 (record {
    magic_is = refl;
    version_is = refl;
    uncompressed = refl;
    protobuf = refl;
    reserved_is = refl;
    type_is = (type, refl);
    meta_fits = omega arith;
    body_fits = omega arith;
    total_is = omega arith;
  })

  pub decoded : (rest : Bytes) → decode_header (encode_header header ++ rest) ≡ (ok, header)
  decoded rest =
      decode_header-encode_header header rest header-InRange ∙ ap (λ r. (r, header)) header-accepted

  module _ (q : FrameParser) (rest : Bytes) (head : q.header ≡ header)
      (no_metadata : q.metadata ≡ []) (no_body : q.body ≡ [])
      (payload : q.buffer ≡ encode_metadata metadata ++ (body ++ rest)) where
    metadata_parsed : parse_metadata q ≡ done (ok, metadata)
    unfolding parse_metadata
    metadata_parsed = elim (Bool-cases (ltb 0 (length (encode_metadata metadata)))) [
      | inl some ↦
          rw (head, lengths.0, some, payload, no_metadata)
            (decode_metadata_inverse metadata (body ++ rest) sorted
              (Fits-of_length metadata (omega arith)))
      | inr none ↦
          rw (head, lengths.0, none, no_metadata)
            (ap (λ m. done (ok, m)) (sym (empty_of_length metadata (ground arith))))
    ]

    enough :
        length (encode_metadata metadata) + length body
        ≤ length (encode_metadata metadata ++ (body ++ rest))
    enough =
        omega
          (arith, length-append (encode_metadata metadata) (body ++ rest), length-append body rest)

    body_parsed : parse_body q ≡ done body
    unfolding parse_body assign_range
    body_parsed = elim (Bool-cases (ltb 0 (length body))) [
      | inl some ↦ rw (
        head,
        lengths.0,
        lengths.1,
        some,
        payload,
        le→ltb (length (encode_metadata metadata ++ (body ++ rest)))
            (length (encode_metadata metadata) + length body) enough,
        drop-append_left (encode_metadata metadata) (body ++ rest),
        take-append_left body rest,
      )
      | inr none ↦ rw (head, lengths.1, none, no_body) (ap done (empty_of_zero body none))
    ]

    payload_taken :
        feed_payload q
        ≡ done (
          record q {
            state = ParseState.complete;
            buffer = rest;
            metadata = metadata;
            body = body;
            complete = true;
          },
          ok,
        )
    unfolding feed_payload take_payload finish_payload
    payload_taken =
        let size : payload_length q ≡ length (encode_metadata metadata ++ body) = omega (
          arith,
          lengths,
          ap (λ h. h.total_length) head,
          length-append (encode_metadata metadata) body,
        ) in
        let arrived : ltb (length q.buffer) (payload_length q) ≡ false =
          le→ltb (length q.buffer) (payload_length q) (
            omega
              (arith, enough, ap length payload, length-append (encode_metadata metadata) body)) in
        let left : drop (payload_length q) q.buffer ≡ rest =
          ap₂ drop size (payload ∙ sym (append_assoc (encode_metadata metadata) body rest))
          ∙ drop-append_left (encode_metadata metadata ++ body) rest in
        rw (arrived, metadata_parsed, body_parsed)
          (ap
            (λ b. done (
              record q {
                state = ParseState.complete;
                buffer = b;
                metadata = metadata;
                body = body;
                complete = true;
              },
              ok,
            ))
            left)

  module _ (q : FrameParser) (rest : Bytes) (head : q.header ≡ header)
      (no_metadata : q.metadata ≡ []) (no_body : q.body ≡ [])
      (behind : drop 32 q.buffer ≡ encode_metadata metadata ++ (body ++ rest)) where
    no_payload :
        header.total_length ≡ 32
        → (metadata ≡ []) × (body ≡ []) × (encode_metadata metadata ++ (body ++ rest) ≡ rest)
    no_payload e =
        let m : metadata ≡ [] = empty_of_length metadata (omega (arith, lengths)) in
        let b : body ≡ [] = sym (empty_of_zero body (ground (arith, lengths))) in
        let none_encoded : encode_metadata metadata ≡ [] =
          sym (empty_of_zero (encode_metadata metadata) (ground (arith, lengths))) in
        (m, b, rw (none_encoded, b))

    after_header_sent : after_header q ≡ done (parsed id type metadata body rest, ok)
    unfolding after_header
    after_header_sent = elim (Bool-cases (header.total_length == fixed_header_size)) [
      | inl empty ↦
          let (m, b, whole) = no_payload (ground arith) in
          let total : q.header.total_length == fixed_header_size ≡ true = rw head empty in
          rw total (λ i. done (
            record {
              state = ParseState.complete;
              header = head i;
              buffer = (behind ∙ whole) i;
              metadata = (no_metadata ∙ sym m) i;
              body = (no_body ∙ sym b) i;
              complete = true;
            },
            ok,
          ))
      | inr more ↦
          let total : q.header.total_length == fixed_header_size ≡ false = rw head more in
          rw total (
            payload_taken (record q { state = ParseState.need_payload; buffer = drop 32 q.buffer })
              rest head no_metadata no_body behind
            ∙ ap (λ h. done (record (parsed id type metadata body rest) { header = h }, ok)) head)
    ]

  module _ (p : FrameParser) (rest : Bytes) (ready : IsReady p)
      (arrived : p.buffer ≡ encode_frame id type metadata body ++ rest) where
    split : p.buffer ≡ encode_header header ++ (encode_metadata metadata ++ (body ++ rest))
    unfolding encode_frame
    split =
        arrived
        ∙ append_assoc (encode_header header ++ encode_metadata metadata) body rest
        ∙ append_assoc (encode_header header) (encode_metadata metadata) (body ++ rest)

    behind_header : drop 32 p.buffer ≡ encode_metadata metadata ++ (body ++ rest)
    behind_header =
        ap₂ drop (sym (length-encode_header header)) split
        ∙ drop-append_left (encode_header header) _

    pub advance-encode_frame : advance p ≡ done (parsed id type metadata body rest, ok)
    unfolding advance feed_header accept_header
    advance-encode_frame =
        let size =
          length-append (encode_header header) (encode_metadata metadata ++ (body ++ rest)) in
        let long : ltb (length p.buffer) fixed_header_size ≡ false =
          le→ltb (length p.buffer) 32
            (omega (arith, size, ap length split, length-encode_header header)) in
        let accepted : accept_header p (decode_header p.buffer)
            ≡ done (parsed id type metadata body rest, ok) =
          ap (λ b. accept_header p (decode_header b)) split
          ∙ ap (accept_header p) (decoded (encode_metadata metadata ++ (body ++ rest)))
          ∙ after_header_sent (record p { header = header }) rest refl ready.no_metadata
              ready.no_body behind_header in
        ground (arith, long, accepted, ready.at_header)
