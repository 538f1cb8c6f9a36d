-- ===== src/Frame/Parser/Chunks.antt =====
-- A frame that arrives in any number of parts.
use nexus_rpc.Common.{ℕ, ◌≤◌, ◌<◌, ◌≡◌, ◌≢◌, refl, sym, ap, ◌∙◌, arith, List, [], ◌∷◌, ◌++◌, Bytes}
use nexus_rpc.Common.{
  length, length-append, append_assoc, append-nil, Bool-cases, inl, inr, ◌^◌, ◌==◌, true, false,
  ltb, lt→ltb, drop, length-drop,
}
use nexus_rpc.Common.Outcome.{done, ◌>>=◌}
use nexus_rpc.Frame.Constants.{
  MessageType, RpcFrameHeader, need_header, need_payload, ok, need_more_data, ParseResult,
  fixed_header_size,
}
use nexus_rpc.Frame.Header.{decode_header, encode_header}
use nexus_rpc.Frame.Metadata.{Metadata, encode_metadata}
use nexus_rpc.Frame.Encode.{encode_frame, frame_header}
use nexus_rpc.Frame.Header.RoundTrip.{length-encode_header}
use nexus_rpc.Frame.Header.Prefix.{decode_header-append}
use nexus_rpc.Frame.Parser.{
  FrameParser, Fed, payload_length, bytes, feed, advance, feed_header, accept_header, after_header,
  feed_payload, payload_length,
}
use nexus_rpc.Frame.Parser.Sent.{IsReady, IsSendable, parsed, decoded, lengths}
use nexus_rpc.Frame.Parser.Frames.{feed-encode_frame}
use nexus_rpc.Frame.Parser.Incremental.{feed_resumes}

-- The caller's loop over the parts that arrive: it goes on while more data is asked for.
pub feed_all : FrameParser → List Bytes → Fed
feed_all p [] = done (p, need_more_data)
feed_all p (chunk ∷ chunks) = feed p (bytes chunk) >>= λ (p', r). elim r [
  | ParseResult.need_more_data ↦ feed_all p' chunks
  | other ↦ done (p', other)
]

abbrev pub concat : List Bytes → Bytes
concat [] = []
concat (c ∷ cs) = c ++ concat cs

length-encode_frame :
    (id : ℕ) (type : MessageType) (metadata : Metadata) (body : Bytes)
    → IsSendable id metadata body
    → length (encode_frame id type metadata body)
      ≡ (frame_header id type metadata body).total_length
unfolding encode_frame
length-encode_frame id type metadata body s =
    let header = frame_header id type metadata body in
    omega (
      arith,
      lengths id type metadata body s,
      length-append (encode_header header ++ encode_metadata metadata) body,
      length-append (encode_header header) (encode_metadata metadata),
      length-encode_header header,
    )

positive : {A : Type 0} (xs : List A) → xs ≢ [] → 0 < length xs
positive [] h = absurd (h refl)
positive (x ∷ xs) h = omega arith

append-ne-nil : (xs ys : Bytes) → ys ≢ [] → xs ++ ys ≢ []
append-ne-nil [] ys ne e = ne e
append-ne-nil (x ∷ xs) ys ne e = cc

module _ (id : ℕ) (type : MessageType) (metadata : Metadata) (body : Bytes)
    (s : IsSendable id metadata body) where
  header : RpcFrameHeader
  header = frame_header id type metadata body

  module _ (q : FrameParser) (rest : Bytes) (ne : rest ≢ [])
      (e : q.buffer ++ rest ≡ encode_frame id type metadata body) where
    short : length q.buffer < header.total_length
    unfolding header
    short = omega (
      arith,
      ap length e,
      length-append q.buffer rest,
      positive rest ne,
      length-encode_frame id type metadata body s,
    )

    small : header.total_length < 2 ^ 32
    unfolding header
    small = omega (arith, lengths id type metadata body s, s)

    header_arrived : 32 ≤ length q.buffer → decode_header q.buffer ≡ (ok, header)
    unfolding header encode_frame
    header_arrived h =
        sym (decode_header-append q.buffer rest h)
        ∙ ap decode_header (e ∙ append_assoc (encode_header header) (encode_metadata metadata) body)
        ∙ decoded id type metadata body s (encode_metadata metadata ++ body)

    advance_prefix :
        q.state ≡ need_header → (p' : FrameParser) × (advance q ≡ done (p', need_more_data))
    unfolding advance feed_header accept_header after_header feed_payload
    advance_prefix st = elim (Bool-cases (ltb (length q.buffer) fixed_header_size)) [
      | inl waiting ↦ (q, ground arith)
      | inr arrived ↦
          let long : 32 ≤ length q.buffer = ground arith in
          let head = header_arrived long in
          let p' = record q { state = need_payload; header = header; buffer = drop 32 q.buffer } in
          let waits : ltb (length (drop 32 q.buffer)) (payload_length p') ≡ true =
            lt→ltb _ _ (omega (arith, short, small, length-drop 32 q.buffer)) in
          let more : header.total_length == fixed_header_size ≡ false = ground (arith, short) in
          let accepted : accept_header q (decode_header q.buffer) ≡ done (p', need_more_data) =
            ap (accept_header q) head ∙ rw (more, waits) in
          (p', ground (arith, accepted))
    ]

module _ (id : ℕ) (type : MessageType) (metadata : Metadata) (body : Bytes) (p : FrameParser)
    (s : IsSendable id metadata body) (ready : IsReady p) (empty : p.buffer ≡ []) where
  -- A frame that has not arrived whole is waited for.
  feed_prefix :
      (xs rest : Bytes)
      → rest ≢ []
      → xs ++ rest ≡ encode_frame id type metadata body
      → (p' : FrameParser) × (feed p (bytes xs) ≡ done (p', need_more_data))
  unfolding feed
  feed_prefix xs rest ne e =
      let whole : (p.buffer ++ xs) ++ rest ≡ encode_frame id type metadata body = rw empty e in
      let (p', waits) =
        advance_prefix id type metadata body s (record p { buffer = p.buffer ++ xs }) rest ne whole
          ready.at_header in
      (p', ground (arith, waits, ready.open_parser))

  -- `feed_all` after the bytes `xs`, which were not enough.
  feed_all_rest :
      (chunks : List Bytes) (last xs : Bytes) (p' : FrameParser)
      → last ≢ []
      → xs ++ (concat chunks ++ last) ≡ encode_frame id type metadata body
      → feed p (bytes xs) ≡ done (p', need_more_data)
      → feed_all p' (chunks ++ last ∷ []) ≡ done (parsed id type metadata body [], ok)
  unfolding feed_all
  feed_all_rest [] last xs p' ne e waits =
      let whole : p.buffer ++ (xs ++ last) ≡ encode_frame id type metadata body ++ [] =
        rw empty (e ∙ sym (append-nil (encode_frame id type metadata body))) in
      rw (
        feed_resumes p xs last waits,
        feed-encode_frame id type metadata body p (xs ++ last) [] s ready whole,
      )
  feed_all_rest (c ∷ chunks) last xs p' ne e waits =
      let whole : (xs ++ c) ++ (concat chunks ++ last) ≡ encode_frame id type metadata body =
        append_assoc xs c (concat chunks ++ last)
        ∙ ap (λ t. xs ++ t) (sym (append_assoc c (concat chunks) last))
        ∙ e in
      let (p'', waits') =
        feed_prefix (xs ++ c) (concat chunks ++ last) (append-ne-nil (concat chunks) last ne)
          whole in
      rw (feed_resumes p xs c waits, waits')
        (feed_all_rest chunks last (xs ++ c) p'' ne whole waits')

  feed_nothing : feed p (bytes []) ≡ done (p, need_more_data)
  unfolding feed advance feed_header
  feed_nothing =
      let short : ltb (length (p.buffer ++ [])) fixed_header_size ≡ true =
        lt→ltb _ _ (omega (arith, length-append p.buffer [], ap length empty)) in
      let waits : feed p (bytes []) ≡ done (record p { buffer = p.buffer ++ [] }, need_more_data) =
        ground (arith, short, ready.open_parser, ready.at_header) in
      waits ∙ ap (λ b. done (record p { buffer = b }, need_more_data)) (append-nil p.buffer)

-- An encoded frame that reaches a parser in parts, wherever the stream was cut, is parsed like the
-- frame in one piece: no part but the last completes it, and the last leaves its header, metadata and
-- body, and an empty buffer. The parser is at the start of a frame with an empty buffer, the frame
-- keeps the limits of `IsSendable`, and the last part has a byte.
pub feed_all-encode_frame :
    (id : ℕ) (type : MessageType) (metadata : Metadata) (body : Bytes) (p : FrameParser)
    (chunks : List Bytes) (last : Bytes)
    → IsSendable id metadata body
    → IsReady p
    → p.buffer ≡ []
    → last ≢ []
    → concat chunks ++ last ≡ encode_frame id type metadata body
    → feed_all p (chunks ++ last ∷ []) ≡ done (parsed id type metadata body [], ok)
feed_all-encode_frame id type metadata body p chunks last s ready empty ne e =
    feed_all_rest id type metadata body p s ready empty chunks last [] p ne e
      (feed_nothing id type metadata body p s ready empty)
