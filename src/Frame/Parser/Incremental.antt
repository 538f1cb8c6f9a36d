-- ===== src/Frame/Parser/Incremental.antt =====
-- How `feed` treats a frame that arrives in parts.
use nexus_rpc.Common.{ℕ, ◌≤◌, ◌≡◌, ◌≢◌, refl, ap, ◌∙◌, arith, Bool-cases, inl, inr, ◌⊎◌}
use nexus_rpc.Common.{Bytes, ◌++◌, length, drop, ltb, append_assoc, length-append, false}
use nexus_rpc.Common.{drop-append_le, le→ltb, ◌==◌}
use nexus_rpc.Common.Outcome.{Outcome, done, out_of_bounds, out_of_fuel, refused, ◌>>=◌}
use nexus_rpc.Frame.Constants.{
  need_header, need_payload, RpcFrameHeader, ok, need_more_data, ParseState, ParseResult,
  fixed_header_size,
}
use nexus_rpc.Frame.Header.{decode_header, validate_header, read_header}
use nexus_rpc.Frame.Header.Prefix.{decode_header-append, validate_header-ne-need_more_data}
use nexus_rpc.Frame.Metadata.{Metadata, decode_metadata}
use nexus_rpc.Frame.Metadata.Reads.{decode_metadata-IsAnswer}
use nexus_rpc.Frame.Parser.{FrameParser, Fed, bytes, parse_metadata}
use nexus_rpc.Frame.Parser.{
  finish_payload, accept_header, payload_length, feed_payload, take_payload, after_header,
  feed_header, advance, feed,
}

-- The parser with more bytes behind its buffer.
abbrev pub with_more : FrameParser → Bytes → FrameParser
with_more p ys = record p { buffer = p.buffer ++ ys }

-- A run does not ask for more data.
abbrev Settled : Fed → Type 0
Settled o = (p' : FrameParser) → o ≢ done (p', need_more_data)

parse_metadata-ne-need_more_data :
    (p : FrameParser) (m : Metadata) → parse_metadata p ≢ done (need_more_data, m)
unfolding parse_metadata
parse_metadata-ne-need_more_data p m e = elim (Bool-cases (ltb 0 p.header.meta_length)) [
  | inl some ↦
      let e' : decode_metadata p.buffer p.header.meta_length p.metadata ≡ done (need_more_data, m) =
        ground arith in
      ground (arith, decode_metadata-IsAnswer p.buffer p.header.meta_length p.metadata e')
  | inr none ↦ ground arith
]

finish_payload-Settled :
    (p : FrameParser) (n : ℕ) (r : ParseResult) (m : Metadata)
    → r ≢ need_more_data
    → Settled (finish_payload p n (r, m))
unfolding finish_payload
finish_payload-Settled p n ParseResult.ok m h p' e = ground arith
finish_payload-Settled p n other m h p' e = ground arith

bind-Settled :
    (o : Outcome (ParseResult × Metadata)) (f : ParseResult × Metadata → Fed)
    → ((m : Metadata) → o ≢ done (need_more_data, m))
    → ((r : ParseResult) (m : Metadata) → r ≢ need_more_data → Settled (f (r, m)))
    → Settled (o >>= f)
bind-Settled (done (r, m)) f h k p' e = k r m (λ e'. h m (cc)) p' e
bind-Settled refused f h k p' e = cc
bind-Settled out_of_bounds f h k p' e = cc
bind-Settled out_of_fuel f h k p' e = cc

take_payload-Settled : (p : FrameParser) (n : ℕ) → Settled (take_payload p n)
unfolding take_payload
take_payload-Settled p n =
    bind-Settled (parse_metadata p) _ (parse_metadata-ne-need_more_data p)
      (finish_payload-Settled p n)

-- A payload that has not arrived is waited for with the parser as it is.
feed_payload_waits :
    (p : FrameParser) {p' : FrameParser} → feed_payload p ≡ done (p', need_more_data) → p' ≡ p
unfolding feed_payload
feed_payload_waits p {p'} e = elim (Bool-cases (ltb (length p.buffer) (payload_length p))) [
  | inl waiting ↦ ground arith
  | inr arrived ↦ absurd (take_payload-Settled p (payload_length p) p' (ground arith))
]

abbrev payload_parser : FrameParser → RpcFrameHeader → FrameParser
payload_parser p header = record p {
  state = need_payload;
  header = header;
  buffer = drop fixed_header_size p.buffer;
}

-- What a header that was followed by too few bytes leaves.
accept_header_waits :
    (p : FrameParser) (r : ParseResult) (header : RpcFrameHeader) {p' : FrameParser}
    → r ≢ need_more_data
    → accept_header p (r, header) ≡ done (p', need_more_data)
    → (r ≡ ok) × (header.total_length ≢ fixed_header_size) × (p' ≡ payload_parser p header)
unfolding accept_header after_header
accept_header_waits p ParseResult.ok header {p'} h e =
    elim (Bool-cases (header.total_length == fixed_header_size)) [
      | inl empty ↦ absurd (ground arith)
      | inr more ↦ (refl, ground arith, feed_payload_waits (payload_parser p header) (ground arith))
    ]
accept_header_waits p other header {p'} h e = absurd (ground arith)

ParseState-cases :
    (s : ParseState) → (s ≡ need_header) ⊎ (s ≡ need_payload) ⊎ (s ≡ ParseState.complete)
ParseState-cases ParseState.need_header = inl refl
ParseState-cases ParseState.need_payload = inr (inl refl)
ParseState-cases ParseState.complete = inr (inr refl)

module _ (p : FrameParser) {p' : FrameParser} (ys : Bytes) where
  feed_payload_resumes :
      p.state ≡ need_payload
      → feed_payload p ≡ done (p', need_more_data)
      → (advance (with_more p' ys) ≡ feed_payload (with_more p ys)) × (p'.complete ≡ p.complete)
  unfolding advance
  feed_payload_resumes st e =
      let same : p' ≡ p = feed_payload_waits p e in rw same (ground arith, refl)

  feed_header_resumes :
      p.state ≡ need_header
      → feed_header p ≡ done (p', need_more_data)
      → (advance (with_more p' ys) ≡ feed_header (with_more p ys)) × (p'.complete ≡ p.complete)
  unfolding feed_header advance decode_header accept_header after_header
  feed_header_resumes st e = elim (Bool-cases (ltb (length p.buffer) fixed_header_size)) [
    | inl waiting ↦ let same : p' ≡ p = ground arith in rw same (ground arith, refl)
    | inr arrived ↦
        let header = read_header p.buffer in
        let (valid, more, same) =
          accept_header_waits p (validate_header header) header {p' = p'}
            (validate_header-ne-need_more_data header) (ground arith) in
        let long : 32 ≤ length p.buffer = ground arith in
        let longer : ltb (length (p.buffer ++ ys)) fixed_header_size ≡ false =
          le→ltb (length (p.buffer ++ ys)) 32 (omega (arith, length-append p.buffer ys)) in
        let total : header.total_length == fixed_header_size ≡ false = ground arith in
        rw same (
          rw (
            longer,
            decode_header-append p.buffer ys long,
            decode_header,
            valid,
            total,
            drop-append_le 32 p.buffer ys long,
          ),
          refl,
        )
  ]

  pub advance_resumes :
      advance p ≡ done (p', need_more_data)
      → (advance (with_more p' ys) ≡ advance (with_more p ys)) × (p'.complete ≡ p.complete)
  unfolding advance
  advance_resumes e = elim (ParseState-cases p.state) [
    | inl st ↦ ground (arith, feed_header_resumes st)
    | inr (inl st) ↦ ground (arith, feed_payload_resumes st)
    | inr (inr st) ↦ absurd (ground arith)
  ]

-- Bytes that arrive in two calls are parsed like bytes that arrive in one: while the parser asks for
-- more data, it makes no difference where the stream was cut.
pub feed_resumes :
    (p : FrameParser) {p' : FrameParser} (xs ys : Bytes)
    → feed p (bytes xs) ≡ done (p', need_more_data)
    → feed p' (bytes ys) ≡ feed p (bytes (xs ++ ys))
unfolding feed advance
feed_resumes p {p'} xs ys e = elim (Bool-cases p.complete) [
  | inl full ↦ absurd (ground arith)
  | inr open_parser ↦
      let waits : advance (with_more p xs) ≡ done (p', need_more_data) = ground arith in
      let (resumes, kept) = advance_resumes (with_more p xs) ys waits in
      rw (kept ∙ open_parser, open_parser, resumes)
        (ap (λ b. advance (record p { buffer = b })) (append_assoc p.buffer xs ys))
]
