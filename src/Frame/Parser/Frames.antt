-- ===== src/Frame/Parser/Frames.antt =====
-- `FrameParser` on the frames that `encodeFrame` wrote: one frame, and frames back to back.
use nexus_rpc.Common.{ℕ, ◌≡◌, refl, arith, Bytes, ◌++◌}
use nexus_rpc.Common.Outcome.{done}
use nexus_rpc.Frame.Constants.{MessageType, ok}
use nexus_rpc.Frame.Metadata.{Metadata}
use nexus_rpc.Frame.Encode.{encode_frame}
use nexus_rpc.Frame.Parser.{FrameParser, bytes, null, feed, reset}
use nexus_rpc.Frame.Parser.Sent.{IsReady, IsSendable, parsed, advance-encode_frame}

-- A parser at the start of a frame, whose buffer with the bytes fed to it is an encoded frame and
-- whatever follows it, answers `kOk`, has the frame's header, metadata and body, and keeps what
-- follows. The frame's identifier fits 64 bits, its metadata is in the order of a `std::map`, and its
-- metadata and body keep the limits of the protocol.
pub feed-encode_frame :
    (id : ℕ) (type : MessageType) (metadata : Metadata) (body : Bytes) (p : FrameParser)
    (xs rest : Bytes)
    → IsSendable id metadata body
    → IsReady p
    → p.buffer ++ xs ≡ encode_frame id type metadata body ++ rest
    → feed p (bytes xs) ≡ done (parsed id type metadata body rest, ok)
unfolding feed
feed-encode_frame id type metadata body p xs rest s r e =
    let q = record p { buffer = p.buffer ++ xs } in
    let at_start : IsReady q = record {
      at_header = r.at_header;
      no_metadata = r.no_metadata;
      no_body = r.no_body;
      open_parser = r.open_parser;
    } in
    ground (arith, advance-encode_frame id type metadata body s q rest at_start e, r.open_parser)

pub reset-IsReady : (p : FrameParser) → IsReady (reset p)
unfolding reset
reset-IsReady p = record {
  at_header = refl;
  no_metadata = refl;
  no_body = refl;
  open_parser = refl;
}

-- Where a parser's buffer is an encoded frame and whatever follows it, `reset` and an empty `feed`
-- parse this frame and keep what follows, whatever the parser held before. The frame keeps the limits
-- of `IsSendable`.
pub feed-reset :
    (id : ℕ) (type : MessageType) (metadata : Metadata) (body : Bytes) (p : FrameParser)
    (rest : Bytes)
    → IsSendable id metadata body
    → p.buffer ≡ encode_frame id type metadata body ++ rest
    → feed (reset p) (null 0) ≡ done (parsed id type metadata body rest, ok)
unfolding feed reset
feed-reset id type metadata body p rest s e =
    advance-encode_frame id type metadata body s (reset p) rest (reset-IsReady p) e
