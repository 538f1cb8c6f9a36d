-- ===== src/Rpc/Server/Drain.antt =====
-- The loop of `onMessage` on frames that arrive back to back.
use nexus_rpc.Common.{
  ℕ, zero, suc, ◌+◌, ◌≤◌, ◌≡◌, refl, ap, ap₂, ◌∙◌, arith, true, false, not, if◌then◌else◌, leb, All,
}
use nexus_rpc.Common.{Bytes, List, [], ◌∷◌, ◌++◌, length, length-append, append_assoc, some}
use nexus_rpc.Common.Outcome.{done, ◌>>=◌}
use nexus_rpc.Common.ByteMap.{find}
use nexus_rpc.Frame.Constants.{MessageType, ok, need_more_data}
use nexus_rpc.Frame.Encode.{encode_frame, frame_header}
use nexus_rpc.Frame.Parser.{FrameParser, new_parser, null, bytes, feed, reset, advance, feed_header}
use nexus_rpc.Frame.Parser.Sent.{IsReady, IsSendable, parsed}
use nexus_rpc.Frame.Parser.Frames.{feed-encode_frame, feed-reset}
use nexus_rpc.Rpc.Strings.{service_metadata_key, method_metadata_key}
use nexus_rpc.Rpc.Message.{RpcRequest}
use nexus_rpc.Rpc.Server.{
  Connection, force_close, names, request_of, admit, drain, on_message, resume, serve,
}

-- A request that a client may send: its service and method stand in its metadata.
pub record IsCall (r : RpcRequest) : Type 0 where
  pub sendable : IsSendable r.request_id r.metadata r.body
  pub named :
      names (find service_metadata_key r.metadata) (find method_metadata_key r.metadata)
      ≡ some (r.service, r.method)

-- The frames of requests, back to back.
abbrev pub frames : List RpcRequest → Bytes
frames [] = []
frames (r ∷ rs) = encode_frame r.request_id MessageType.request r.metadata r.body ++ frames rs

-- There is room for `n` more requests.
pub record HasPlace (n : ℕ) (c : Connection) : Type 0 where
  pub working : c.stopping ≡ false
  pub pending_room : c.pending_requests + n ≤ 1024
  pub queue_room : length c.work_queue + n ≤ 8192

abbrev holding : RpcRequest → List RpcRequest → FrameParser
holding r rs = parsed r.request_id MessageType.request r.metadata r.body (frames rs)

-- The connection after these requests were taken.
abbrev pub taken : List RpcRequest → Connection → Connection
taken rs c = record c {
  parser = new_parser;
  pending_requests = c.pending_requests + length rs;
  work_queue = c.work_queue ++ rs;
}

admitted :
    (r : RpcRequest) (c : Connection) (n : ℕ)
    → HasPlace (suc n) c
    → admit r c ≡ record c {
      pending_requests = c.pending_requests + 1;
      work_queue = c.work_queue ++ (r ∷ []);
    }
unfolding admit
admitted r c n h =
    let pending : leb 1024 c.pending_requests ≡ false = ground (arith, h.pending_room) in
    let queued : leb 8192 (length c.work_queue) ≡ false = ground (arith, h.queue_room) in
    rw (pending, h.working, queued)

idle :
    (fuel : ℕ) (c : Connection)
    → drain fuel (record c { parser = new_parser }) ≡ done (record c { parser = new_parser })
unfolding drain
idle zero c = refl
idle (suc fuel) c = refl

-- Behind the last frame the parser has nothing left.
nothing_left :
    (r : RpcRequest) → feed (reset (holding r [])) (null 0) ≡ done (new_parser, need_more_data)
unfolding feed reset advance feed_header
nothing_left r = refl

next_frame :
    (r r' : RpcRequest) (rs : List RpcRequest)
    → IsCall r'
    → feed (reset (holding r (r' ∷ rs))) (null 0) ≡ done (holding r' rs, ok)
next_frame r r' rs i =
    feed-reset r'.request_id MessageType.request r'.metadata r'.body (holding r (r' ∷ rs))
      (frames rs) i.sendable refl

-- The connection when one request was taken, and its parser is `p`.
abbrev one_taken : RpcRequest → FrameParser → Connection → Connection
one_taken r p c = record c {
  parser = p;
  pending_requests = c.pending_requests + 1;
  work_queue = c.work_queue ++ (r ∷ []);
}

taken_again :
    (r : RpcRequest) (rs : List RpcRequest) (p : FrameParser) (c : Connection)
    → taken rs (one_taken r p c) ≡ taken (r ∷ rs) c
taken_again r rs p c =
    ap₂ (λ n q. record c { parser = new_parser; pending_requests = n; work_queue = q })
      (omega arith) (append_assoc c.work_queue (r ∷ []) rs)

-- One round of the loop takes the request of the frame in the parser.
one_round :
    (fuel : ℕ) (r : RpcRequest) (rs : List RpcRequest) (c : Connection) (n : ℕ)
    → IsCall r
    → HasPlace (suc n) c
    → drain (suc fuel) (record c { parser = holding r rs }) ≡ (
        feed (reset (holding r rs)) (null 0)
        >>= resume (drain fuel) (one_taken r (reset (holding r rs)) c))
unfolding drain request_of frame_header serve
one_round fuel r rs c n i h =
    let before = record c { parser = reset (holding r rs) } in
    let place : HasPlace (suc n) before = record {
      working = h.working;
      pending_room = h.pending_room;
      queue_room = h.queue_room;
    } in
    rw (i.named, admitted r before n place)

drain_frames :
    (fuel : ℕ) (r : RpcRequest) (rs : List RpcRequest) (c : Connection)
    → IsCall r
    → All IsCall rs
    → HasPlace (length (r ∷ rs)) c
    → length (r ∷ rs) ≤ fuel
    → drain fuel (record c { parser = holding r rs }) ≡ done (taken (r ∷ rs) c)
unfolding resume
drain_frames zero r rs c i is h enough = absurd (omega arith)
drain_frames (suc fuel) r [] c i is h enough =
    one_round fuel r [] c 0 i h
    ∙ ap (λ o. o >>= resume (drain fuel) (one_taken r (reset (holding r [])) c)) (nothing_left r)
    ∙ idle fuel (one_taken r new_parser c)
drain_frames (suc fuel) r (r' ∷ rs) c i (i', is) h enough =
    let later : HasPlace (length (r' ∷ rs)) (one_taken r (holding r' rs) c) = record {
      working = h.working;
      pending_room = omega (arith, h.pending_room);
      queue_room = omega (arith, h.queue_room, length-append c.work_queue (r ∷ []));
    } in
    one_round fuel r (r' ∷ rs) c (length (r' ∷ rs)) i h
    ∙ ap (λ o. o >>= resume (drain fuel) (one_taken r (reset (holding r (r' ∷ rs))) c))
        (next_frame r r' rs i')
    ∙ drain_frames fuel r' rs (one_taken r (holding r' rs) c) i' is later (omega arith)
    ∙ ap done (taken_again r (r' ∷ rs) (holding r' rs) c)

-- Where requests that a client may send, at least one, arrive back to back in one call on a connection
-- of the table whose parser is at the start of a frame with an empty buffer, and the limits leave room for all of them, each is put into the work queue once, in the order of
-- their arrival, and counted; nothing is sent, the connection stays as it was, and the parser is as
-- new. As many rounds of the loop as there are requests are enough.
pub on_message-frames :
    (fuel : ℕ) (r : RpcRequest) (rs : List RpcRequest) (c : Connection)
    → c.registered ≡ true
    → IsReady c.parser
    → c.parser.buffer ≡ []
    → IsCall r
    → All IsCall rs
    → HasPlace (length (r ∷ rs)) c
    → length (r ∷ rs) ≤ fuel
    → on_message fuel (frames (r ∷ rs)) c ≡ done (taken (r ∷ rs) c)
unfolding on_message resume
on_message-frames fuel r rs c registered ready empty i is h enough =
    let arrived : feed c.parser (bytes (frames (r ∷ rs))) ≡ done (holding r rs, ok) =
      feed-encode_frame r.request_id MessageType.request r.metadata r.body c.parser
        (frames (r ∷ rs)) (frames rs) i.sendable ready (rw empty refl) in
    let fed = feed c.parser (bytes (frames (r ∷ rs))) >>= resume (drain fuel) c in
    ap (λ known. if not known then done (force_close c) else fed) registered
    ∙ ap (λ o. o >>= resume (drain fuel) c) arrived
    ∙ drain_frames fuel r rs c i is h enough
