-- ===== src/Rpc/Server.antt =====
-- `onMessage` and `enqueue` of src/rpc/rpc_server.cpp, for one connection.
-- Worker threads take requests from the queue between calls; they do not step inside one.
pub mod Drain
pub mod Tests
use nexus_rpc.Common.{
  ℕ, zero, suc, ◌+◌, ◌-◌, Bool, true, false, not, ◌||◌, if◌then◌else◌, ltb, leb, ◌==◌,
}
use nexus_rpc.Common.{Bytes, List, [], ◌∷◌, ◌++◌, length, Option, none, some}
use nexus_rpc.Common.Outcome.{Outcome, done, out_of_fuel, ◌>>=◌}
use nexus_rpc.Common.ByteMap.{find}
use nexus_rpc.Frame.Constants.{ParseResult, MessageType, message_type_byte}
use nexus_rpc.Frame.Parser.{FrameParser, null, bytes, feed, reset}
use nexus_rpc.Rpc.Strings.{service_metadata_key, method_metadata_key, lacks_service}
use nexus_rpc.Rpc.Strings.{too_many_in_flight, queue_full}
use nexus_rpc.Rpc.Message.{StatusCode, RpcRequest, RpcResponse}
use nexus_rpc.Rpc.Response.{make_response_frame}

abbrev pub max_pending_requests_per_connection : ℕ
max_pending_requests_per_connection = 1024

abbrev pub max_queued_requests : ℕ
max_queued_requests = 8192

-- What was called on the connection at the end.
pub data Ending : Type 0 where
  stays_open shut_down force_closed : Ending

-- Whether the connection is in the table, its state there, the work queue of all connections with
-- `stopping_`, and what was sent.
pub record Connection : Type 0 where
  pub registered : Bool
  pub parser : FrameParser
  pub pending_requests : ℕ
  pub work_queue : List RpcRequest
  pub stopping : Bool
  pub sent : List Bytes
  pub ending : Ending

-- `sendResponse` with a status and nothing else.
unfoldable pub send_status : ℕ → StatusCode → Bytes → Connection → Connection
send_status request_id code message c =
    let response : RpcResponse = record {
      status = record { code = code; message = message };
      metadata = [];
      body = [];
    } in
    record c { sent = c.sent ++ (make_response_frame request_id response ∷ []) }

-- The limits on requests; `fetch_add` and `fetch_sub` of the connection's counter.
unfoldable pub admit : RpcRequest → Connection → Connection
admit request c =
    let reject = send_status request.request_id StatusCode.resource_exhausted in
    if leb max_pending_requests_per_connection c.pending_requests
    then reject too_many_in_flight c
    else if c.stopping || leb max_queued_requests (length c.work_queue)
    then reject queue_full c
    else record c {
      pending_requests = c.pending_requests + 1;
      work_queue = c.work_queue ++ (request ∷ []);
    }

abbrev pub force_close : Connection → Connection
force_close c = record c { ending = force_closed }

-- The service and the method of a request, if both are there and not empty.
unfoldable pub names : Option Bytes → Option Bytes → Option (Bytes × Bytes)
names (some service) (some method) =
    if length service == 0 || length method == 0 then none else some (service, method)
names (some service) none = none
names none method = none

-- The request of a complete frame.
unfoldable pub request_of : FrameParser → Bytes × Bytes → RpcRequest
request_of p (service, method) = record {
  service = service;
  method = method;
  metadata = p.metadata;
  body = p.body;
  request_id = p.header.request_id;
}

-- After a call of `feed`: its result ends the connection, or the loop goes on.
unfoldable pub resume :
    (Connection → Outcome Connection) → Connection → FrameParser × ParseResult → Outcome Connection
resume again c (p, ParseResult.ok) = again (record c { parser = p })
resume again c (p, ParseResult.need_more_data) = again (record c { parser = p })
resume again c (p, other) = done (force_close (record c { parser = p }))

-- What is done with a request frame, whose service and method have been looked up.
unfoldable pub serve :
    (Connection → Outcome Connection) → Connection → Option (Bytes × Bytes) → Outcome Connection
serve again c none =
    let answered =
      send_status c.parser.header.request_id StatusCode.invalid_argument lacks_service c in
    done (record answered { ending = shut_down })
serve again c (some n) =
    let admitted = admit (request_of c.parser n) (record c { parser = reset c.parser }) in
    feed admitted.parser (null 0) >>= resume again admitted

-- The loop over complete frames. A round takes a frame of 32 bytes or more from the buffer.
unfoldable pub drain : ℕ → Connection → Outcome Connection
drain zero c = if c.parser.complete then out_of_fuel else done c
drain (suc fuel) c =
    let p = c.parser in
    let found =
      names (find service_metadata_key p.metadata) (find method_metadata_key p.metadata) in
    if not p.complete
    then done c
    else if not (p.header.msg_type == message_type_byte MessageType.request)
    then done (force_close c)
    else serve (drain fuel) c found

-- The whole handler, with the readable bytes of the connection's buffer.
unfoldable pub on_message : ℕ → Bytes → Connection → Outcome Connection
on_message fuel data_bytes c =
    let fed = feed c.parser (bytes data_bytes) >>= resume (drain fuel) c in
    if not c.registered then done (force_close c) else fed
