-- ===== src/Rpc/Client/Tests.antt =====
-- The theorems about the client at small inputs.
use nexus_rpc.Common.{false, ◌-◌, ◌^◌, ◌<◌, ◌≡◌, ◌≢◌, arith, [], ◌∷◌, ◌++◌, if◌then◌else◌}
use nexus_rpc.Common.Outcome.{done}
use nexus_rpc.Rpc.Message.{RpcResponse, Status, not_found, unavailable, failure}
use nexus_rpc.Rpc.Response.{make_response_frame, is_frame_encodable, with_status, limit_status}
use nexus_rpc.Rpc.Client.{receive, next_request_id}
use nexus_rpc.Rpc.Client.RequestId.{after_calls, request_ids-differ}
use nexus_rpc.Rpc.Client.Reply.{receive-make_response_frame}

-- No such method, with an entry "a" = "b" of the application.
abbrev missing : RpcResponse
missing = record {
  status = record { code = not_found; message = 110 ∷ 111 ∷ [] };
  metadata = (97 ∷ [], 98 ∷ []) ∷ [];
  body = 1 ∷ 2 ∷ [];
}

abbrev gone : Status
gone = record { code = unavailable; message = [] }

receive-make_response_frame_example :
    receive gone 5 (make_response_frame 5 missing ++ 9 ∷ [])
    ≡ done (
      if is_frame_encodable (with_status missing).metadata missing.body
          then failure missing.status
          else failure limit_status,
      false,
    )
receive-make_response_frame_example =
    receive-make_response_frame 5 missing (tt, tt) gone (9 ∷ []) (omega arith)

-- The counter wraps around between these two calls.
request_ids-differ_example :
    (0 < (next_request_id (after_calls 1 (2 ^ 64 - 1))).0)
    × ((next_request_id (after_calls 1 (2 ^ 64 - 1))).0
        ≢ (next_request_id (after_calls 3 (2 ^ 64 - 1))).0)
request_ids-differ_example =
    request_ids-differ (2 ^ 64 - 1) 1 3 (omega arith) (omega arith) (omega arith) (omega arith)
