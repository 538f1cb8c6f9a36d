-- ===== src/Rpc/Response.antt =====
-- The responses of src/rpc/rpc_server.cpp: `makeResponseFrame`.
use nexus_rpc.Common.{ℕ, Bool, ◌&&◌, leb, ltb, not, if◌then◌else◌, Bytes, [], length}
use nexus_rpc.Common.ByteMap.{set}
use nexus_rpc.Frame.Constants.{MessageType, max_body_length, max_metadata_length}
use nexus_rpc.Frame.Metadata.{Metadata, encode_metadata}
use nexus_rpc.Frame.Encode.{encode_frame}
use nexus_rpc.Rpc.Strings.{
  status_code_metadata_key, status_message_metadata_key, response_exceeds_limits,
}
use nexus_rpc.Rpc.Message.{StatusCode, status_code_value, Status, RpcResponse}
use nexus_rpc.Rpc.Decimal.{to_string}

unfoldable pub status_code_to_string : StatusCode → Bytes
status_code_to_string code = to_string (status_code_value code)

unfoldable pub is_frame_encodable : Metadata → Bytes → Bool
is_frame_encodable metadata body =
    leb (length body) max_body_length && leb (length (encode_metadata metadata)) max_metadata_length

-- The first assignments: the status joins the metadata of the application.
unfoldable pub with_status : RpcResponse → RpcResponse
with_status response =
    let metadata =
      set status_code_metadata_key (status_code_to_string response.status.code) response.metadata in
    record response {
      metadata =
          if ltb 0 (length response.status.message)
          then set status_message_metadata_key response.status.message metadata
          else metadata;
    }

-- The response that stands for one that is too large.
abbrev pub limit_status : Status
limit_status = record { code = StatusCode.resource_exhausted; message = response_exceeds_limits }

unfoldable pub limit_response : RpcResponse
limit_response =
    let metadata = set status_code_metadata_key (status_code_to_string limit_status.code) [] in
    record {
      status = limit_status;
      metadata = set status_message_metadata_key limit_status.message metadata;
      body = [];
    }

-- The response that is sent.
unfoldable pub sent_response : RpcResponse → RpcResponse
sent_response response =
    let tagged = with_status response in
    if not (is_frame_encodable tagged.metadata tagged.body) then limit_response else tagged

unfoldable pub make_response_frame : ℕ → RpcResponse → Bytes
make_response_frame request_id response =
    let sent = sent_response response in
    encode_frame request_id MessageType.response sent.metadata sent.body
