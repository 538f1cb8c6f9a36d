-- ===== src/Mcp/Session.antt =====
-- The life cycle of an MCP session, and the responses that a run writes.
use nexus_rpc.Common.{
  ◌≡◌, ◌≢◌, refl, arith, Bool, true, false, not, ◌&&◌, if◌then◌else◌, Bool-cases, inl, inr, ◌⊎◌,
}
use nexus_rpc.Common.{Bytes, [], ◌∷◌, Option, none, some}
use nexus_rpc.Common.ByteMap.{bytes_eq, find}
use nexus_rpc.Rpc.Message.{RpcResponse, CallResult, failure, value}
use nexus_rpc.Json.Value.{ℤ, JsonValue, Doubles}
use nexus_rpc.Json.Message.{
  JsonRpcRequest, JsonRpcResponse, Validated, accepted, refused, parse_request, serialize_message,
  response_value,
}
use nexus_rpc.Json.Message
use nexus_rpc.Rpc.Strings.{status_code_metadata_key}
use nexus_rpc.Json.Value.{get, to_text}
use nexus_rpc.Mcp.Registry.{find_tool}
use nexus_rpc.Mcp.Words.{arguments_key, name_key}
use nexus_rpc.Mcp.Server.{arguments_of}
use nexus_rpc.Json.Message.{success, serialize_response, serialize_error, serialize_parse_error}
use nexus_rpc.Mcp.Tool.{ToolDescriptor}
use nexus_rpc.Mcp.Words.{
  initialize_text, initialized_text, ping_text, tools_list_text, tools_call_text,
}
use nexus_rpc.Mcp.Convert.{
  Server, Converted, converted, unconverted, protobuf_to_json, json_to_protobuf,
}
use nexus_rpc.Mcp.Server.{
  SessionState, uninitialized, initialized, shutdown, is_initialized, needs_session,
  handle_initialize,
}
use nexus_rpc.Mcp.Server.{
  handle_ping, handle_tools_list, handle_tools_call, dispatch, respond_converted, respond_checked,
  respond_called, call_encoded, call_found, call_named,
}

-- The session is initialized by the first `initialize`, and by nothing else.
abbrev pub next_state : SessionState → Bytes → SessionState
next_state uninitialized method =
    if bytes_eq method initialize_text then initialized else uninitialized
next_state state method = state

module _ {D : Type 0} (server : Server D) where
  -- Every request moves the session as `next_state` says: only an `initialize` in a session that is
  -- not initialized changes it, whatever the backend answers.
  pub dispatch-next_state :
      (call : Bytes → Bytes → Bytes → CallResult) (state : SessionState) (request : JsonRpcRequest)
      → (dispatch server call state request).1 ≡ next_state state request.method
  unfolding dispatch handle_initialize
  dispatch-next_state call uninitialized request = ground arith
  dispatch-next_state call initialized request = ground arith
  dispatch-next_state call shutdown request = ground arith

  -- In a session that is not initialized no request reaches the backend: the response does not depend
  -- on what a call would give.
  pub dispatch_without_session :
      (call call' : Bytes → Bytes → Bytes → CallResult) (state : SessionState)
      (request : JsonRpcRequest)
      → state ≢ initialized
      → dispatch server call state request ≡ dispatch server call' state request
  unfolding dispatch
  dispatch_without_session call call' uninitialized request h = ground arith
  dispatch_without_session call call' initialized request h = absurd (h refl)
  dispatch_without_session call call' shutdown request h = ground arith

-- The text is a response to this id, with a result or an error and never both.
pub record Responds (lib : Doubles) (id : JsonValue) (text : Bytes) : Type 0 where
  pub response : JsonRpcResponse
  pub printed : text ≡ serialize_message lib response
  pub same_id : response.id ≡ id
  pub one_outcome :
      ((response.error ≡ none) × (response.result ≢ none))
      ⊎ ((response.result ≡ none) × (response.error ≢ none))

result-Responds :
    (lib : Doubles) (id result : JsonValue) → Responds lib id (serialize_response lib id result)
unfolding serialize_response
result-Responds lib id result = record {
  response = success id result;
  printed = refl;
  same_id = refl;
  one_outcome = inl (refl, λ h. cc);
}

error-Responds :
    (lib : Doubles) (id : JsonValue) (code : ℤ) (message : Bytes)
    → Responds lib id (serialize_error lib id code message none)
unfolding serialize_error
error-Responds lib id code message = record {
  response = Message.failure id code message none;
  printed = refl;
  same_id = refl;
  one_outcome = inr (refl, λ h. cc);
}

module _ {D : Type 0} (server : Server D) where
  converted-Responds :
      (id : JsonValue) (c : Converted JsonValue)
      → Responds server.lib id (respond_converted server id c)
  converted-Responds id (unconverted status) = error-Responds server.lib id _ _
  converted-Responds id (converted json) = result-Responds server.lib id _

  checked-Responds :
      (id : JsonValue) (tool : ToolDescriptor D) (response : RpcResponse) (code : Option Bytes)
      → Responds server.lib id (respond_checked server id tool response code)
  checked-Responds id tool response none = converted-Responds id _
  checked-Responds id tool response (some code) = elim (Bool-cases (bytes_eq code (48 ∷ []))) [
    | inl e ↦
        rw e
          (converted-Responds id (protobuf_to_json server response.body tool.response_descriptor))
    | inr e ↦ rw e (error-Responds server.lib id _ _)
  ]

  called-Responds :
      (id : JsonValue) (tool : ToolDescriptor D) (result : CallResult)
      → Responds server.lib id (respond_called server id tool result)
  called-Responds id tool (failure status) = error-Responds server.lib id _ _
  called-Responds id tool (value response) =
      checked-Responds id tool response (find status_code_metadata_key response.metadata)

  module _ (call : Bytes → Bytes → Bytes → CallResult) where
    encoded-Responds :
        (id : JsonValue) (tool : ToolDescriptor D) (c : Converted Bytes)
        → Responds server.lib id (call_encoded server call id tool c)
    encoded-Responds id tool (unconverted status) = error-Responds server.lib id _ _
    encoded-Responds id tool (converted body) =
        called-Responds id tool (call tool.service_name tool.method_name body)

    found-Responds :
        (request : JsonRpcRequest) (name : Bytes) (tool : Option (ToolDescriptor D))
        → Responds server.lib request.id (call_found server call request name tool)
    found-Responds request name none = error-Responds server.lib request.id _ _
    found-Responds request name (some tool) = encoded-Responds request.id tool (
        json_to_protobuf server (arguments_of (get arguments_key request.params))
          tool.request_descriptor)

    named-Responds :
        (request : JsonRpcRequest) (name : Option JsonValue)
        → Responds server.lib request.id (call_named server call request name)
    named-Responds request none = error-Responds server.lib request.id _ _
    named-Responds request (some name) =
        found-Responds request (to_text name) (find_tool (to_text name) server.registry)

    handle_initialize-Responds :
        (state : SessionState) (request : JsonRpcRequest)
        → Responds server.lib request.id (handle_initialize server state request).0
    unfolding handle_initialize
    handle_initialize-Responds uninitialized request = result-Responds server.lib request.id _
    handle_initialize-Responds initialized request = error-Responds server.lib request.id _ _
    handle_initialize-Responds shutdown request = error-Responds server.lib request.id _ _

    -- A test that decides between two responses.
    either-Responds :
        {S : Type 0} (id : JsonValue) (b : Bool) (x y : Bytes × S)
        → Responds server.lib id x.0
        → Responds server.lib id y.0
        → Responds server.lib id (if b then x else y).0
    either-Responds id true x y p q = p
    either-Responds id false x y p q = q

    -- Every request but `notifications/initialized` gets a response, with its id and with a result or
    -- an error and never both, in every state of the session and whatever the backend answers.
    pub dispatch-Responds :
        (state : SessionState) (request : JsonRpcRequest)
        → bytes_eq request.method initialized_text ≡ false
        → Responds server.lib request.id (dispatch server call state request).0
    unfolding dispatch handle_ping handle_tools_list handle_tools_call
    dispatch-Responds state request h =
        either-Responds request.id (needs_session request.method && not (is_initialized state)) _ _
          (error-Responds server.lib request.id _ _)
          (either-Responds request.id (bytes_eq request.method initialize_text) _ _
            (handle_initialize-Responds state request)
            (rw h (
              either-Responds request.id (bytes_eq request.method ping_text) _ _
                (result-Responds server.lib request.id _)
                (either-Responds request.id (bytes_eq request.method tools_list_text) _ _
                  (result-Responds server.lib request.id _)
                  (either-Responds request.id (bytes_eq request.method tools_call_text) _ _
                    (named-Responds request (get name_key request.params))
                    (error-Responds server.lib request.id _ _))))))
