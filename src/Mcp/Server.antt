-- ===== src/Mcp/Server.antt =====
-- The MCP server of src/mcp/mcp_server.cpp: the session, the methods and the loop over lines. What is
-- written to the standard error stream is left out.
use nexus_rpc.Common.{Bool, true, false, ◌&&◌, not, if◌then◌else◌}
use nexus_rpc.Common.{Bytes, List, [], ◌∷◌, ◌++◌, Option, none, some}
use nexus_rpc.Common.ByteMap.{bytes_eq, find}
use nexus_rpc.Rpc.Strings.{status_code_metadata_key, status_message_metadata_key}
use nexus_rpc.Rpc.Message.{StatusCode, RpcResponse, CallResult, failure, value}
use nexus_rpc.Json.Value.{ℤ, negsuc, JsonValue, Elements, bool, string, object, array}
use nexus_rpc.Json.Value.{no_members, no_elements, element, Doubles, set_member, get, to_text}
use nexus_rpc.Json.Print.{serialize}
use nexus_rpc.Json.Message.{JsonRpcRequest, Validated, accepted, refused, parse_request}
use nexus_rpc.Json.Message.{serialize_response, serialize_error, serialize_parse_error}
use nexus_rpc.Json.Message.{invalid_request, method_not_found, invalid_params, internal_error}
use nexus_rpc.Mcp.Tool.{ToolDescriptor, build_tool_schema}
use nexus_rpc.Mcp.Registry.{list_tools, find_tool}
use nexus_rpc.Mcp.Words.{
  initialize_text, initialized_text, ping_text, tools_list_text, tools_call_text,
}
use nexus_rpc.Mcp.Words.{
  not_initialized, already_initialized, unknown_method, list_changed_key, tools_key,
}
use nexus_rpc.Mcp.Words.{
  protocol_version_key, protocol_version, server_info_key, name_key, version_key,
}
use nexus_rpc.Mcp.Words.{
  capabilities_key, arguments_key, no_name, tool_not_found, arguments_failed, call_failed,
}
use nexus_rpc.Mcp.Words.{
  handler_failed, response_failed, type_key, text_key, content_key, structured_content_key,
}
use nexus_rpc.Mcp.Convert.{
  Converted, converted, unconverted, Server, json_to_protobuf, protobuf_to_json,
}

-- `McpSession::State`; `kShutdown` is never set.
pub data SessionState : Type 0 where
  uninitialized initialized shutdown : SessionState

-- -32001 and -32002.
abbrev pub deadline_code : ℤ
deadline_code = negsuc 32000

abbrev pub unavailable_code : ℤ
unavailable_code = negsuc 32001

-- The code for a call that failed.
abbrev pub mcp_code : StatusCode → ℤ
mcp_code StatusCode.not_found = method_not_found
mcp_code StatusCode.invalid_argument = invalid_params
mcp_code StatusCode.deadline_exceeded = deadline_code
mcp_code StatusCode.unavailable = unavailable_code
mcp_code _ = internal_error

abbrev pub tool_result : Doubles → JsonValue → JsonValue
tool_result lib json =
    let item = object (
      set_member text_key (string (serialize lib json))
        (set_member type_key (string text_key) no_members)) in
    let content = array (element item no_elements) in
    object (set_member structured_content_key json (set_member content_key content no_members))

-- `detail`.
abbrev pub detail : Option Bytes → Bytes
detail none = handler_failed
detail (some message) = message

-- The members `arguments`, or an empty object.
abbrev pub arguments_of : Option JsonValue → JsonValue
arguments_of (some (object ms)) = object ms
arguments_of _ = object no_members

-- A line of the standard input: whether `stop` was called before it, and what the backend answers
-- while it is handled.
pub record Input : Type 0 where
  pub stopped : Bool
  pub line : Bytes
  pub call : Bytes → Bytes → Bytes → CallResult

-- A line of the standard output is written unless it is empty.
abbrev pub write_line : Bytes → List Bytes → List Bytes
write_line [] lines = lines
write_line (c ∷ response) lines = (c ∷ response) ∷ lines

abbrev pub is_initialized : SessionState → Bool
is_initialized initialized = true
is_initialized _ = false

abbrev pub needs_session : Bytes → Bool
needs_session method =
    not (bytes_eq method initialize_text) && not (bytes_eq method initialized_text)

module _ {D : Type 0} where
  abbrev pub initialize_result : Server D → JsonValue
  initialize_result server =
      let tools = object (set_member list_changed_key (bool false) no_members) in
      let capabilities = object (set_member tools_key tools no_members) in
      let info = object (
        set_member version_key (string server.server_version)
          (set_member name_key (string server.server_name) no_members)) in
      object (
        set_member capabilities_key capabilities (
          set_member server_info_key info
            (set_member protocol_version_key (string protocol_version) no_members)))

  -- `handleInitialize`: the session's state behind the response.
  unfoldable pub handle_initialize : Server D → SessionState → JsonRpcRequest → Bytes × SessionState
  handle_initialize server uninitialized request =
      (serialize_response server.lib request.id (initialize_result server), initialized)
  handle_initialize server state request =
      (serialize_error server.lib request.id invalid_request already_initialized none, state)

  unfoldable pub handle_ping : Server D → JsonRpcRequest → Bytes
  handle_ping server request = serialize_response server.lib request.id (object no_members)

  abbrev pub tool_schemas : List (ToolDescriptor D) → Elements
  tool_schemas [] = no_elements
  tool_schemas (tool ∷ tools) = element (build_tool_schema tool) (tool_schemas tools)

  unfoldable pub handle_tools_list : Server D → JsonRpcRequest → Bytes
  handle_tools_list server request =
      let tools = array (tool_schemas (list_tools server.registry)) in
      serialize_response server.lib request.id (object (set_member tools_key tools no_members))

  abbrev pub respond_converted : Server D → JsonValue → Converted JsonValue → Bytes
  respond_converted server id (unconverted status) =
      serialize_error server.lib id internal_error (response_failed ++ status.message) none
  respond_converted server id (converted json) =
      serialize_response server.lib id (tool_result server.lib json)

  -- The check of the status in the metadata, and the conversion of the body.
  abbrev pub respond_checked :
      Server D → JsonValue → ToolDescriptor D → RpcResponse → Option Bytes → Bytes
  respond_checked server id tool response none =
      respond_converted server id (protobuf_to_json server response.body tool.response_descriptor)
  respond_checked server id tool response (some code) =
      if bytes_eq code (48 ∷ [])
      then respond_converted server id
          (protobuf_to_json server response.body tool.response_descriptor)
      else serialize_error server.lib id internal_error
          (detail (find status_message_metadata_key response.metadata)) none

  abbrev pub respond_called : Server D → JsonValue → ToolDescriptor D → CallResult → Bytes
  respond_called server id tool (failure status) =
      serialize_error server.lib id (mcp_code status.code) (call_failed ++ status.message) none
  respond_called server id tool (value response) =
      respond_checked server id tool response (find status_code_metadata_key response.metadata)

  module _ (server : Server D) (call : Bytes → Bytes → Bytes → CallResult) where
    abbrev pub call_encoded : JsonValue → ToolDescriptor D → Converted Bytes → Bytes
    call_encoded id tool (unconverted status) =
        serialize_error server.lib id invalid_params (arguments_failed ++ status.message) none
    call_encoded id tool (converted body) =
        respond_called server id tool (call tool.service_name tool.method_name body)

    abbrev pub call_found : JsonRpcRequest → Bytes → Option (ToolDescriptor D) → Bytes
    call_found request name none =
        serialize_error server.lib request.id method_not_found (tool_not_found ++ name) none
    call_found request name (some tool) =
        let arguments = arguments_of (get arguments_key request.params) in
        call_encoded request.id tool (json_to_protobuf server arguments tool.request_descriptor)

    abbrev pub call_named : JsonRpcRequest → Option JsonValue → Bytes
    call_named request none = serialize_error server.lib request.id invalid_params no_name none
    call_named request (some name) =
        call_found request (to_text name) (find_tool (to_text name) server.registry)

    -- `handleToolsCall`; `call` is `RpcClient::call`.
    unfoldable pub handle_tools_call : JsonRpcRequest → Bytes
    handle_tools_call request = call_named request (get name_key request.params)

    -- The method of a request that passed the check of the session.
    abbrev pub handle : SessionState → JsonRpcRequest → Bytes × SessionState
    handle state request =
        if bytes_eq request.method initialize_text
        then handle_initialize server state request
        else if bytes_eq request.method initialized_text
        then ([], state)
        else if bytes_eq request.method ping_text
        then (handle_ping server request, state)
        else if bytes_eq request.method tools_list_text
        then (handle_tools_list server request, state)
        else if bytes_eq request.method tools_call_text
        then (handle_tools_call request, state)
        else (
          serialize_error server.lib request.id method_not_found (unknown_method ++ request.method)
              none,
          state,
        )

    -- `dispatch`: the response, which is empty for none, and the session's state.
    unfoldable pub dispatch : SessionState → JsonRpcRequest → Bytes × SessionState
    dispatch state request =
        if needs_session request.method && not (is_initialized state)
        then (serialize_error server.lib request.id unavailable_code not_initialized none, state)
        else handle state request

    abbrev pub reply : SessionState → Validated → Bytes × SessionState
    reply state (refused message) = (serialize_parse_error server.lib, state)
    reply state (accepted request) = dispatch state request

    -- The body of the loop in `run` on a line.
    unfoldable pub handle_line : SessionState → Bytes → Bytes × SessionState
    handle_line state [] = ([], state)
    handle_line state (c ∷ line) = reply state (parse_request server.lib (c ∷ line))

  -- `run`, up to the end of the input: the lines that it writes, and the session's state behind it.
  unfoldable pub run : Server D → SessionState → List Input → List Bytes × SessionState
  run server state [] = ([], state)
  run server state (input ∷ inputs) =
      let (response, next) = handle_line server input.call state input.line in
      let (lines, last) = run server next inputs in
      if input.stopped then ([], state) else (write_line response lines, last)
