-- ===== src/Json/Message.antt =====
-- The JSON-RPC layer: requests, responses and errors of include/nexus/mcp/json_rpc.h, with
-- `JsonRpcParser` and `JsonRpcSerializer` of src/mcp/json_rpc.cpp.
use nexus_rpc.Common.{ℕ, ◌+◌, ◌-◌, Bool, true, false, not, ◌||◌, if◌then◌else◌, ◌==◌}
use nexus_rpc.Common.{Bytes, [], ◌∷◌, ◌++◌, length, take, Option, none, some}
use nexus_rpc.Common.ByteMap.{bytes_eq}
use nexus_rpc.Rpc.Decimal.{digits_from}
use nexus_rpc.Json.Words.{
  jsonrpc_key, id_key, method_key, params_key, result_key, error_key, code_key, message_key,
  data_key,
}
use nexus_rpc.Json.Words.{
  version_text, parse_error_text, not_an_object, bad_version, bad_method, bad_id, bad_params,
}
use nexus_rpc.Json.Value.{
  ℤ, negsuc, JsonValue, Members, null, bool, integer, double, string, object, array,
}
use nexus_rpc.Json.Value.{no_members, Doubles, set_member, get, is_object, is_array}
use nexus_rpc.Json.Print.{serialize}
use nexus_rpc.Json.Lexer.{Parse, ok, failed, out_of_fuel}
use nexus_rpc.Json.Parser.{parse}

-- -32700, -32600, -32601, -32602 and -32603.
abbrev pub parse_error : ℤ
parse_error = negsuc 32699

abbrev pub invalid_request : ℤ
invalid_request = negsuc 32599

abbrev pub method_not_found : ℤ
method_not_found = negsuc 32600

abbrev pub invalid_params : ℤ
invalid_params = negsuc 32601

abbrev pub internal_error : ℤ
internal_error = negsuc 32602

-- `JsonRpcRequest`; params that are absent are `null`.
pub record JsonRpcRequest : Type 0 where
  pub method : Bytes
  pub id : JsonValue
  pub params : JsonValue

abbrev pub is_null : JsonValue → Bool
is_null null = true
is_null _ = false

-- `isNotification`.
abbrev pub is_notification : JsonRpcRequest → Bool
is_notification request = is_null request.id

pub record JsonRpcError : Type 0 where
  pub code : ℤ
  pub message : Bytes
  pub error_data : Option JsonValue

pub record JsonRpcResponse : Type 0 where
  pub id : JsonValue
  pub result : Option JsonValue
  pub error : Option JsonRpcError

-- `Success` and `Error`.
abbrev pub success : JsonValue → JsonValue → JsonRpcResponse
success id result = record { id = id; result = some result; error = none }

abbrev pub failure : JsonValue → ℤ → Bytes → Option JsonValue → JsonRpcResponse
failure id code message error_data = record {
  id = id;
  result = none;
  error = some (record { code = code; message = message; error_data = error_data });
}

-- A call of `set`, for a member that is there only sometimes.
abbrev pub set_optional : Bytes → Option JsonValue → Members → Members
set_optional key none ms = ms
set_optional key (some value) ms = set_member key value ms

abbrev pub error_members : JsonRpcError → Members
error_members e =
    set_optional data_key e.error_data
      (set_member message_key (string e.message) (set_member code_key (integer e.code) no_members))

abbrev pub head_members : JsonValue → Members
head_members id = set_member id_key id (set_member jsonrpc_key (string version_text) no_members)

abbrev pub set_error : Option JsonRpcError → Members → Members
set_error none ms = ms
set_error (some e) ms = set_member error_key (object (error_members e)) ms

-- The object that `JsonRpcResponse::serialize` prints.
unfoldable pub response_value : JsonRpcResponse → JsonValue
response_value r = object (set_error r.error (set_optional result_key r.result (head_members r.id)))

-- `JsonRpcError::serialize`.
unfoldable pub serialize_error_object : Doubles → JsonRpcError → JsonValue → Bytes
serialize_error_object lib e id =
    serialize lib (object (set_member error_key (object (error_members e)) (head_members id)))

-- `JsonRpcResponse::serialize`.
unfoldable pub serialize_message : Doubles → JsonRpcResponse → Bytes
serialize_message lib r = serialize lib (response_value r)

-- `serializeResponse`, `serializeError` and `serializeParseError` of `JsonRpcSerializer`.
unfoldable pub serialize_response : Doubles → JsonValue → JsonValue → Bytes
serialize_response lib id result = serialize_message lib (success id result)

unfoldable pub serialize_error : Doubles → JsonValue → ℤ → Bytes → Option JsonValue → Bytes
serialize_error lib id code message error_data =
    serialize_message lib (failure id code message error_data)

unfoldable pub serialize_parse_error : Doubles → Bytes
serialize_parse_error lib = serialize_message lib (failure null parse_error parse_error_text none)

-- A request, or `lastError()`.
pub data Validated : Type 0 where
  accepted : JsonRpcRequest → Validated
  refused : Bytes → Validated

abbrev pub names_version : Option JsonValue → Bool
names_version (some (string s)) = bytes_eq s version_text
names_version _ = false

abbrev pub read_method : Option JsonValue → Option Bytes
read_method (some (string s)) = some s
read_method _ = none

-- An absent id is `null`.
abbrev pub read_id : Option JsonValue → Option JsonValue
read_id none = some null
read_id (some null) = some null
read_id (some (string s)) = some (string s)
read_id (some (integer i)) = some (integer i)
read_id (some (double d)) = some (double d)
read_id (some (bool b)) = none
read_id (some (object ms)) = none
read_id (some (array es)) = none

abbrev pub read_params : Option JsonValue → Option JsonValue
read_params none = some null
read_params (some v) = if is_object v || is_array v then some v else none

-- Steps 5 and 6 of `parseRequest`.
abbrev pub with_method : Bytes → Option JsonValue → Option JsonValue → Validated
with_method method none params = refused bad_id
with_method method (some id) none = refused bad_params
with_method method (some id) (some params) =
    accepted (record { method = method; id = id; params = params })

abbrev pub validate_object : JsonValue → Option Bytes → Validated
validate_object root none = refused bad_method
validate_object root (some method) =
    with_method method (read_id (get id_key root)) (read_params (get params_key root))

-- Steps 2 to 6 of `parseRequest`.
unfoldable pub validate : JsonValue → Validated
validate root =
    if not (is_object root)
    then refused not_an_object
    else if not (names_version (get jsonrpc_key root))
    then refused bad_version
    else validate_object root (read_method (get method_key root))

-- `line_` and `col_` behind these bytes.
unfoldable pub position : Bytes → ℕ → ℕ → ℕ × ℕ
position [] line col = (line, col)
position (c ∷ s) line col =
    let newline = c == 10 in
    position s (if newline then line + 1 else line) (if newline then 1 else col + 1)

-- What `setError` writes.
unfoldable pub located : Bytes → Bytes → Bytes → Bytes
located text at message =
    let (line, col) = position (take (length text - length at) text) 1 1 in
    digits_from 20 line [] ++ (58 ∷ (digits_from 20 col [] ++ (58 ∷ 32 ∷ message)))

unfoldable pub validate_parsed : Bytes → Parse JsonValue → Validated
validate_parsed text (ok root rest) = validate root
validate_parsed text (failed at message) = refused (located text at message)
validate_parsed text out_of_fuel = refused []

-- `parseRequest`.
unfoldable pub parse_request : Doubles → Bytes → Validated
parse_request lib text = validate_parsed text (parse lib text)
