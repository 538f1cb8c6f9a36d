-- ===== src/Mcp/Words.antt =====
-- The methods, member names and messages of src/mcp/mcp_server.cpp, as bytes.
use nexus_rpc.Common.{Bytes, [], ◌∷◌}

-- `initialize`
abbrev pub initialize_text : Bytes
initialize_text = 105 ∷ 110 ∷ 105 ∷ 116 ∷ 105 ∷ 97 ∷ 108 ∷ 105 ∷ 122 ∷ 101 ∷ []

-- `notifications/initialized`
abbrev pub initialized_text : Bytes
initialized_text =
    110 ∷ 111 ∷ 116 ∷ 105 ∷ 102 ∷ 105 ∷ 99 ∷ 97 ∷ 116 ∷ 105 ∷ 111 ∷ 110 ∷ 115 ∷ 47 ∷ 105 ∷ 110 ∷ 105
    ∷ 116 ∷ 105 ∷ 97 ∷ 108 ∷ 105 ∷ 122 ∷ 101 ∷ 100 ∷ []

-- `ping`
abbrev pub ping_text : Bytes
ping_text = 112 ∷ 105 ∷ 110 ∷ 103 ∷ []

-- `tools/list`
abbrev pub tools_list_text : Bytes
tools_list_text = 116 ∷ 111 ∷ 111 ∷ 108 ∷ 115 ∷ 47 ∷ 108 ∷ 105 ∷ 115 ∷ 116 ∷ []

-- `tools/call`
abbrev pub tools_call_text : Bytes
tools_call_text = 116 ∷ 111 ∷ 111 ∷ 108 ∷ 115 ∷ 47 ∷ 99 ∷ 97 ∷ 108 ∷ 108 ∷ []

-- `Server not initialized`
abbrev pub not_initialized : Bytes
not_initialized =
    83 ∷ 101 ∷ 114 ∷ 118 ∷ 101 ∷ 114 ∷ 32 ∷ 110 ∷ 111 ∷ 116 ∷ 32 ∷ 105 ∷ 110 ∷ 105 ∷ 116 ∷ 105 ∷ 97
    ∷ 108 ∷ 105 ∷ 122 ∷ 101 ∷ 100 ∷ []

-- `Server is already initialized`
abbrev pub already_initialized : Bytes
already_initialized =
    83 ∷ 101 ∷ 114 ∷ 118 ∷ 101 ∷ 114 ∷ 32 ∷ 105 ∷ 115 ∷ 32 ∷ 97 ∷ 108 ∷ 114 ∷ 101 ∷ 97 ∷ 100 ∷ 121
    ∷ 32 ∷ 105 ∷ 110 ∷ 105 ∷ 116 ∷ 105 ∷ 97 ∷ 108 ∷ 105 ∷ 122 ∷ 101 ∷ 100 ∷ []

-- `Unknown method: `
abbrev pub unknown_method : Bytes
unknown_method =
    85 ∷ 110 ∷ 107 ∷ 110 ∷ 111 ∷ 119 ∷ 110 ∷ 32 ∷ 109 ∷ 101 ∷ 116 ∷ 104 ∷ 111 ∷ 100 ∷ 58 ∷ 32 ∷ []

-- `listChanged`
abbrev pub list_changed_key : Bytes
list_changed_key = 108 ∷ 105 ∷ 115 ∷ 116 ∷ 67 ∷ 104 ∷ 97 ∷ 110 ∷ 103 ∷ 101 ∷ 100 ∷ []

-- `tools`
abbrev pub tools_key : Bytes
tools_key = 116 ∷ 111 ∷ 111 ∷ 108 ∷ 115 ∷ []

-- `protocolVersion`
abbrev pub protocol_version_key : Bytes
protocol_version_key =
    112 ∷ 114 ∷ 111 ∷ 116 ∷ 111 ∷ 99 ∷ 111 ∷ 108 ∷ 86 ∷ 101 ∷ 114 ∷ 115 ∷ 105 ∷ 111 ∷ 110 ∷ []

-- `2024-11-05`
abbrev pub protocol_version : Bytes
protocol_version = 50 ∷ 48 ∷ 50 ∷ 52 ∷ 45 ∷ 49 ∷ 49 ∷ 45 ∷ 48 ∷ 53 ∷ []

-- `serverInfo`
abbrev pub server_info_key : Bytes
server_info_key = 115 ∷ 101 ∷ 114 ∷ 118 ∷ 101 ∷ 114 ∷ 73 ∷ 110 ∷ 102 ∷ 111 ∷ []

-- `name`
abbrev pub name_key : Bytes
name_key = 110 ∷ 97 ∷ 109 ∷ 101 ∷ []

-- `version`
abbrev pub version_key : Bytes
version_key = 118 ∷ 101 ∷ 114 ∷ 115 ∷ 105 ∷ 111 ∷ 110 ∷ []

-- `capabilities`
abbrev pub capabilities_key : Bytes
capabilities_key = 99 ∷ 97 ∷ 112 ∷ 97 ∷ 98 ∷ 105 ∷ 108 ∷ 105 ∷ 116 ∷ 105 ∷ 101 ∷ 115 ∷ []

-- `arguments`
abbrev pub arguments_key : Bytes
arguments_key = 97 ∷ 114 ∷ 103 ∷ 117 ∷ 109 ∷ 101 ∷ 110 ∷ 116 ∷ 115 ∷ []

-- `params must include 'name'`
abbrev pub no_name : Bytes
no_name =
    112 ∷ 97 ∷ 114 ∷ 97 ∷ 109 ∷ 115 ∷ 32 ∷ 109 ∷ 117 ∷ 115 ∷ 116 ∷ 32 ∷ 105 ∷ 110 ∷ 99 ∷ 108 ∷ 117
    ∷ 100 ∷ 101 ∷ 32 ∷ 39 ∷ 110 ∷ 97 ∷ 109 ∷ 101 ∷ 39 ∷ []

-- `Tool not found: `
abbrev pub tool_not_found : Bytes
tool_not_found =
    84 ∷ 111 ∷ 111 ∷ 108 ∷ 32 ∷ 110 ∷ 111 ∷ 116 ∷ 32 ∷ 102 ∷ 111 ∷ 117 ∷ 110 ∷ 100 ∷ 58 ∷ 32 ∷ []

-- `Failed to convert arguments: `
abbrev pub arguments_failed : Bytes
arguments_failed =
    70 ∷ 97 ∷ 105 ∷ 108 ∷ 101 ∷ 100 ∷ 32 ∷ 116 ∷ 111 ∷ 32 ∷ 99 ∷ 111 ∷ 110 ∷ 118 ∷ 101 ∷ 114 ∷ 116
    ∷ 32 ∷ 97 ∷ 114 ∷ 103 ∷ 117 ∷ 109 ∷ 101 ∷ 110 ∷ 116 ∷ 115 ∷ 58 ∷ 32 ∷ []

-- `RPC call failed: `
abbrev pub call_failed : Bytes
call_failed =
    82 ∷ 80 ∷ 67 ∷ 32 ∷ 99 ∷ 97 ∷ 108 ∷ 108 ∷ 32 ∷ 102 ∷ 97 ∷ 105 ∷ 108 ∷ 101 ∷ 100 ∷ 58 ∷ 32 ∷ []

-- `handler returned an error`
abbrev pub handler_failed : Bytes
handler_failed =
    104 ∷ 97 ∷ 110 ∷ 100 ∷ 108 ∷ 101 ∷ 114 ∷ 32 ∷ 114 ∷ 101 ∷ 116 ∷ 117 ∷ 114 ∷ 110 ∷ 101 ∷ 100 ∷ 32
    ∷ 97 ∷ 110 ∷ 32 ∷ 101 ∷ 114 ∷ 114 ∷ 111 ∷ 114 ∷ []

-- `Failed to convert response: `
abbrev pub response_failed : Bytes
response_failed =
    70 ∷ 97 ∷ 105 ∷ 108 ∷ 101 ∷ 100 ∷ 32 ∷ 116 ∷ 111 ∷ 32 ∷ 99 ∷ 111 ∷ 110 ∷ 118 ∷ 101 ∷ 114 ∷ 116
    ∷ 32 ∷ 114 ∷ 101 ∷ 115 ∷ 112 ∷ 111 ∷ 110 ∷ 115 ∷ 101 ∷ 58 ∷ 32 ∷ []

-- `type`
abbrev pub type_key : Bytes
type_key = 116 ∷ 121 ∷ 112 ∷ 101 ∷ []

-- `text`
abbrev pub text_key : Bytes
text_key = 116 ∷ 101 ∷ 120 ∷ 116 ∷ []

-- `content`
abbrev pub content_key : Bytes
content_key = 99 ∷ 111 ∷ 110 ∷ 116 ∷ 101 ∷ 110 ∷ 116 ∷ []

-- `structuredContent`
abbrev pub structured_content_key : Bytes
structured_content_key =
    115 ∷ 116 ∷ 114 ∷ 117 ∷ 99 ∷ 116 ∷ 117 ∷ 114 ∷ 101 ∷ 100 ∷ 67 ∷ 111 ∷ 110 ∷ 116 ∷ 101 ∷ 110
    ∷ 116 ∷ []

-- `description`
abbrev pub description_key : Bytes
description_key = 100 ∷ 101 ∷ 115 ∷ 99 ∷ 114 ∷ 105 ∷ 112 ∷ 116 ∷ 105 ∷ 111 ∷ 110 ∷ []

-- `object`
abbrev pub object_text : Bytes
object_text = 111 ∷ 98 ∷ 106 ∷ 101 ∷ 99 ∷ 116 ∷ []

-- `properties`
abbrev pub properties_key : Bytes
properties_key = 112 ∷ 114 ∷ 111 ∷ 112 ∷ 101 ∷ 114 ∷ 116 ∷ 105 ∷ 101 ∷ 115 ∷ []

-- `required`
abbrev pub required_key : Bytes
required_key = 114 ∷ 101 ∷ 113 ∷ 117 ∷ 105 ∷ 114 ∷ 101 ∷ 100 ∷ []

-- `inputSchema`
abbrev pub input_schema_key : Bytes
input_schema_key = 105 ∷ 110 ∷ 112 ∷ 117 ∷ 116 ∷ 83 ∷ 99 ∷ 104 ∷ 101 ∷ 109 ∷ 97 ∷ []

-- `contentEncoding`
abbrev pub content_encoding_key : Bytes
content_encoding_key =
    99 ∷ 111 ∷ 110 ∷ 116 ∷ 101 ∷ 110 ∷ 116 ∷ 69 ∷ 110 ∷ 99 ∷ 111 ∷ 100 ∷ 105 ∷ 110 ∷ 103 ∷ []

-- `enum`
abbrev pub enum_key : Bytes
enum_key = 101 ∷ 110 ∷ 117 ∷ 109 ∷ []

-- `items`
abbrev pub items_key : Bytes
items_key = 105 ∷ 116 ∷ 101 ∷ 109 ∷ 115 ∷ []

-- `descriptor must not be null`
abbrev pub null_descriptor : Bytes
null_descriptor =
    100 ∷ 101 ∷ 115 ∷ 99 ∷ 114 ∷ 105 ∷ 112 ∷ 116 ∷ 111 ∷ 114 ∷ 32 ∷ 109 ∷ 117 ∷ 115 ∷ 116 ∷ 32 ∷ 110
    ∷ 111 ∷ 116 ∷ 32 ∷ 98 ∷ 101 ∷ 32 ∷ 110 ∷ 117 ∷ 108 ∷ 108 ∷ []

-- `failed to serialize Protobuf message`
abbrev pub not_serialized : Bytes
not_serialized =
    102 ∷ 97 ∷ 105 ∷ 108 ∷ 101 ∷ 100 ∷ 32 ∷ 116 ∷ 111 ∷ 32 ∷ 115 ∷ 101 ∷ 114 ∷ 105 ∷ 97 ∷ 108 ∷ 105
    ∷ 122 ∷ 101 ∷ 32 ∷ 80 ∷ 114 ∷ 111 ∷ 116 ∷ 111 ∷ 98 ∷ 117 ∷ 102 ∷ 32 ∷ 109 ∷ 101 ∷ 115 ∷ 115 ∷ 97
    ∷ 103 ∷ 101 ∷ []

-- `failed to parse Protobuf response`
abbrev pub not_parsed : Bytes
not_parsed =
    102 ∷ 97 ∷ 105 ∷ 108 ∷ 101 ∷ 100 ∷ 32 ∷ 116 ∷ 111 ∷ 32 ∷ 112 ∷ 97 ∷ 114 ∷ 115 ∷ 101 ∷ 32 ∷ 80
    ∷ 114 ∷ 111 ∷ 116 ∷ 111 ∷ 98 ∷ 117 ∷ 102 ∷ 32 ∷ 114 ∷ 101 ∷ 115 ∷ 112 ∷ 111 ∷ 110 ∷ 115 ∷ 101
    ∷ []

-- `{"jsonrpc":"2.0","method":"_","id":1,"params":`
abbrev pub wrapper_head : Bytes
wrapper_head =
    123 ∷ 34 ∷ 106 ∷ 115 ∷ 111 ∷ 110 ∷ 114 ∷ 112 ∷ 99 ∷ 34 ∷ 58 ∷ 34 ∷ 50 ∷ 46 ∷ 48 ∷ 34 ∷ 44 ∷ 34
    ∷ 109 ∷ 101 ∷ 116 ∷ 104 ∷ 111 ∷ 100 ∷ 34 ∷ 58 ∷ 34 ∷ 95 ∷ 34 ∷ 44 ∷ 34 ∷ 105 ∷ 100 ∷ 34 ∷ 58
    ∷ 49 ∷ 44 ∷ 34 ∷ 112 ∷ 97 ∷ 114 ∷ 97 ∷ 109 ∷ 115 ∷ 34 ∷ 58 ∷ []

-- `failed to parse JSON response from Protobuf`
abbrev pub not_json : Bytes
not_json =
    102 ∷ 97 ∷ 105 ∷ 108 ∷ 101 ∷ 100 ∷ 32 ∷ 116 ∷ 111 ∷ 32 ∷ 112 ∷ 97 ∷ 114 ∷ 115 ∷ 101 ∷ 32 ∷ 74
    ∷ 83 ∷ 79 ∷ 78 ∷ 32 ∷ 114 ∷ 101 ∷ 115 ∷ 112 ∷ 111 ∷ 110 ∷ 115 ∷ 101 ∷ 32 ∷ 102 ∷ 114 ∷ 111 ∷ 109
    ∷ 32 ∷ 80 ∷ 114 ∷ 111 ∷ 116 ∷ 111 ∷ 98 ∷ 117 ∷ 102 ∷ []
