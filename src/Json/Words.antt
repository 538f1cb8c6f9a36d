-- ===== src/Json/Words.antt =====
-- The member names, texts and messages of the JSON-RPC layer in src/mcp/json_rpc.cpp, as bytes.
use nexus_rpc.Common.{Bytes, [], ◌∷◌}

-- `jsonrpc`
abbrev pub jsonrpc_key : Bytes
jsonrpc_key = 106 ∷ 115 ∷ 111 ∷ 110 ∷ 114 ∷ 112 ∷ 99 ∷ []

-- `id`
abbrev pub id_key : Bytes
id_key = 105 ∷ 100 ∷ []

-- `method`
abbrev pub method_key : Bytes
method_key = 109 ∷ 101 ∷ 116 ∷ 104 ∷ 111 ∷ 100 ∷ []

-- `params`
abbrev pub params_key : Bytes
params_key = 112 ∷ 97 ∷ 114 ∷ 97 ∷ 109 ∷ 115 ∷ []

-- `result`
abbrev pub result_key : Bytes
result_key = 114 ∷ 101 ∷ 115 ∷ 117 ∷ 108 ∷ 116 ∷ []

-- `error`
abbrev pub error_key : Bytes
error_key = 101 ∷ 114 ∷ 114 ∷ 111 ∷ 114 ∷ []

-- `code`
abbrev pub code_key : Bytes
code_key = 99 ∷ 111 ∷ 100 ∷ 101 ∷ []

-- `message`
abbrev pub message_key : Bytes
message_key = 109 ∷ 101 ∷ 115 ∷ 115 ∷ 97 ∷ 103 ∷ 101 ∷ []

-- `data`
abbrev pub data_key : Bytes
data_key = 100 ∷ 97 ∷ 116 ∷ 97 ∷ []

-- `2.0`
abbrev pub version_text : Bytes
version_text = 50 ∷ 46 ∷ 48 ∷ []

-- `Parse error`
abbrev pub parse_error_text : Bytes
parse_error_text = 80 ∷ 97 ∷ 114 ∷ 115 ∷ 101 ∷ 32 ∷ 101 ∷ 114 ∷ 114 ∷ 111 ∷ 114 ∷ []

-- `JSON-RPC request must be a JSON object`
abbrev pub not_an_object : Bytes
not_an_object =
    74 ∷ 83 ∷ 79 ∷ 78 ∷ 45 ∷ 82 ∷ 80 ∷ 67 ∷ 32 ∷ 114 ∷ 101 ∷ 113 ∷ 117 ∷ 101 ∷ 115 ∷ 116 ∷ 32 ∷ 109
    ∷ 117 ∷ 115 ∷ 116 ∷ 32 ∷ 98 ∷ 101 ∷ 32 ∷ 97 ∷ 32 ∷ 74 ∷ 83 ∷ 79 ∷ 78 ∷ 32 ∷ 111 ∷ 98 ∷ 106 ∷ 101
    ∷ 99 ∷ 116 ∷ []

-- `missing or invalid 'jsonrpc' field (expected "2.0")`
abbrev pub bad_version : Bytes
bad_version =
    109 ∷ 105 ∷ 115 ∷ 115 ∷ 105 ∷ 110 ∷ 103 ∷ 32 ∷ 111 ∷ 114 ∷ 32 ∷ 105 ∷ 110 ∷ 118 ∷ 97 ∷ 108 ∷ 105
    ∷ 100 ∷ 32 ∷ 39 ∷ 106 ∷ 115 ∷ 111 ∷ 110 ∷ 114 ∷ 112 ∷ 99 ∷ 39 ∷ 32 ∷ 102 ∷ 105 ∷ 101 ∷ 108 ∷ 100
    ∷ 32 ∷ 40 ∷ 101 ∷ 120 ∷ 112 ∷ 101 ∷ 99 ∷ 116 ∷ 101 ∷ 100 ∷ 32 ∷ 34 ∷ 50 ∷ 46 ∷ 48 ∷ 34 ∷ 41 ∷ []

-- `missing or invalid 'method' field`
abbrev pub bad_method : Bytes
bad_method =
    109 ∷ 105 ∷ 115 ∷ 115 ∷ 105 ∷ 110 ∷ 103 ∷ 32 ∷ 111 ∷ 114 ∷ 32 ∷ 105 ∷ 110 ∷ 118 ∷ 97 ∷ 108 ∷ 105
    ∷ 100 ∷ 32 ∷ 39 ∷ 109 ∷ 101 ∷ 116 ∷ 104 ∷ 111 ∷ 100 ∷ 39 ∷ 32 ∷ 102 ∷ 105 ∷ 101 ∷ 108 ∷ 100 ∷ []

-- `'id' must be a string, number, or null (Notification)`
abbrev pub bad_id : Bytes
bad_id =
    39 ∷ 105 ∷ 100 ∷ 39 ∷ 32 ∷ 109 ∷ 117 ∷ 115 ∷ 116 ∷ 32 ∷ 98 ∷ 101 ∷ 32 ∷ 97 ∷ 32 ∷ 115 ∷ 116
    ∷ 114 ∷ 105 ∷ 110 ∷ 103 ∷ 44 ∷ 32 ∷ 110 ∷ 117 ∷ 109 ∷ 98 ∷ 101 ∷ 114 ∷ 44 ∷ 32 ∷ 111 ∷ 114 ∷ 32
    ∷ 110 ∷ 117 ∷ 108 ∷ 108 ∷ 32 ∷ 40 ∷ 78 ∷ 111 ∷ 116 ∷ 105 ∷ 102 ∷ 105 ∷ 99 ∷ 97 ∷ 116 ∷ 105 ∷ 111
    ∷ 110 ∷ 41 ∷ []

-- `'params' must be a JSON object or array when present`
abbrev pub bad_params : Bytes
bad_params =
    39 ∷ 112 ∷ 97 ∷ 114 ∷ 97 ∷ 109 ∷ 115 ∷ 39 ∷ 32 ∷ 109 ∷ 117 ∷ 115 ∷ 116 ∷ 32 ∷ 98 ∷ 101 ∷ 32 ∷ 97
    ∷ 32 ∷ 74 ∷ 83 ∷ 79 ∷ 78 ∷ 32 ∷ 111 ∷ 98 ∷ 106 ∷ 101 ∷ 99 ∷ 116 ∷ 32 ∷ 111 ∷ 114 ∷ 32 ∷ 97 ∷ 114
    ∷ 114 ∷ 97 ∷ 121 ∷ 32 ∷ 119 ∷ 104 ∷ 101 ∷ 110 ∷ 32 ∷ 112 ∷ 114 ∷ 101 ∷ 115 ∷ 101 ∷ 110 ∷ 116
    ∷ []
