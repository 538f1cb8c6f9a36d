-- ===== src/Mcp/RegistryWords.antt =====
-- The messages and type names of src/mcp/tool_registry.cpp, as bytes.
use nexus_rpc.Common.{Bytes, [], ◌∷◌}

-- `tool name must be non-empty`
abbrev pub empty_name : Bytes
empty_name =
    116 ∷ 111 ∷ 111 ∷ 108 ∷ 32 ∷ 110 ∷ 97 ∷ 109 ∷ 101 ∷ 32 ∷ 109 ∷ 117 ∷ 115 ∷ 116 ∷ 32 ∷ 98 ∷ 101
    ∷ 32 ∷ 110 ∷ 111 ∷ 110 ∷ 45 ∷ 101 ∷ 109 ∷ 112 ∷ 116 ∷ 121 ∷ []

-- `tool '`
abbrev pub name_head : Bytes
name_head = 116 ∷ 111 ∷ 111 ∷ 108 ∷ 32 ∷ 39 ∷ []

-- `' is already registered`
abbrev pub name_tail : Bytes
name_tail =
    39 ∷ 32 ∷ 105 ∷ 115 ∷ 32 ∷ 97 ∷ 108 ∷ 114 ∷ 101 ∷ 97 ∷ 100 ∷ 121 ∷ 32 ∷ 114 ∷ 101 ∷ 103 ∷ 105
    ∷ 115 ∷ 116 ∷ 101 ∷ 114 ∷ 101 ∷ 100 ∷ []

-- `descriptors must not be null`
abbrev pub null_descriptors : Bytes
null_descriptors =
    100 ∷ 101 ∷ 115 ∷ 99 ∷ 114 ∷ 105 ∷ 112 ∷ 116 ∷ 111 ∷ 114 ∷ 115 ∷ 32 ∷ 109 ∷ 117 ∷ 115 ∷ 116 ∷ 32
    ∷ 110 ∷ 111 ∷ 116 ∷ 32 ∷ 98 ∷ 101 ∷ 32 ∷ 110 ∷ 117 ∷ 108 ∷ 108 ∷ []

-- `number`
abbrev pub number_type : Bytes
number_type = 110 ∷ 117 ∷ 109 ∷ 98 ∷ 101 ∷ 114 ∷ []

-- `integer`
abbrev pub integer_type : Bytes
integer_type = 105 ∷ 110 ∷ 116 ∷ 101 ∷ 103 ∷ 101 ∷ 114 ∷ []

-- `boolean`
abbrev pub boolean_type : Bytes
boolean_type = 98 ∷ 111 ∷ 111 ∷ 108 ∷ 101 ∷ 97 ∷ 110 ∷ []

-- `string`
abbrev pub string_type : Bytes
string_type = 115 ∷ 116 ∷ 114 ∷ 105 ∷ 110 ∷ 103 ∷ []

-- `object`
abbrev pub object_type : Bytes
object_type = 111 ∷ 98 ∷ 106 ∷ 101 ∷ 99 ∷ 116 ∷ []

-- `array`
abbrev pub array_type : Bytes
array_type = 97 ∷ 114 ∷ 114 ∷ 97 ∷ 121 ∷ []

-- `base64`
abbrev pub base64 : Bytes
base64 = 98 ∷ 97 ∷ 115 ∷ 101 ∷ 54 ∷ 52 ∷ []

-- ` (RFC 3339)`
abbrev pub rfc_suffix : Bytes
rfc_suffix = 32 ∷ 40 ∷ 82 ∷ 70 ∷ 67 ∷ 32 ∷ 51 ∷ 51 ∷ 51 ∷ 57 ∷ 41 ∷ []

-- ` (duration in seconds)`
abbrev pub duration_suffix : Bytes
duration_suffix =
    32 ∷ 40 ∷ 100 ∷ 117 ∷ 114 ∷ 97 ∷ 116 ∷ 105 ∷ 111 ∷ 110 ∷ 32 ∷ 105 ∷ 110 ∷ 32 ∷ 115 ∷ 101 ∷ 99
    ∷ 111 ∷ 110 ∷ 100 ∷ 115 ∷ 41 ∷ []

-- `google.protobuf.Timestamp`
abbrev pub timestamp_name : Bytes
timestamp_name =
    103 ∷ 111 ∷ 111 ∷ 103 ∷ 108 ∷ 101 ∷ 46 ∷ 112 ∷ 114 ∷ 111 ∷ 116 ∷ 111 ∷ 98 ∷ 117 ∷ 102 ∷ 46 ∷ 84
    ∷ 105 ∷ 109 ∷ 101 ∷ 115 ∷ 116 ∷ 97 ∷ 109 ∷ 112 ∷ []

-- `google.protobuf.Duration`
abbrev pub duration_name : Bytes
duration_name =
    103 ∷ 111 ∷ 111 ∷ 103 ∷ 108 ∷ 101 ∷ 46 ∷ 112 ∷ 114 ∷ 111 ∷ 116 ∷ 111 ∷ 98 ∷ 117 ∷ 102 ∷ 46 ∷ 68
    ∷ 117 ∷ 114 ∷ 97 ∷ 116 ∷ 105 ∷ 111 ∷ 110 ∷ []

-- `google.protobuf.DoubleValue`
abbrev pub double_name : Bytes
double_name =
    103 ∷ 111 ∷ 111 ∷ 103 ∷ 108 ∷ 101 ∷ 46 ∷ 112 ∷ 114 ∷ 111 ∷ 116 ∷ 111 ∷ 98 ∷ 117 ∷ 102 ∷ 46 ∷ 68
    ∷ 111 ∷ 117 ∷ 98 ∷ 108 ∷ 101 ∷ 86 ∷ 97 ∷ 108 ∷ 117 ∷ 101 ∷ []

-- `google.protobuf.FloatValue`
abbrev pub float_name : Bytes
float_name =
    103 ∷ 111 ∷ 111 ∷ 103 ∷ 108 ∷ 101 ∷ 46 ∷ 112 ∷ 114 ∷ 111 ∷ 116 ∷ 111 ∷ 98 ∷ 117 ∷ 102 ∷ 46 ∷ 70
    ∷ 108 ∷ 111 ∷ 97 ∷ 116 ∷ 86 ∷ 97 ∷ 108 ∷ 117 ∷ 101 ∷ []

-- `google.protobuf.Int64Value`
abbrev pub int64_name : Bytes
int64_name =
    103 ∷ 111 ∷ 111 ∷ 103 ∷ 108 ∷ 101 ∷ 46 ∷ 112 ∷ 114 ∷ 111 ∷ 116 ∷ 111 ∷ 98 ∷ 117 ∷ 102 ∷ 46 ∷ 73
    ∷ 110 ∷ 116 ∷ 54 ∷ 52 ∷ 86 ∷ 97 ∷ 108 ∷ 117 ∷ 101 ∷ []

-- `google.protobuf.UInt64Value`
abbrev pub uint64_name : Bytes
uint64_name =
    103 ∷ 111 ∷ 111 ∷ 103 ∷ 108 ∷ 101 ∷ 46 ∷ 112 ∷ 114 ∷ 111 ∷ 116 ∷ 111 ∷ 98 ∷ 117 ∷ 102 ∷ 46 ∷ 85
    ∷ 73 ∷ 110 ∷ 116 ∷ 54 ∷ 52 ∷ 86 ∷ 97 ∷ 108 ∷ 117 ∷ 101 ∷ []

-- `google.protobuf.Int32Value`
abbrev pub int32_name : Bytes
int32_name =
    103 ∷ 111 ∷ 111 ∷ 103 ∷ 108 ∷ 101 ∷ 46 ∷ 112 ∷ 114 ∷ 111 ∷ 116 ∷ 111 ∷ 98 ∷ 117 ∷ 102 ∷ 46 ∷ 73
    ∷ 110 ∷ 116 ∷ 51 ∷ 50 ∷ 86 ∷ 97 ∷ 108 ∷ 117 ∷ 101 ∷ []

-- `google.protobuf.UInt32Value`
abbrev pub uint32_name : Bytes
uint32_name =
    103 ∷ 111 ∷ 111 ∷ 103 ∷ 108 ∷ 101 ∷ 46 ∷ 112 ∷ 114 ∷ 111 ∷ 116 ∷ 111 ∷ 98 ∷ 117 ∷ 102 ∷ 46 ∷ 85
    ∷ 73 ∷ 110 ∷ 116 ∷ 51 ∷ 50 ∷ 86 ∷ 97 ∷ 108 ∷ 117 ∷ 101 ∷ []

-- `google.protobuf.BoolValue`
abbrev pub bool_name : Bytes
bool_name =
    103 ∷ 111 ∷ 111 ∷ 103 ∷ 108 ∷ 101 ∷ 46 ∷ 112 ∷ 114 ∷ 111 ∷ 116 ∷ 111 ∷ 98 ∷ 117 ∷ 102 ∷ 46 ∷ 66
    ∷ 111 ∷ 111 ∷ 108 ∷ 86 ∷ 97 ∷ 108 ∷ 117 ∷ 101 ∷ []

-- `google.protobuf.StringValue`
abbrev pub string_name : Bytes
string_name =
    103 ∷ 111 ∷ 111 ∷ 103 ∷ 108 ∷ 101 ∷ 46 ∷ 112 ∷ 114 ∷ 111 ∷ 116 ∷ 111 ∷ 98 ∷ 117 ∷ 102 ∷ 46 ∷ 83
    ∷ 116 ∷ 114 ∷ 105 ∷ 110 ∷ 103 ∷ 86 ∷ 97 ∷ 108 ∷ 117 ∷ 101 ∷ []

-- `google.protobuf.BytesValue`
abbrev pub bytes_name : Bytes
bytes_name =
    103 ∷ 111 ∷ 111 ∷ 103 ∷ 108 ∷ 101 ∷ 46 ∷ 112 ∷ 114 ∷ 111 ∷ 116 ∷ 111 ∷ 98 ∷ 117 ∷ 102 ∷ 46 ∷ 66
    ∷ 121 ∷ 116 ∷ 101 ∷ 115 ∷ 86 ∷ 97 ∷ 108 ∷ 117 ∷ 101 ∷ []
