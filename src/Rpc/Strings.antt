-- ===== src/Rpc/Strings.antt =====
-- The strings of src/rpc/rpc_server.cpp and src/rpc/rpc_client.cpp, as bytes.
use nexus_rpc.Common.{Bytes, [], ◌∷◌}

-- "nexus.service"
abbrev pub service_metadata_key : Bytes
service_metadata_key =
    110 ∷ 101 ∷ 120 ∷ 117 ∷ 115 ∷ 46 ∷ 115 ∷ 101 ∷ 114 ∷ 118 ∷ 105 ∷ 99 ∷ 101 ∷ []

-- "nexus.method"
abbrev pub method_metadata_key : Bytes
method_metadata_key = 110 ∷ 101 ∷ 120 ∷ 117 ∷ 115 ∷ 46 ∷ 109 ∷ 101 ∷ 116 ∷ 104 ∷ 111 ∷ 100 ∷ []

-- "deadline_unix_ms"
abbrev pub deadline_metadata_key : Bytes
deadline_metadata_key =
    100 ∷ 101 ∷ 97 ∷ 100 ∷ 108 ∷ 105 ∷ 110 ∷ 101 ∷ 95 ∷ 117 ∷ 110 ∷ 105 ∷ 120 ∷ 95 ∷ 109 ∷ 115 ∷ []

-- "nexus.status_code"
abbrev pub status_code_metadata_key : Bytes
status_code_metadata_key =
    110 ∷ 101 ∷ 120 ∷ 117 ∷ 115 ∷ 46 ∷ 115 ∷ 116 ∷ 97 ∷ 116 ∷ 117 ∷ 115 ∷ 95 ∷ 99 ∷ 111 ∷ 100 ∷ 101
    ∷ []

-- "nexus.status_message"
abbrev pub status_message_metadata_key : Bytes
status_message_metadata_key =
    110 ∷ 101 ∷ 120 ∷ 117 ∷ 115 ∷ 46 ∷ 115 ∷ 116 ∷ 97 ∷ 116 ∷ 117 ∷ 115 ∷ 95 ∷ 109 ∷ 101 ∷ 115 ∷ 115
    ∷ 97 ∷ 103 ∷ 101 ∷ []

-- "response frame exceeds protocol limits"
abbrev pub response_exceeds_limits : Bytes
response_exceeds_limits =
    114 ∷ 101 ∷ 115 ∷ 112 ∷ 111 ∷ 110 ∷ 115 ∷ 101 ∷ 32 ∷ 102 ∷ 114 ∷ 97 ∷ 109 ∷ 101 ∷ 32 ∷ 101 ∷ 120
    ∷ 99 ∷ 101 ∷ 101 ∷ 100 ∷ 115 ∷ 32 ∷ 112 ∷ 114 ∷ 111 ∷ 116 ∷ 111 ∷ 99 ∷ 111 ∷ 108 ∷ 32 ∷ 108
    ∷ 105 ∷ 109 ∷ 105 ∷ 116 ∷ 115 ∷ []

-- "response is missing status metadata"
abbrev pub missing_status : Bytes
missing_status =
    114 ∷ 101 ∷ 115 ∷ 112 ∷ 111 ∷ 110 ∷ 115 ∷ 101 ∷ 32 ∷ 105 ∷ 115 ∷ 32 ∷ 109 ∷ 105 ∷ 115 ∷ 115
    ∷ 105 ∷ 110 ∷ 103 ∷ 32 ∷ 115 ∷ 116 ∷ 97 ∷ 116 ∷ 117 ∷ 115 ∷ 32 ∷ 109 ∷ 101 ∷ 116 ∷ 97 ∷ 100 ∷ 97
    ∷ 116 ∷ 97 ∷ []

-- "response contains an invalid status code"
abbrev pub invalid_status_code : Bytes
invalid_status_code =
    114 ∷ 101 ∷ 115 ∷ 112 ∷ 111 ∷ 110 ∷ 115 ∷ 101 ∷ 32 ∷ 99 ∷ 111 ∷ 110 ∷ 116 ∷ 97 ∷ 105 ∷ 110 ∷ 115
    ∷ 32 ∷ 97 ∷ 110 ∷ 32 ∷ 105 ∷ 110 ∷ 118 ∷ 97 ∷ 108 ∷ 105 ∷ 100 ∷ 32 ∷ 115 ∷ 116 ∷ 97 ∷ 116 ∷ 117
    ∷ 115 ∷ 32 ∷ 99 ∷ 111 ∷ 100 ∷ 101 ∷ []

-- "invalid or mismatched RPC response frame"
abbrev pub mismatched_frame : Bytes
mismatched_frame =
    105 ∷ 110 ∷ 118 ∷ 97 ∷ 108 ∷ 105 ∷ 100 ∷ 32 ∷ 111 ∷ 114 ∷ 32 ∷ 109 ∷ 105 ∷ 115 ∷ 109 ∷ 97 ∷ 116
    ∷ 99 ∷ 104 ∷ 101 ∷ 100 ∷ 32 ∷ 82 ∷ 80 ∷ 67 ∷ 32 ∷ 114 ∷ 101 ∷ 115 ∷ 112 ∷ 111 ∷ 110 ∷ 115 ∷ 101
    ∷ 32 ∷ 102 ∷ 114 ∷ 97 ∷ 109 ∷ 101 ∷ []

-- "invalid response metadata"
abbrev pub invalid_metadata : Bytes
invalid_metadata =
    105 ∷ 110 ∷ 118 ∷ 97 ∷ 108 ∷ 105 ∷ 100 ∷ 32 ∷ 114 ∷ 101 ∷ 115 ∷ 112 ∷ 111 ∷ 110 ∷ 115 ∷ 101 ∷ 32
    ∷ 109 ∷ 101 ∷ 116 ∷ 97 ∷ 100 ∷ 97 ∷ 116 ∷ 97 ∷ []

-- "request metadata lacks service or method"
abbrev pub lacks_service : Bytes
lacks_service =
    114 ∷ 101 ∷ 113 ∷ 117 ∷ 101 ∷ 115 ∷ 116 ∷ 32 ∷ 109 ∷ 101 ∷ 116 ∷ 97 ∷ 100 ∷ 97 ∷ 116 ∷ 97 ∷ 32
    ∷ 108 ∷ 97 ∷ 99 ∷ 107 ∷ 115 ∷ 32 ∷ 115 ∷ 101 ∷ 114 ∷ 118 ∷ 105 ∷ 99 ∷ 101 ∷ 32 ∷ 111 ∷ 114 ∷ 32
    ∷ 109 ∷ 101 ∷ 116 ∷ 104 ∷ 111 ∷ 100 ∷ []

-- "too many in-flight requests"
abbrev pub too_many_in_flight : Bytes
too_many_in_flight =
    116 ∷ 111 ∷ 111 ∷ 32 ∷ 109 ∷ 97 ∷ 110 ∷ 121 ∷ 32 ∷ 105 ∷ 110 ∷ 45 ∷ 102 ∷ 108 ∷ 105 ∷ 103 ∷ 104
    ∷ 116 ∷ 32 ∷ 114 ∷ 101 ∷ 113 ∷ 117 ∷ 101 ∷ 115 ∷ 116 ∷ 115 ∷ []

-- "RPC handler queue is full"
abbrev pub queue_full : Bytes
queue_full =
    82 ∷ 80 ∷ 67 ∷ 32 ∷ 104 ∷ 97 ∷ 110 ∷ 100 ∷ 108 ∷ 101 ∷ 114 ∷ 32 ∷ 113 ∷ 117 ∷ 101 ∷ 117 ∷ 101
    ∷ 32 ∷ 105 ∷ 115 ∷ 32 ∷ 102 ∷ 117 ∷ 108 ∷ 108 ∷ []
