-- ===== src/Json/Strings.antt =====
-- The messages of the JSON parser in src/mcp/json_rpc.cpp and the literals of JSON, as bytes.
use nexus_rpc.Common.{Bytes, [], ◌∷◌}

-- `null`
abbrev pub null_text : Bytes
null_text = 110 ∷ 117 ∷ 108 ∷ 108 ∷ []

-- `true`
abbrev pub true_text : Bytes
true_text = 116 ∷ 114 ∷ 117 ∷ 101 ∷ []

-- `false`
abbrev pub false_text : Bytes
false_text = 102 ∷ 97 ∷ 108 ∷ 115 ∷ 101 ∷ []

-- `unexpected end of input`
abbrev pub unexpected_end : Bytes
unexpected_end =
    117 ∷ 110 ∷ 101 ∷ 120 ∷ 112 ∷ 101 ∷ 99 ∷ 116 ∷ 101 ∷ 100 ∷ 32 ∷ 101 ∷ 110 ∷ 100 ∷ 32 ∷ 111 ∷ 102
    ∷ 32 ∷ 105 ∷ 110 ∷ 112 ∷ 117 ∷ 116 ∷ []

-- `trailing characters after JSON value`
abbrev pub trailing_characters : Bytes
trailing_characters =
    116 ∷ 114 ∷ 97 ∷ 105 ∷ 108 ∷ 105 ∷ 110 ∷ 103 ∷ 32 ∷ 99 ∷ 104 ∷ 97 ∷ 114 ∷ 97 ∷ 99 ∷ 116 ∷ 101
    ∷ 114 ∷ 115 ∷ 32 ∷ 97 ∷ 102 ∷ 116 ∷ 101 ∷ 114 ∷ 32 ∷ 74 ∷ 83 ∷ 79 ∷ 78 ∷ 32 ∷ 118 ∷ 97 ∷ 108
    ∷ 117 ∷ 101 ∷ []

-- `unexpected character '`
abbrev pub unexpected_character : Bytes
unexpected_character =
    117 ∷ 110 ∷ 101 ∷ 120 ∷ 112 ∷ 101 ∷ 99 ∷ 116 ∷ 101 ∷ 100 ∷ 32 ∷ 99 ∷ 104 ∷ 97 ∷ 114 ∷ 97 ∷ 99
    ∷ 116 ∷ 101 ∷ 114 ∷ 32 ∷ 39 ∷ []

-- `expected '`
abbrev pub expected_character : Bytes
expected_character = 101 ∷ 120 ∷ 112 ∷ 101 ∷ 99 ∷ 116 ∷ 101 ∷ 100 ∷ 32 ∷ 39 ∷ []

-- `expected string key in object`
abbrev pub expected_key : Bytes
expected_key =
    101 ∷ 120 ∷ 112 ∷ 101 ∷ 99 ∷ 116 ∷ 101 ∷ 100 ∷ 32 ∷ 115 ∷ 116 ∷ 114 ∷ 105 ∷ 110 ∷ 103 ∷ 32 ∷ 107
    ∷ 101 ∷ 121 ∷ 32 ∷ 105 ∷ 110 ∷ 32 ∷ 111 ∷ 98 ∷ 106 ∷ 101 ∷ 99 ∷ 116 ∷ []

-- `expected ',' or '}' in object`
abbrev pub expected_in_object : Bytes
expected_in_object =
    101 ∷ 120 ∷ 112 ∷ 101 ∷ 99 ∷ 116 ∷ 101 ∷ 100 ∷ 32 ∷ 39 ∷ 44 ∷ 39 ∷ 32 ∷ 111 ∷ 114 ∷ 32 ∷ 39
    ∷ 125 ∷ 39 ∷ 32 ∷ 105 ∷ 110 ∷ 32 ∷ 111 ∷ 98 ∷ 106 ∷ 101 ∷ 99 ∷ 116 ∷ []

-- `expected ',' or ']' in array`
abbrev pub expected_in_array : Bytes
expected_in_array =
    101 ∷ 120 ∷ 112 ∷ 101 ∷ 99 ∷ 116 ∷ 101 ∷ 100 ∷ 32 ∷ 39 ∷ 44 ∷ 39 ∷ 32 ∷ 111 ∷ 114 ∷ 32 ∷ 39 ∷ 93
    ∷ 39 ∷ 32 ∷ 105 ∷ 110 ∷ 32 ∷ 97 ∷ 114 ∷ 114 ∷ 97 ∷ 121 ∷ []

-- `unterminated string escape`
abbrev pub unterminated_escape : Bytes
unterminated_escape =
    117 ∷ 110 ∷ 116 ∷ 101 ∷ 114 ∷ 109 ∷ 105 ∷ 110 ∷ 97 ∷ 116 ∷ 101 ∷ 100 ∷ 32 ∷ 115 ∷ 116 ∷ 114
    ∷ 105 ∷ 110 ∷ 103 ∷ 32 ∷ 101 ∷ 115 ∷ 99 ∷ 97 ∷ 112 ∷ 101 ∷ []

-- `unterminated \u escape`
abbrev pub unterminated_unicode : Bytes
unterminated_unicode =
    117 ∷ 110 ∷ 116 ∷ 101 ∷ 114 ∷ 109 ∷ 105 ∷ 110 ∷ 97 ∷ 116 ∷ 101 ∷ 100 ∷ 32 ∷ 92 ∷ 117 ∷ 32 ∷ 101
    ∷ 115 ∷ 99 ∷ 97 ∷ 112 ∷ 101 ∷ []

-- `invalid hex digit in \u escape`
abbrev pub invalid_hex : Bytes
invalid_hex =
    105 ∷ 110 ∷ 118 ∷ 97 ∷ 108 ∷ 105 ∷ 100 ∷ 32 ∷ 104 ∷ 101 ∷ 120 ∷ 32 ∷ 100 ∷ 105 ∷ 103 ∷ 105 ∷ 116
    ∷ 32 ∷ 105 ∷ 110 ∷ 32 ∷ 92 ∷ 117 ∷ 32 ∷ 101 ∷ 115 ∷ 99 ∷ 97 ∷ 112 ∷ 101 ∷ []

-- `invalid escape character '\`
abbrev pub invalid_escape : Bytes
invalid_escape =
    105 ∷ 110 ∷ 118 ∷ 97 ∷ 108 ∷ 105 ∷ 100 ∷ 32 ∷ 101 ∷ 115 ∷ 99 ∷ 97 ∷ 112 ∷ 101 ∷ 32 ∷ 99 ∷ 104
    ∷ 97 ∷ 114 ∷ 97 ∷ 99 ∷ 116 ∷ 101 ∷ 114 ∷ 32 ∷ 39 ∷ 92 ∷ []

-- `unescaped control character in string`
abbrev pub control_character : Bytes
control_character =
    117 ∷ 110 ∷ 101 ∷ 115 ∷ 99 ∷ 97 ∷ 112 ∷ 101 ∷ 100 ∷ 32 ∷ 99 ∷ 111 ∷ 110 ∷ 116 ∷ 114 ∷ 111 ∷ 108
    ∷ 32 ∷ 99 ∷ 104 ∷ 97 ∷ 114 ∷ 97 ∷ 99 ∷ 116 ∷ 101 ∷ 114 ∷ 32 ∷ 105 ∷ 110 ∷ 32 ∷ 115 ∷ 116 ∷ 114
    ∷ 105 ∷ 110 ∷ 103 ∷ []

-- `unterminated string`
abbrev pub unterminated_string : Bytes
unterminated_string =
    117 ∷ 110 ∷ 116 ∷ 101 ∷ 114 ∷ 109 ∷ 105 ∷ 110 ∷ 97 ∷ 116 ∷ 101 ∷ 100 ∷ 32 ∷ 115 ∷ 116 ∷ 114
    ∷ 105 ∷ 110 ∷ 103 ∷ []

-- `invalid number literal`
abbrev pub invalid_number : Bytes
invalid_number =
    105 ∷ 110 ∷ 118 ∷ 97 ∷ 108 ∷ 105 ∷ 100 ∷ 32 ∷ 110 ∷ 117 ∷ 109 ∷ 98 ∷ 101 ∷ 114 ∷ 32 ∷ 108 ∷ 105
    ∷ 116 ∷ 101 ∷ 114 ∷ 97 ∷ 108 ∷ []

-- `invalid literal (expected true/false)`
abbrev pub invalid_bool : Bytes
invalid_bool =
    105 ∷ 110 ∷ 118 ∷ 97 ∷ 108 ∷ 105 ∷ 100 ∷ 32 ∷ 108 ∷ 105 ∷ 116 ∷ 101 ∷ 114 ∷ 97 ∷ 108 ∷ 32 ∷ 40
    ∷ 101 ∷ 120 ∷ 112 ∷ 101 ∷ 99 ∷ 116 ∷ 101 ∷ 100 ∷ 32 ∷ 116 ∷ 114 ∷ 117 ∷ 101 ∷ 47 ∷ 102 ∷ 97
    ∷ 108 ∷ 115 ∷ 101 ∷ 41 ∷ []

-- `invalid literal (expected null)`
abbrev pub invalid_null : Bytes
invalid_null =
    105 ∷ 110 ∷ 118 ∷ 97 ∷ 108 ∷ 105 ∷ 100 ∷ 32 ∷ 108 ∷ 105 ∷ 116 ∷ 101 ∷ 114 ∷ 97 ∷ 108 ∷ 32 ∷ 40
    ∷ 101 ∷ 120 ∷ 112 ∷ 101 ∷ 99 ∷ 116 ∷ 101 ∷ 100 ∷ 32 ∷ 110 ∷ 117 ∷ 108 ∷ 108 ∷ 41 ∷ []
