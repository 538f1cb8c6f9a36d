-- ===== src/Mcp/Tests.antt =====
-- Runs of the MCP server and the registry on concrete tools and requests.
use nexus_rpc.Common.{
  ℕ, zero, suc, ◌+◌, ◌↔◌, ◌<◌, ◌≡◌, ◌≢◌, refl, arith, true, false, Bytes, List, [], ◌∷◌, none, some,
  All, length,
}
use nexus_rpc.Rpc.Message.{CallResult, failure, StatusCode}
use nexus_rpc.Json.Value.{integer, pos, object, no_members}
use nexus_rpc.Json.Message.{JsonRpcRequest}
use nexus_rpc.Json.Tests.{library}
use nexus_rpc.Json.Message.{parse_request, validate_parsed, validate, located, position}
use nexus_rpc.Json.Parser.{parse, parse_value, parse_key, expect, finish}
use nexus_rpc.Json.Value.{get, find_member, set_member}
use nexus_rpc.Rpc.Decimal.{digits_from, read_digits}
use nexus_rpc.Json.Lexer.{
  skip_whitespace, parse_string, parse_chars, char_kind, parse_number, take_integer, escape,
  in_range, literal, parse_null, read_signed, strtoll,
}
use nexus_rpc.Mcp.Words.{initialize_text, ping_text, tools_call_text}
use nexus_rpc.Mcp.Tool.{ToolDescriptor, no_parameters}
use nexus_rpc.Mcp.Registry.{ToolRegistry, to_snake_case, register_tool, list_tools}
use nexus_rpc.Mcp.RegistryLaws.{IsRegistry, Outcome, register_tool-Outcome}
use mathlib.Core.List.{Memᴰ}
use nexus_rpc.Mcp.Listing.{register_all, first_named, IsAscending, list_tools-register_all}
use nexus_rpc.Mcp.Names.{
  Word, camel, acronym, AreWords, camel_name, snake_name, to_snake_case-camel_name,
}
use nexus_rpc.Mcp.Convert.{encoded, decoded, Server}
use nexus_rpc.Mcp.Server.{uninitialized, initialized, Input, dispatch, run}
use nexus_rpc.Mcp.Session.{
  Responds, dispatch-next_state, dispatch_without_session, dispatch-Responds,
}
use nexus_rpc.Mcp.Runs.{count_lines, required, unnoticed, mistaken, run-required_lines}
use nexus_rpc.Mcp.Descriptors.{
  Field, Descriptors, scalar_field, message_field, string_field, build_schema, map_message_type,
}
use nexus_rpc.Mcp.Nesting.{Inside, build_schema-some}
use nexus_rpc.Mcp.Circles.{build_schema-none}

-- `Get`, `URL` and `Now2`
abbrev get_url_now : List Word
get_url_now =
    camel 71 101 (116 ∷ []) ∷ acronym 85 (82 ∷ 76 ∷ []) ∷ camel 78 111 (119 ∷ 50 ∷ []) ∷ []

get_url_now-AreWords : AreWords false get_url_now
get_url_now-AreWords = (
  (refl, refl, (refl, tt)),
  refl,
  ((refl, (refl, (refl, tt))), refl, ((refl, refl, (refl, (refl, tt))), refl, tt)),
)

to_snake_case-camel_name_example : to_snake_case (camel_name get_url_now) ≡ snake_name get_url_now
to_snake_case-camel_name_example = to_snake_case-camel_name get_url_now get_url_now-AreWords

-- A tool named by one letter; message descriptors are numbers here.
abbrev tool : ℕ → ToolDescriptor ℕ
tool letter = record {
  name = letter ∷ [];
  service_name = 115 ∷ [];
  method_name = letter ∷ [];
  description = [];
  input_schema = no_parameters;
  request_descriptor = some 1;
  response_descriptor = some 2;
}

abbrev two_tools : ToolRegistry ℕ
two_tools = (97 ∷ [], tool 97) ∷ (98 ∷ [], tool 98) ∷ []

two_tools-IsRegistry : IsRegistry two_tools
two_tools-IsRegistry = record {
  sorted = ((refl, tt), (tt, tt));
  named = (refl, (λ h. cc), (refl, (λ h. cc), tt));
}

register_tool-Outcome_example :
    Outcome (tool 99) (99 ∷ []) two_tools (register_tool (tool 99) two_tools)
register_tool-Outcome_example = register_tool-Outcome (tool 99) two_tools

-- The second tool of a name is refused, and the listing is by name.
list_tools-register_all_example :
    IsAscending (list_tools (register_all (tool 98 ∷ tool 97 ∷ tool 98 ∷ []) []))
    × ((t : ToolDescriptor ℕ)
        → Memᴰ t (list_tools (register_all (tool 98 ∷ tool 97 ∷ tool 98 ∷ []) []))
          ↔ (first_named t.name (tool 98 ∷ tool 97 ∷ tool 98 ∷ []) ≡ some t))
list_tools-register_all_example = list_tools-register_all (tool 98 ∷ tool 97 ∷ tool 98 ∷ [])

abbrev server : Server ℕ
server = record {
  lib = library;
  protobuf = record { from_json = λ d text. encoded text; to_json = λ d binary. decoded binary };
  registry = two_tools;
  server_name = 110 ∷ [];
  server_version = 49 ∷ [];
}

abbrev no_backend : Bytes → Bytes → Bytes → CallResult
no_backend service method body = failure (record { code = StatusCode.unavailable; message = [] })

abbrev other_backend : Bytes → Bytes → Bytes → CallResult
other_backend service method body = failure (record { code = StatusCode.not_found; message = body })

abbrev request : Bytes → JsonRpcRequest
request method = record { method = method; id = integer (pos 1); params = object no_members }

dispatch-next_state_example :
    (dispatch server no_backend uninitialized (request initialize_text)).1 ≡ initialized
dispatch-next_state_example =
    dispatch-next_state server no_backend uninitialized (request initialize_text)

dispatch_without_session_example :
    dispatch server no_backend uninitialized (request tools_call_text)
    ≡ dispatch server other_backend uninitialized (request tools_call_text)
dispatch_without_session_example =
    dispatch_without_session server no_backend other_backend uninitialized (request tools_call_text)
      (λ h. cc)

dispatch-Responds_example :
    Responds library
      (integer (pos 1))
      (dispatch server no_backend initialized (request ping_text)).0
dispatch-Responds_example = dispatch-Responds server no_backend initialized (request ping_text) refl

-- `{"jsonrpc":"2.0","method":"ping"}`
abbrev ping_without_id : Bytes
ping_without_id =
    123 ∷ 34 ∷ 106 ∷ 115 ∷ 111 ∷ 110 ∷ 114 ∷ 112 ∷ 99 ∷ 34 ∷ 58 ∷ 34 ∷ 50 ∷ 46 ∷ 48 ∷ 34 ∷ 44 ∷ 34
    ∷ 109 ∷ 101 ∷ 116 ∷ 104 ∷ 111 ∷ 100 ∷ 34 ∷ 58 ∷ 34 ∷ 112 ∷ 105 ∷ 110 ∷ 103 ∷ 34 ∷ 125 ∷ []

-- `{"jsonrpc":"2.0","method":"notifications/initialized","id":1}`
abbrev initialized_with_id : Bytes
initialized_with_id =
    123 ∷ 34 ∷ 106 ∷ 115 ∷ 111 ∷ 110 ∷ 114 ∷ 112 ∷ 99 ∷ 34 ∷ 58 ∷ 34 ∷ 50 ∷ 46 ∷ 48 ∷ 34 ∷ 44 ∷ 34
    ∷ 109 ∷ 101 ∷ 116 ∷ 104 ∷ 111 ∷ 100 ∷ 34 ∷ 58 ∷ 34 ∷ 110 ∷ 111 ∷ 116 ∷ 105 ∷ 102 ∷ 105 ∷ 99 ∷ 97
    ∷ 116 ∷ 105 ∷ 111 ∷ 110 ∷ 115 ∷ 47 ∷ 105 ∷ 110 ∷ 105 ∷ 116 ∷ 105 ∷ 97 ∷ 108 ∷ 105 ∷ 122 ∷ 101
    ∷ 100 ∷ 34 ∷ 44 ∷ 34 ∷ 105 ∷ 100 ∷ 34 ∷ 58 ∷ 49 ∷ 125 ∷ []

abbrev inputs : List Input
inputs =
    record { stopped = false; line = []; call = no_backend }
    ∷ record { stopped = false; line = ping_without_id; call = no_backend }
    ∷ record { stopped = false; line = initialized_with_id; call = no_backend }
    ∷ record { stopped = false; line = 123 ∷ []; call = no_backend }
    ∷ record { stopped = true; line = 91 ∷ []; call = no_backend }
    ∷ []

-- Two responses are wanted, to the request with an id and to the text that is no request; the ping
-- without an id gets one too.
counted :
    (count_lines required library inputs ≡ 2)
    × (count_lines unnoticed library inputs ≡ 1)
    × (count_lines mistaken library inputs ≡ 1)
unfolding parse_request validate_parsed parse skip_whitespace parse_value parse_key parse_string
    parse_chars char_kind expect finish validate get find_member set_member parse_number
    take_integer escape in_range literal parse_null read_signed strtoll located position digits_from
    read_digits
counted = (refl, refl, refl)

run-required_lines_example :
    length (run server uninitialized inputs).0 + count_lines mistaken library inputs
    ≡ count_lines required library inputs + count_lines unnoticed library inputs
run-required_lines_example = run-required_lines server uninitialized inputs

-- Message 1 holds a string and message 0, which holds nothing; message 2 holds itself.
abbrev field_of_text : Field ℕ
field_of_text = record {
  json_name = 116 ∷ [];
  param_description = none;
  param_required = some true;
  is_map = false;
  is_repeated = false;
  type = scalar_field string_field;
}

abbrev field_of_message : ℕ → Field ℕ
field_of_message m = record {
  json_name = 109 ∷ [];
  param_description = none;
  param_required = none;
  is_map = false;
  is_repeated = true;
  type = message_field m;
}

abbrev nested_once : Descriptors ℕ
nested_once = record { full_name = λ m. 78 ∷ []; fields = fields_of }
  where
    fields_of : ℕ → List (Field ℕ)
    fields_of zero = []
    fields_of (suc m) = field_of_text ∷ field_of_message m ∷ []

abbrev itself : Descriptors ℕ
itself = record { full_name = λ m. 78 ∷ []; fields = λ m. field_of_text ∷ field_of_message m ∷ [] }

nested_once-falls :
    (m : ℕ)
    → All (λ field. Inside nested_once field.type (λ inside. inside < m)) (nested_once.fields m)
nested_once-falls zero = tt
nested_once-falls (suc m) = (tt, (omega arith, tt))

build_schema-some_example : build_schema nested_once 3 2 ≢ none
build_schema-some_example =
    build_schema-some nested_once (λ m. m) (record { falls = nested_once-falls }) 3 2 (omega arith)

build_schema-none_example : build_schema itself 1000 2 ≡ none
unfolding map_message_type
build_schema-none_example =
    build_schema-none itself (λ m. m ≡ 2)
      (λ m p. record {
        before = field_of_text ∷ [];
        field = field_of_message m;
        after = [];
        inside = m;
        split = refl;
        no_map = refl;
        holds = refl;
        expanded = refl;
        again = p;
      })
      1000 2 refl
