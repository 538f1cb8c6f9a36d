-- ===== src/Json/Tests.antt =====
-- Runs of the JSON printer and parser on concrete values.
use nexus_rpc.Common.{ℕ, ◌≡◌, ◌≢◌, ◌↔◌, refl, true, [], ◌∷◌, some, arith}
use nexus_rpc.Rpc.Decimal.{read_digits}
use nexus_rpc.Json.Words.{parse_error_text}
use nexus_rpc.Json.Value.{
  pos, negsuc, JsonValue, null, bool, integer, double, string, object, array,
}
use nexus_rpc.Json.Value.{
  no_members, member, no_elements, element, Doubles, find_member, set_member,
}
use nexus_rpc.Json.Print.{serialize}
use nexus_rpc.Json.Lexer.{
  ok, out_of_fuel, parse_number, strtoll, read_signed, in_range, take_integer, parse_double,
}
use nexus_rpc.Json.Parser.{parse}
use nexus_rpc.Json.Message.{
  JsonRpcRequest, JsonRpcResponse, failure, accepted, validate, parse_request, serialize_message,
  parse_error,
}
use nexus_rpc.Json.RoundTrip.Printable.{ReadsBack, IsPrintable}
use nexus_rpc.Json.RoundTrip.Values.{parse-serialize}
use nexus_rpc.Json.Termination.Parser.{parse_terminates}
use nexus_rpc.Json.MessageLaws.{Answers, serialize_message-Answers}
use nexus_rpc.Json.Requests.{IsRequest, request_value, validate_iff, parse_request-serialize}

-- A C library that knows one double.
abbrev half : ℕ
half = 4602678819172646912

abbrev pub library : Doubles
library = record { strtod = λ s. some (half, 3); print_double = λ d. 48 ∷ 46 ∷ 53 ∷ [] }

half-ReadsBack : ReadsBack library half
unfolding parse_number strtoll read_signed in_range take_integer parse_double read_digits
half-ReadsBack = record { starts = λ rest. refl; reads = λ rest h. refl }

-- `{"a":-7,"b":[0.5,"x\"",null,true]}`
abbrev sample : JsonValue
sample = object (
    member (97 ∷ []) (integer (negsuc 6)) (
      member (98 ∷ [])
        (array (
          element (double half)
            (element (string (120 ∷ 34 ∷ [])) (element null (element (bool true) no_elements)))))
        no_members))

sample-IsPrintable : IsPrintable library sample
unfolding find_member set_member
sample-IsPrintable = (refl, omega arith, (refl, (half-ReadsBack, (tt, (tt, (tt, tt)))), tt))

parse-serialize_example : parse library (serialize library sample) ≡ ok sample []
parse-serialize_example = parse-serialize library sample sample-IsPrintable

parse_terminates_example : parse library (91 ∷ 91 ∷ 44 ∷ []) ≢ out_of_fuel
parse_terminates_example = parse_terminates library (91 ∷ 91 ∷ 44 ∷ [])

abbrev refusal : JsonRpcResponse
refusal = failure (integer (pos 5)) parse_error parse_error_text (some sample)

serialize_message-Answers_example : Answers library (serialize_message library refusal) refusal
serialize_message-Answers_example =
    serialize_message-Answers library refusal (omega arith) tt (omega arith, sample-IsPrintable)

abbrev request : JsonRpcRequest
request = record { method = 112 ∷ []; id = string (49 ∷ []); params = sample }

validate_iff_example :
    (validate (request_value request) ≡ accepted request)
    ↔ IsRequest (request_value request) request
validate_iff_example = validate_iff (request_value request) request

parse_request-serialize_example :
    parse_request library (serialize library (request_value request)) ≡ accepted request
parse_request-serialize_example =
    parse_request-serialize library request tt tt tt sample-IsPrintable
