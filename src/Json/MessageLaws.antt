-- ===== src/Json/MessageLaws.antt =====
-- What a peer reads from the messages of the JSON-RPC layer, and which requests are accepted.
use nexus_rpc.Common.{◌≡◌, refl}
use nexus_rpc.Common.{Bytes, [], Option, none, some}
use nexus_rpc.Json.Words.{jsonrpc_key, id_key, result_key, error_key, version_text}
use nexus_rpc.Json.Value.{ℤ, JsonValue, string, object}
use nexus_rpc.Json.Value.{Doubles, find_member, set_member, get}
use nexus_rpc.Json.Lexer.{ok}
use nexus_rpc.Json.Parser.{parse}
use nexus_rpc.Json.Message.{
  JsonRpcError, JsonRpcResponse, error_members, response_value, serialize_message,
}
use nexus_rpc.Json.RoundTrip.Printable.{IsPrintable}
use nexus_rpc.Json.RoundTrip.Numbers.{Fits64}
use nexus_rpc.Json.RoundTrip.Values.{parse-serialize}

-- The parts of a response are printed without loss.
abbrev pub IsPrintableOption : Doubles → Option JsonValue → Type 0
IsPrintableOption lib none = Unit
IsPrintableOption lib (some v) = IsPrintable lib v

abbrev pub IsPrintableError : Doubles → Option JsonRpcError → Type 0
IsPrintableError lib none = Unit
IsPrintableError lib (some e) = Fits64 e.code × IsPrintableOption lib e.error_data

abbrev error_value : Option JsonRpcError → Option JsonValue
error_value none = none
error_value (some e) = some (object (error_members e))

-- What a peer finds in a text: the version, the id, and the result and the error if they are set.
pub record Answers (lib : Doubles) (text : Bytes) (r : JsonRpcResponse) : Type 0 where
  pub found : JsonValue
  pub parsed : parse lib text ≡ ok found []
  pub version : get jsonrpc_key found ≡ some (string version_text)
  pub answers : get id_key found ≡ some r.id
  pub result : get result_key found ≡ r.result
  pub error : get error_key found ≡ error_value r.error

error-IsPrintable :
    (lib : Doubles) (code : ℤ) (message : Bytes) (extra : Option JsonValue)
    → Fits64 code
    → IsPrintableOption lib extra
    → IsPrintable lib
        (object (error_members (record { code = code; message = message; error_data = extra })))
unfolding find_member set_member
error-IsPrintable lib code message none fits p = (refl, fits, (refl, tt, tt))
error-IsPrintable lib code message (some d) fits p = (refl, fits, (refl, tt, (refl, p, tt)))

abbrev response_parts : JsonValue → Option JsonValue → Option JsonRpcError → JsonRpcResponse
response_parts id result error = record { id = id; result = result; error = error }

response-IsPrintable :
    (lib : Doubles) (id : JsonValue) (result : Option JsonValue) (error : Option JsonRpcError)
    → IsPrintable lib id
    → IsPrintableOption lib result
    → IsPrintableError lib error
    → IsPrintable lib (response_value (response_parts id result error))
unfolding find_member set_member response_value
response-IsPrintable lib id none none i p q = (refl, tt, (refl, i, tt))
response-IsPrintable lib id (some v) none i p q = (refl, tt, (refl, i, (refl, p, tt)))
response-IsPrintable lib id none (some e) i p q =
    (refl, tt, (refl, i, (refl, error-IsPrintable lib e.code e.message e.error_data q.0 q.1, tt)))
response-IsPrintable lib id (some v) (some e) i p q =
    let printable = error-IsPrintable lib e.code e.message e.error_data q.0 q.1 in
    (refl, tt, (refl, i, (refl, p, (refl, printable, tt))))

response-get :
    (id : JsonValue) (result : Option JsonValue) (error : Option JsonRpcError)
    → (get jsonrpc_key (response_value (response_parts id result error))
        ≡ some (string version_text))
      × (get id_key (response_value (response_parts id result error)) ≡ some id)
      × (get result_key (response_value (response_parts id result error)) ≡ result)
      × (get error_key (response_value (response_parts id result error)) ≡ error_value error)
unfolding get find_member set_member response_value
response-get id none none = (refl, refl, refl, refl)
response-get id (some v) none = (refl, refl, refl, refl)
response-get id none (some e) = (refl, refl, refl, refl)
response-get id (some v) (some e) = (refl, refl, refl, refl)

-- A peer that parses a serialized response finds the version, the id, and exactly the result and the
-- error that are set, if these are printed without loss and the code of the error fits 64 bits.
pub serialize_message-Answers :
    (lib : Doubles) (r : JsonRpcResponse)
    → IsPrintable lib r.id
    → IsPrintableOption lib r.result
    → IsPrintableError lib r.error
    → Answers lib (serialize_message lib r) r
unfolding serialize_message
serialize_message-Answers lib r i p q = record {
  found = response_value r;
  parsed =
      parse-serialize lib (response_value r) (response-IsPrintable lib r.id r.result r.error i p q);
  version = (response-get r.id r.result r.error).0;
  answers = (response-get r.id r.result r.error).1;
  result = (response-get r.id r.result r.error).2;
  error = (response-get r.id r.result r.error).3;
}
