-- ===== src/Rpc/Client/Carried.antt =====
-- `decodeResponseStatus` on the metadata that `makeResponseFrame` has tagged.
use nexus_rpc.Common.{◌≡◌, refl, ◌∙◌}
use nexus_rpc.Common.{if◌then◌else◌, ltb, Bool-cases, inl, inr}
use nexus_rpc.Common.{Bytes, [], length}
use nexus_rpc.Common.{Option, none, some}
use nexus_rpc.Common.ByteMap.{find, set, find-set}
use nexus_rpc.Frame.Metadata.{Metadata}
use nexus_rpc.Rpc.Strings.{status_code_metadata_key, status_message_metadata_key}
use nexus_rpc.Rpc.Message.{StatusCode, Status, ok_status, RpcResponse}
use nexus_rpc.Rpc.Message.{
  invalid_argument, deadline_exceeded, not_found, resource_exhausted, unsupported_compression,
  unavailable, internal,
}
use nexus_rpc.Rpc.Decimal.{to_string, digits_from, from_chars, read_digits, read_magnitude}
use nexus_rpc.Rpc.Response.{status_code_to_string, with_status}
use nexus_rpc.Rpc.Client.{checked_code, found_code, decode_response_status}

code_read : (code : StatusCode) → checked_code (from_chars (status_code_to_string code)) ≡ some code
unfolding status_code_to_string to_string digits_from from_chars read_digits read_magnitude
    checked_code
code_read StatusCode.ok = refl
code_read invalid_argument = refl
code_read deadline_exceeded = refl
code_read not_found = refl
code_read resource_exhausted = refl
code_read unsupported_compression = refl
code_read unavailable = refl
code_read internal = refl

abbrev pub message_in : Option Bytes → Bytes
message_in none = []
message_in (some m) = m

-- The message that the client finds: that of the status, or where it is empty one that the metadata of
-- the application holds under the reserved key.
abbrev pub reported_message : RpcResponse → Bytes
reported_message response =
    if ltb 0 (length response.status.message)
    then response.status.message
    else message_in (find status_message_metadata_key response.metadata)

abbrev pub reported : RpcResponse → Status
reported response = record { code = response.status.code; message = reported_message response }

-- A metadata map that holds a status.
abbrev pub Carries : Metadata → Status → Type 0
Carries metadata status = decode_response_status metadata ≡ (ok_status, some status)

pub Carries-found :
    (metadata : Metadata) (code : StatusCode) (found : Option Bytes)
    → find status_code_metadata_key metadata ≡ some (status_code_to_string code)
    → find status_message_metadata_key metadata ≡ found
    → Carries metadata (record { code = code; message = message_in found })
unfolding decode_response_status found_code
Carries-found metadata code none e f = rw (decode_response_status, e, code_read code, f)
Carries-found metadata code (some m) e f = rw (decode_response_status, e, code_read code, f)

pub with_status-Carries :
    (response : RpcResponse) → Carries (with_status response).metadata (reported response)
unfolding with_status
with_status-Carries response =
    let code = status_code_to_string response.status.code in
    let message = response.status.message in
    let tagged : Metadata = set status_code_metadata_key code response.metadata in
    let code_there : find status_code_metadata_key tagged ≡ some code =
      find-set status_code_metadata_key status_code_metadata_key code response.metadata in
    elim (Bool-cases (ltb 0 (length message))) [
      | inl spoken ↦ rw spoken (
          Carries-found _ response.status.code (some message)
            (find-set status_message_metadata_key status_code_metadata_key message tagged
              ∙ code_there)
            (find-set status_message_metadata_key status_message_metadata_key message tagged))
      | inr silent ↦ rw silent (
          Carries-found tagged response.status.code _ code_there
            (find-set status_code_metadata_key status_message_metadata_key code response.metadata))
    ]
