-- ===== src/Rpc/Message.antt =====
-- include/nexus/rpc/status.h and include/nexus/rpc/rpc_message.h.
use nexus_rpc.Common.{ℕ, Bool, true, false, ◌==◌, if◌then◌else◌, Bytes, []}
use nexus_rpc.Frame.Metadata.{Metadata}

pub data StatusCode : Type 0 where
  ok invalid_argument deadline_exceeded not_found : StatusCode
  resource_exhausted unsupported_compression unavailable internal : StatusCode

-- `static_cast<int>` of a status code.
abbrev pub status_code_value : StatusCode → ℕ
status_code_value ok = 0
status_code_value invalid_argument = 1
status_code_value deadline_exceeded = 2
status_code_value not_found = 3
status_code_value resource_exhausted = 4
status_code_value unsupported_compression = 5
status_code_value unavailable = 6
status_code_value internal = 7

-- `static_cast<StatusCode>` of a number that is at most 7.
abbrev pub status_code_of : ℕ → StatusCode
status_code_of n =
    if n == 0
    then ok
    else if n == 1
    then invalid_argument
    else if n == 2
    then deadline_exceeded
    else if n == 3
    then not_found
    else if n == 4
    then resource_exhausted
    else if n == 5
    then unsupported_compression
    else if n == 6
    then unavailable
    else internal

pub record Status : Type 0 where
  pub code : StatusCode
  pub message : Bytes

abbrev pub ok_status : Status
ok_status = record { code = StatusCode.ok; message = [] }

abbrev pub is_ok : Status → Bool
is_ok s = elim s.code [ StatusCode.ok ↦ true | _ ↦ false ]

pub record RpcRequest : Type 0 where
  pub service : Bytes
  pub method : Bytes
  pub metadata : Metadata
  pub body : Bytes
  pub request_id : ℕ

pub record RpcResponse : Type 0 where
  pub status : Status
  pub metadata : Metadata
  pub body : Bytes

-- `Result<RpcResponse>`: a status that is not a value, or a value.
pub data CallResult : Type 0 where
  failure : Status → CallResult
  value : RpcResponse → CallResult
