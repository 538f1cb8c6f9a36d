-- ===== src/Mcp/Convert.antt =====
-- The conversions between JSON and Protobuf of src/mcp/mcp_server.cpp.
use nexus_rpc.Common.{Bytes, [], ◌∷◌, ◌++◌, Option, none, some}
use nexus_rpc.Rpc.Message.{StatusCode, Status}
use nexus_rpc.Json.Value.{JsonValue, object}
use nexus_rpc.Json.Value.{Doubles}
use nexus_rpc.Json.Print.{serialize}
use nexus_rpc.Json.Message.{Validated, accepted, refused, parse_request}
use nexus_rpc.Mcp.Registry.{ToolRegistry}
use nexus_rpc.Mcp.Words.{}
use nexus_rpc.Mcp.Words.{}
use nexus_rpc.Mcp.Words.{}
use nexus_rpc.Mcp.Words.{}
use nexus_rpc.Mcp.Words.{}
use nexus_rpc.Mcp.Words.{null_descriptor, not_serialized, not_parsed, wrapper_head, not_json}

-- The Protobuf library: reading JSON into a message and writing it as bytes, and back. A step that
-- fails leaves its text or nothing.
pub data Encoded : Type 0 where
  encoded : Bytes → Encoded
  bad_json : Bytes → Encoded
  not_encoded : Encoded

pub data Decoded : Type 0 where
  decoded : Bytes → Decoded
  bad_message : Decoded
  not_printed : Bytes → Decoded

pub record Protobuf (D : Type 0) : Type 0 where
  pub from_json : D → Bytes → Encoded
  pub to_json : D → Bytes → Decoded

-- `Result<T>`.
pub data Converted {ℓ} (A : Type ℓ) : Type ℓ where
  converted : A → Converted A
  unconverted : Status → Converted A

-- `Impl`, but for the session and `stopped`: what does not change while the server runs.
pub record Server (D : Type 0) : Type 0 where
  pub lib : Doubles
  pub protobuf : Protobuf D
  pub registry : ToolRegistry D
  pub server_name : Bytes
  pub server_version : Bytes

abbrev pub encode_status : Encoded → Converted Bytes
encode_status (encoded binary) = converted binary
encode_status (bad_json text) =
    unconverted (record { code = StatusCode.invalid_argument; message = text })
encode_status not_encoded =
    unconverted (record { code = StatusCode.internal; message = not_serialized })

abbrev pub only_object : JsonValue → Converted JsonValue
only_object (object ms) = converted (object ms)
only_object _ = unconverted (record { code = StatusCode.internal; message = not_json })

abbrev pub params_of : Validated → Converted JsonValue
params_of (accepted request) = only_object request.params
params_of (refused message) =
    unconverted (record { code = StatusCode.internal; message = not_json })

module _ {D : Type 0} where
  -- `jsonToProtobuf`.
  unfoldable pub json_to_protobuf : Server D → JsonValue → Option D → Converted Bytes
  json_to_protobuf server json none =
      unconverted (record { code = StatusCode.invalid_argument; message = null_descriptor })
  json_to_protobuf server json (some descriptor) =
      encode_status (server.protobuf.from_json descriptor (serialize server.lib json))

  -- The JSON text in its wrapper, parsed as a request.
  unfoldable pub decode_status : Server D → Decoded → Converted JsonValue
  decode_status server (decoded text) =
      params_of (parse_request server.lib (wrapper_head ++ (text ++ (125 ∷ []))))
  decode_status server bad_message =
      unconverted (record { code = StatusCode.internal; message = not_parsed })
  decode_status server (not_printed text) =
      unconverted (record { code = StatusCode.internal; message = text })

  -- `protobufToJson`.
  unfoldable pub protobuf_to_json : Server D → Bytes → Option D → Converted JsonValue
  protobuf_to_json server binary none =
      unconverted (record { code = StatusCode.invalid_argument; message = null_descriptor })
  protobuf_to_json server binary (some descriptor) =
      decode_status server (server.protobuf.to_json descriptor binary)
