-- ===== src/Lib.antt =====
-- NexusRPC: an RPC framework over TCP. A frame is a fixed header of 32 bytes, a metadata map in
-- Protobuf wire format, and a body. `encodeFrame` writes frames; `FrameParser` reads them from a
-- stream that arrives in parts.
--
-- The parts and their files:
--   Common               bytes, lists, Boolean tests, the map of strings, outcomes of memory walks
--   Frame.Constants      include/nexus/rpc/frame_constants.h
--   Frame.BigEndian      src/rpc/frame_codec.cpp, `writeU32BE` to `readU64BE`
--   Frame.Varint         src/rpc/frame_codec.cpp, `varintByteSize` to `decodeVarint`
--   Frame.Header         src/rpc/frame_codec.cpp, `validateCommon` to `decodeHeader`
--   Frame.Metadata       src/rpc/frame_codec.cpp, `encodeMetadata` and `decodeMetadata`
--   Frame.Encode         src/rpc/frame_codec.cpp, `encodeFrame`
--   Frame.Parser         src/rpc/frame_codec.cpp, `FrameParser`, include/nexus/rpc/frame_codec.h
--   Net.Buffer           src/net/buffer.cpp, include/nexus/net/buffer.h
--   Net.TcpConnection    src/net/tcp_connection.cpp, include/nexus/net/tcp_connection.h: the state
--                        (State), and the operations and handlers as steps
--   Rpc.Message          include/nexus/rpc/status.h, include/nexus/rpc/rpc_message.h
--   Rpc.Decimal          `std::to_string` and `std::from_chars` as src/rpc uses them
--   Rpc.Response         src/rpc/rpc_server.cpp, `makeResponseFrame`
--   Rpc.Server           src/rpc/rpc_server.cpp, `onMessage` and `enqueue`
--   Rpc.Client           src/rpc/rpc_client.cpp, `nextRequestId`, `decodeResponseStatus`, and `call`
--                        behind its call of `writeAll`
--   Json                 src/mcp/json_rpc.cpp, include/nexus/mcp/json_rpc.h: `JsonValue` (Value), its
--                        `serialize` (Print), `JsonParserImpl` (Lexer, Parser), and the requests,
--                        responses and errors of JSON-RPC (Message)
--   Mcp.Tool             include/nexus/mcp/tool_registry.h, and `buildToolSchema` and
--                        `buildPropertySchema` of src/mcp/mcp_server.cpp
--   Mcp.Registry         src/mcp/tool_registry.cpp, `toSnakeCase` and the registry of tools
--   Mcp.Descriptors      src/mcp/tool_registry.cpp, from Protobuf descriptors to tools
--   Mcp.Convert          src/mcp/mcp_server.cpp, `jsonToProtobuf` and `protobufToJson`
--   Mcp.Server           src/mcp/mcp_server.cpp, the session, `dispatch` and `run`
--
-- Machine integers are natural numbers with their casts written out (`% 2 ^ 32`); a byte is a number
-- below 256 where a theorem needs it. A raw pointer is the list of the readable bytes from it on, and
-- the distance to an end pointer is a number beside it; a read past the readable bytes is the outcome
-- `out_of_bounds`. The loops of `decodeMetadata` run on fuel: every round takes a byte of the payload,
-- so that its length is enough. The varint encoders recurse on the accessibility of `<`. A
-- `std::map<std::string, std::string>` is an association list in ascending order of its keys.
-- A `Buffer` holds the bytes of a connection; its storage is a list, an exception of it is `refused`,
-- and the answer of `readv` is an argument of `readFd`.
-- A connection is driven by steps that hold what the system calls return; its buffers are the queues
-- of their readable bytes. A handler in the thread of the loop is one step; `send` and `shutdown` of
-- another thread are one step for each access to the state or the loop. Its callbacks are events of a
-- log: `forceClose` and `shutdown` of the high-water callback run inside `sendInLoop`, what the other
-- callbacks call is a later step, and a high-water callback that sends is not modelled.
-- The client's socket is the list of the bytes that it delivers; what `readAll` returns when they are
-- too few is an argument.
-- The server's loop over complete frames runs on fuel, one for each frame. Its worker threads take
-- requests from the queue between calls of `onMessage`.
-- The JSON parser runs on fuel, three units for each byte and one more; it holds the input from its
-- position on, and line and column are counted when an error is reported. A double is the number of its
-- 64 bits; `strtod` and the format `%.17g` are a parameter. The registry's mutex is left out.
-- `buildSchema` runs on fuel, a unit for each message inside another: messages may hold each other in a
-- circle. What descriptors answer, the Protobuf library and the answers of `RpcClient::call` to the MCP
-- server are parameters; `stop` is an input of `run`.
-- The debug-only `assert`s of `encodeHeader`, `encodeFrame` and `Buffer` are left out.
--
-- Not modelled: memory allocation and its failure, sockets, threads, the
-- event loop with its channels, the TCP server, and the remaining parts of the RPC server and client.
pub mod Common
pub mod Frame
pub mod Json
pub mod Mcp
pub mod Net
pub mod Rpc
