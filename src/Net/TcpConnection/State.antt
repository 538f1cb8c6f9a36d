-- ===== src/Net/TcpConnection/State.antt =====
-- The state of a `TcpConnection` of src/net/tcp_connection.cpp, and what its system calls and callbacks
-- answer.
use nexus_rpc.Common.{ℕ, Bool, true, false, Bytes, List, [], ◌∷◌, ◌++◌, Option}

-- `State`.
pub data ConnectionState : Type 0 where
  disconnected connecting connected disconnecting : ConnectionState

abbrev pub is_connected : ConnectionState → Bool
is_connected connected = true
is_connected _ = false

abbrev pub is_disconnected : ConnectionState → Bool
is_disconnected disconnected = true
is_disconnected _ = false

abbrev pub is_disconnecting : ConnectionState → Bool
is_disconnecting disconnecting = true
is_disconnecting _ = false

-- `errno`, as far as the code tells its values apart.
pub data Errno : Type 0 where
  again not_connected reset other_error : Errno

abbrev pub is_again : Errno → Bool
is_again again = true
is_again _ = false

-- `ENOTCONN` or `ECONNRESET`.
abbrev pub is_gone : Errno → Bool
is_gone not_connected = true
is_gone reset = true
is_gone _ = false

-- What `write` returns, which is at most the number of bytes it was given or negative (`none`), and
-- `errno` behind it.
pub record WriteResult : Type 0 where
  pub returned : Option ℕ
  pub errno : Errno

-- What the high-water callback does with the connection: nothing, `forceClose`, or `shutdown` with what
-- `::shutdown` returns. A callback that sends is left out.
pub data Reaction : Type 0 where
  keeps force_closes : Reaction
  shuts_down : Option Errno → Reaction

-- What is outside of the connection while `sendInLoop` runs.
pub record SendResult : Type 0 where
  pub write : WriteResult
  pub reaction : Reaction

-- What `readFd` reads; no bytes are the end of the stream.
pub data ReadResult : Type 0 where
  received : Bytes → ReadResult
  read_failed : Errno → ReadResult

-- The calls of the system and of the callbacks.
pub data Event : Type 0 where
  sent : Bytes → Event
  message connection_changed write_complete closed shut_down removed : Event
  high_water : ℕ → Event

-- What other threads have queued in the loop.
pub data Functor : Type 0 where
  send_functor : Bytes → Functor
  shutdown_functor force_close_functor : Functor

-- A call of another thread that has found the state `kConnected`: `send` is about to queue its bytes,
-- `shutdown` is about to set the state, or has set it and is about to queue its functor.
pub data Call : Type 0 where
  sending : Bytes → Call
  shutting_down shut : Call

pub record TcpConnection : Type 0 where
  pub state : ConnectionState
  pub input : Bytes
  pub output : Bytes
  pub reading : Bool
  pub writing : Bool
  pub high_water_mark : ℕ
  pub calls : List Call
  pub pending : List Functor
  pub log : List Event

abbrev pub emit : Event → TcpConnection → TcpConnection
emit e c = record c { log = c.log ++ (e ∷ []) }

-- The constructor, with the mark of `setHighWaterMarkCallback`.
abbrev pub new_connection : ℕ → TcpConnection
new_connection mark = record {
  state = connecting;
  input = [];
  output = [];
  reading = false;
  writing = false;
  high_water_mark = mark;
  calls = [];
  pending = [];
  log = [];
}
