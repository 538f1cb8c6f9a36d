-- ===== src/Net/TcpConnection.antt =====
-- `TcpConnection` of src/net/tcp_connection.cpp, as its event loop drives it.
-- A buffer is the queue of its readable bytes. What the system calls return is an argument. A handler of
-- the loop's thread is one step; a call from another thread is one step for each access to the state or
-- the loop. The callbacks, which are all set, are written to a log. What the high-water callback calls
-- on the connection runs inside `sendInLoop`; what the other callbacks call is a step of its own.
mod State
pub mod Stream
pub mod Sent
pub mod Valid
pub mod Sending
pub mod Writing
pub mod Life
pub mod Tests
use nexus_rpc.Common.{
  ℕ, zero, suc, ◌+◌, ◌≡◌, Bool, true, false, ◌&&◌, ◌||◌, not, if◌then◌else◌, ltb, leb, ◌==◌,
}
pub use State.*
use nexus_rpc.Common.{Bytes, List, [], ◌∷◌, ◌++◌, Option, none, some, length, take, drop}

unfoldable pub connect_established : TcpConnection → TcpConnection
connect_established c = emit connection_changed (record c { state = connected; reading = true })

-- `disableAll` in a state that is not `kDisconnected` yet.
abbrev pub disconnect : TcpConnection → TcpConnection
disconnect c =
    if is_disconnected c.state
    then c
    else record c { state = disconnected; reading = false; writing = false }

unfoldable pub connect_destroyed : TcpConnection → TcpConnection
connect_destroyed c = emit removed (emit connection_changed (disconnect c))

-- `handleClose`, and `handleError`, which only calls it.
unfoldable pub handle_close : TcpConnection → TcpConnection
handle_close c = if is_disconnected c.state then c else emit closed (disconnect c)

abbrev pub is_empty : Bytes → Bool
is_empty [] = true
is_empty (b ∷ bs) = false

-- What a call of `::write` counts as written: none is an error other than `EAGAIN`.
abbrev pub count_written : WriteResult → Option ℕ
count_written r = elim r.returned [
  | some n ↦ some n
  | none ↦ if is_again r.errno then some 0 else none
]

-- `n_written`: nothing is written if bytes are queued or the channel is writing.
abbrev pub attempt : TcpConnection → WriteResult → Option ℕ
attempt c r = if is_empty c.output && not c.writing then count_written r else some 0

abbrev pub log_sent : Bytes → TcpConnection → TcpConnection
log_sent [] c = c
log_sent (b ∷ bs) c = emit (sent (b ∷ bs)) c

abbrev pub crosses_mark : ℕ → ℕ → ℕ → Bool
crosses_mark mark before after = ltb 0 mark && ltb before mark && leb mark after

-- What `::shutdown` returns: an error, or none.
abbrev pub after_shutdown : Option Errno → TcpConnection → TcpConnection
after_shutdown none c = c
after_shutdown (some errno) c = if is_gone errno then c else handle_close c

unfoldable pub shutdown_in_loop : Option Errno → TcpConnection → TcpConnection
shutdown_in_loop r c =
    if is_disconnecting c.state && is_empty c.output then after_shutdown r (emit shut_down c) else c

unfoldable pub force_close_in_loop : TcpConnection → TcpConnection
force_close_in_loop c =
    if is_connected c.state || is_disconnecting c.state then handle_close c else c

-- `shutdown` in the loop's thread.
unfoldable pub shutdown : Option Errno → TcpConnection → TcpConnection
shutdown r c =
    if is_connected c.state then shutdown_in_loop r (record c { state = disconnecting }) else c

abbrev pub react : Reaction → TcpConnection → TcpConnection
react keeps c = c
react force_closes c = force_close_in_loop c
react (shuts_down r) c = shutdown r c

-- The bytes that were not written are queued, behind the high-water callback.
abbrev pub queue : Reaction → Bytes → TcpConnection → TcpConnection
queue reaction [] c = c
queue reaction (b ∷ bs) c =
    let size = length c.output + length (b ∷ bs) in
    let noted =
      if crosses_mark c.high_water_mark (length c.output) size
      then react reaction (emit (high_water size) c)
      else c in
    record noted { output = noted.output ++ (b ∷ bs); writing = true }

-- The end of `sendInLoop`, with the number of bytes that were written.
abbrev pub finish_send : Reaction → Bytes → TcpConnection → Option ℕ → TcpConnection
finish_send reaction bytes c none = handle_close c
finish_send reaction bytes c (some n) =
    let later = queue reaction (drop n bytes) (log_sent (take n bytes) c) in
    if ltb 0 n && is_empty (drop n bytes) && is_empty c.output
    then emit write_complete later
    else later

unfoldable pub send_in_loop : Bytes → SendResult → TcpConnection → TcpConnection
send_in_loop bytes r c =
    if is_connected c.state then finish_send r.reaction bytes c (attempt c r.write) else c

-- `runInLoop` from another thread.
abbrev pub queue_in_loop : Functor → TcpConnection → TcpConnection
queue_in_loop f c = record c { pending = c.pending ++ (f ∷ []) }

-- `send` in the loop's thread.
unfoldable pub send : Bytes → SendResult → TcpConnection → TcpConnection
send bytes r c = if is_connected c.state then send_in_loop bytes r c else c

-- `send` or `shutdown` from another thread, up to the test of the state.
unfoldable pub start_call : Call → TcpConnection → TcpConnection
start_call call c = if is_connected c.state then record c { calls = c.calls ++ (call ∷ []) } else c

-- The next access of such a call. `shutdown` sets the state whatever it has become since the test.
abbrev pub continue_call : Call → TcpConnection → TcpConnection
continue_call (sending bytes) c = queue_in_loop (send_functor bytes) c
continue_call shutting_down c = record c { state = disconnecting; calls = c.calls ++ (shut ∷ []) }
continue_call shut c = queue_in_loop shutdown_functor c

-- The call at a position, and the others.
unfoldable pub take_call : ℕ → List Call → Option (Call × List Call)
take_call n [] = none
take_call zero (call ∷ calls) = some (call, calls)
take_call (suc n) (call ∷ calls) = elim (take_call n calls) [
  | none ↦ none
  | some (found, others) ↦ some (found, call ∷ others)
]

abbrev pub continue_taken : Option (Call × List Call) → TcpConnection → TcpConnection
continue_taken none c = c
continue_taken (some (call, calls)) c = continue_call call (record c { calls = calls })

unfoldable pub continue_at : ℕ → TcpConnection → TcpConnection
continue_at n c = continue_taken (take_call n c.calls) c

unfoldable pub force_close : Bool → TcpConnection → TcpConnection
force_close in_loop_thread c =
    if in_loop_thread then force_close_in_loop c else queue_in_loop force_close_functor c

abbrev pub run_functor : Functor → SendResult → Option Errno → TcpConnection → TcpConnection
run_functor (send_functor bytes) w s c = send_in_loop bytes w c
run_functor shutdown_functor w s c = shutdown_in_loop s c
run_functor force_close_functor w s c = force_close_in_loop c

abbrev pub run_first : List Functor → SendResult → Option Errno → TcpConnection → TcpConnection
run_first [] w s c = c
run_first (f ∷ fs) w s c = run_functor f w s (record c { pending = fs })

-- The loop runs the first queued functor.
unfoldable pub run_pending : SendResult → Option Errno → TcpConnection → TcpConnection
run_pending w s c = run_first c.pending w s c

-- `handleRead`: the calls of `readFd` up to `EAGAIN`, the end of the stream or an error.
unfoldable pub handle_read : List ReadResult → TcpConnection → TcpConnection
handle_read [] c = c
handle_read (received [] ∷ rs) c = handle_close c
handle_read (received (b ∷ bs) ∷ rs) c =
    handle_read rs (emit message (record c { input = c.input ++ (b ∷ bs) }))
handle_read (read_failed errno ∷ rs) c = if is_again errno then c else handle_close c

-- A part of the queue was written.
abbrev pub take_written : ℕ → TcpConnection → TcpConnection
take_written n c = log_sent (take n c.output) (record c { output = drop n c.output })

-- The test of what `::write` returned; the flag is false behind an error.
abbrev pub after_write :
    Option ℕ → Errno → TcpConnection → (ℕ → Bool × TcpConnection) → Bool × TcpConnection
after_write (some (suc n)) errno c go = go (suc n)
after_write (some zero) errno c go = if is_again errno then (true, c) else (false, handle_close c)
after_write none errno c go = if is_again errno then (true, c) else (false, handle_close c)

-- The loop of `handleWrite`.
unfoldable pub drain : List WriteResult → TcpConnection → Bool × TcpConnection
drain [] c = (true, c)
drain (r ∷ rs) c =
    let next = after_write r.returned r.errno c λ n. drain rs (take_written n c) in
    if is_empty c.output then (true, c) else next

-- The end of `handleWrite` when the queue is empty.
abbrev pub drained : Option Errno → TcpConnection → TcpConnection
drained s c =
    let noted = emit write_complete (record c { writing = false }) in
    if is_disconnecting c.state then shutdown_in_loop s noted else noted

abbrev pub finish_write : Option Errno → Bool × TcpConnection → TcpConnection
finish_write s (false, c) = c
finish_write s (true, c) = if is_empty c.output then drained s c else c

unfoldable pub handle_write : List WriteResult → Option Errno → TcpConnection → TcpConnection
handle_write rs s c = if is_disconnected c.state then c else finish_write s (drain rs c)

-- What happens to an established connection, with what the system calls return. Of the calls of other
-- threads, any that has started goes on at any time.
pub data Step : Type 0 where
  send_step : Bytes → SendResult → Step
  shutdown_step : Option Errno → Step
  force_close_step : Bool → Step
  other_send : Bytes → Step
  other_shutdown : Step
  continue_step : ℕ → Step
  pending_step : SendResult → Option Errno → Step
  readable : List ReadResult → Step
  writable : List WriteResult → Option Errno → Step
  hung_up destroyed : Step

unfoldable pub step : Step → TcpConnection → TcpConnection
step (send_step bytes r) c = send bytes r c
step (shutdown_step r) c = shutdown r c
step (force_close_step here) c = force_close here c
step (other_send bytes) c = start_call (sending bytes) c
step other_shutdown c = start_call shutting_down c
step (continue_step n) c = continue_at n c
step (pending_step w s) c = run_pending w s c
step (readable rs) c = handle_read rs c
step (writable rs s) c = handle_write rs s c
step hung_up c = handle_close c
step destroyed c = connect_destroyed c

unfoldable pub run_steps : List Step → TcpConnection → TcpConnection
run_steps [] c = c
run_steps (s ∷ ss) c = run_steps ss (step s c)
