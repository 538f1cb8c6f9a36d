-- ===== src/Net/TcpConnection/Life.antt =====
-- A connection stays valid over its whole life.
use nexus_rpc.Common.{ℕ, ◌≡◌, refl, Bool, true, false, not}
use nexus_rpc.Common.{Bytes, List, [], ◌∷◌, Option, none, some}
use nexus_rpc.Net.TcpConnection.{
  ConnectionState, disconnected, connecting, connected, disconnecting, Errno, connection_changed,
  removed,
}
use nexus_rpc.Net.TcpConnection.{
  Functor, send_functor, shutdown_functor, force_close_functor, TcpConnection, emit, disconnect,
  connect_destroyed, connect_established, new_connection, is_connected,
}
use nexus_rpc.Net.TcpConnection.{
  send_in_loop, force_close_in_loop, queue_in_loop, send, force_close, run_first, run_pending,
}
use nexus_rpc.Net.TcpConnection.{
  Step, send_step, shutdown_step, force_close_step, pending_step, readable, writable, hung_up,
  destroyed, step, run_steps,
}
use nexus_rpc.Net.TcpConnection.Valid.{
  closes, Fits, IsValid, emit-IsValid, either-IsValid, disconnect-Fits, handle_close-IsValid,
}
use nexus_rpc.Net.TcpConnection.Sending.{
  keeps_open, shutdown-IsValid, send_in_loop-IsValid, shutdown_in_loop-IsValid,
  force_close_in_loop-IsValid, handle_read-IsValid,
}
use nexus_rpc.Net.TcpConnection.Writing.{handle_write-IsValid}
use nexus_rpc.Net.TcpConnection.{SendResult, Call, sending, shutting_down, shut, is_disconnected}
use nexus_rpc.Net.TcpConnection.{
  start_call, take_call, continue_taken, continue_at, other_send, other_shutdown, continue_step,
}

-- The next access of the call sets the state of a connection that is closed.
abbrev pub overwrites : Option (Call × List Call) → ConnectionState → Bool
overwrites (some (shutting_down, calls)) s = is_disconnected s
overwrites _ s = false

-- The step does not close the connection in the high-water callback, and is not the `shutdown` of another
-- thread that sets the state of a connection which was closed since its test.
abbrev pub is_orderly : Step → TcpConnection → Bool
is_orderly (send_step bytes r) c = keeps_open r.reaction
is_orderly (pending_step w s) c = keeps_open w.reaction
is_orderly (continue_step n) c = not (overwrites (take_call n c.calls) c.state)
is_orderly _ c = true

abbrev pub AllOrderly : List Step → TcpConnection → Type 0
AllOrderly [] c = Unit
AllOrderly (s ∷ ss) c = (is_orderly s c ≡ true) × AllOrderly ss (step s c)

run_first-IsValid :
    (fs : List Functor) (w : SendResult) (s : Option Errno) (c : TcpConnection)
    → keeps_open w.reaction ≡ true
    → IsValid c
    → IsValid (run_first fs w s c)
run_first-IsValid [] w s c k v = v
run_first-IsValid (send_functor bytes ∷ fs) w s c k v =
    send_in_loop-IsValid bytes w (record c { pending = fs }) k v
run_first-IsValid (shutdown_functor ∷ fs) w s c k v =
    shutdown_in_loop-IsValid s (record c { pending = fs }) v
run_first-IsValid (force_close_functor ∷ fs) w s c k v =
    force_close_in_loop-IsValid (record c { pending = fs }) v

-- Setting the state of an open connection.
set-Fits :
    (s : ConnectionState) (output : Bytes) (reading writing : Bool) (k : ℕ)
    → not (is_disconnected s) ≡ true
    → Fits s output reading writing k
    → Fits disconnecting output reading writing k
set-Fits disconnected output reading writing k h v = absurd cc
set-Fits connecting output reading writing k h v = v
set-Fits connected output reading writing k h v = v
set-Fits disconnecting output reading writing k h v = v

continue_taken-IsValid :
    (found : Option (Call × List Call)) (c : TcpConnection)
    → not (overwrites found c.state) ≡ true
    → IsValid c
    → IsValid (continue_taken found c)
continue_taken-IsValid none c h v = v
continue_taken-IsValid (some (sending bytes, calls)) c h v = v
continue_taken-IsValid (some (shutting_down, calls)) c h v =
    set-Fits c.state c.output c.reading c.writing (closes c.log) h v
continue_taken-IsValid (some (shut, calls)) c h v = v

connect_destroyed-IsValid : (c : TcpConnection) → IsValid c → IsValid (connect_destroyed c)
unfolding connect_destroyed
connect_destroyed-IsValid c v =
    let gone = disconnect c in
    emit-IsValid removed (emit connection_changed gone) refl (
      emit-IsValid connection_changed gone refl (
        disconnect-Fits c.input c.output c.reading c.writing c.high_water_mark c.calls c.pending
          c.log c.state v))

step-IsValid :
    (s : Step) (c : TcpConnection) → is_orderly s c ≡ true → IsValid c → IsValid (step s c)
unfolding step send force_close run_pending start_call continue_at
step-IsValid (send_step bytes r) c k v =
    either-IsValid (is_connected c.state) (send_in_loop bytes r c) c
      (send_in_loop-IsValid bytes r c k v) v
step-IsValid (shutdown_step r) c k v = shutdown-IsValid r c v
step-IsValid (force_close_step here) c k v =
    either-IsValid here (force_close_in_loop c) (queue_in_loop force_close_functor c)
      (force_close_in_loop-IsValid c v) v
step-IsValid (other_send bytes) c k v = either-IsValid (is_connected c.state) _ c v v
step-IsValid other_shutdown c k v = either-IsValid (is_connected c.state) _ c v v
step-IsValid (continue_step n) c k v = continue_taken-IsValid (take_call n c.calls) c k v
step-IsValid (pending_step w s) c k v = run_first-IsValid c.pending w s c k v
step-IsValid (readable rs) c k v = handle_read-IsValid rs c v
step-IsValid (writable rs s) c k v = handle_write-IsValid rs s c v
step-IsValid hung_up c k v = handle_close-IsValid c v
step-IsValid destroyed c k v = connect_destroyed-IsValid c v

run-IsValid :
    (ss : List Step) (c : TcpConnection) → AllOrderly ss c → IsValid c → IsValid (run_steps ss c)
unfolding run_steps
run-IsValid [] c o v = v
run-IsValid (s ∷ ss) c o v = run-IsValid ss (step s c) o.1 (step-IsValid s c o.0 v)

-- Over any steps of an established connection in which no high-water callback closes it and no
-- `shutdown` of another thread sets the state of a connection that was closed since its test: while the
-- connection is open, the channel waits for writing exactly when bytes are queued and the close callback
-- has not been called; afterwards the channel waits for nothing and the close callback has been called
-- at most once.
pub run_steps-IsValid :
    (mark : ℕ) (ss : List Step)
    → AllOrderly ss (connect_established (new_connection mark))
    → IsValid (run_steps ss (connect_established (new_connection mark)))
unfolding connect_established
run_steps-IsValid mark ss o =
    run-IsValid ss (connect_established (new_connection mark)) o (refl, refl)
