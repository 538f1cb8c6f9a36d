-- ===== src/Net/TcpConnection/Sent.antt =====
-- What each step of a connection adds to the stream of its bytes.
use nexus_rpc.Common.{ℕ, zero, suc, ◌≡◌, refl, sym, ap, ap₂, ◌∙◌, Bool, true, false, if◌then◌else◌}
use nexus_rpc.Common.{
  Bytes, List, [], ◌∷◌, ◌++◌, Option, none, some, take, drop, append_assoc, append-nil,
  take-append-drop,
}
use nexus_rpc.Net.TcpConnection.{
  Errno, WriteResult, ReadResult, received, read_failed, message, connection_changed,
  write_complete, removed,
}
use nexus_rpc.Net.TcpConnection.{
  Functor, send_functor, shutdown_functor, force_close_functor, TcpConnection, emit, disconnect,
  connect_destroyed, handle_close, is_empty, is_again, is_connected, is_disconnected,
  is_disconnecting,
}
use nexus_rpc.Net.TcpConnection.{
  attempt, send_in_loop, send, force_close, run_first, run_pending, after_write,
}
use nexus_rpc.Net.TcpConnection.{
  handle_read, take_written, drain, drained, finish_write, handle_write, Step, send_step,
  shutdown_step, force_close_step, pending_step, readable, writable, hung_up, destroyed, step,
  run_steps,
}
use nexus_rpc.Net.TcpConnection.Stream.{
  stream, written, accepted, accepted_all, accepted_send, accepted_first, taken, stream-emit,
  shutdown_in_loop-stream, force_close_in_loop-stream, shutdown-stream, either-stream,
  disconnect-stream, handle_close-stream, log_sent-written, log_sent-output, send_in_loop-stream,
}
use nexus_rpc.Net.TcpConnection.{SendResult, Call, sending, shutting_down, shut}
use nexus_rpc.Net.TcpConnection.{
  start_call, take_call, continue_taken, continue_at, other_send, other_shutdown, continue_step,
}

handle_read-stream :
    (rs : List ReadResult) (c : TcpConnection) → stream (handle_read rs c) ≡ stream c
unfolding handle_read
handle_read-stream [] c = refl
handle_read-stream (received [] ∷ rs) c = handle_close-stream c
handle_read-stream (received (b ∷ bs) ∷ rs) c =
    let more = record c { input = c.input ++ (b ∷ bs) } in
    handle_read-stream rs (emit message more) ∙ stream-emit message more refl
handle_read-stream (read_failed errno ∷ rs) c =
    either-stream (is_again errno) c (handle_close c) (stream c) refl (handle_close-stream c)

take_written-stream : (n : ℕ) (c : TcpConnection) → stream (take_written n c) ≡ stream c
take_written-stream n c =
    let w = take n c.output in
    let shorter = record c { output = drop n c.output } in
    ap₂ (λ x y. x ++ y) (log_sent-written w shorter) (log_sent-output w shorter)
    ∙ append_assoc (written c.log) w (drop n c.output)
    ∙ ap (λ t. written c.log ++ t) (take-append-drop n c.output)

either_left-stream :
    (b : Bool) (x y : Bool × TcpConnection) (bytes : Bytes)
    → stream x.1 ≡ bytes
    → stream y.1 ≡ bytes
    → stream (if b then x else y).1 ≡ bytes
either_left-stream true x y bytes h k = h
either_left-stream false x y bytes h k = k

after_write-stream :
    (o : Option ℕ) (errno : Errno) (c : TcpConnection) (go : ℕ → Bool × TcpConnection)
    → ((n : ℕ) → stream (go n).1 ≡ stream c)
    → stream (after_write o errno c go).1 ≡ stream c
after_write-stream (some (suc n)) errno c go h = h (suc n)
after_write-stream (some zero) errno c go h =
    either_left-stream (is_again errno) (true, c) (false, handle_close c) (stream c) refl
      (handle_close-stream c)
after_write-stream none errno c go h =
    either_left-stream (is_again errno) (true, c) (false, handle_close c) (stream c) refl
      (handle_close-stream c)

drain-stream : (rs : List WriteResult) (c : TcpConnection) → stream (drain rs c).1 ≡ stream c
unfolding drain
drain-stream [] c = refl
drain-stream (r ∷ rs) c =
    either_left-stream (is_empty c.output) (true, c) _ (stream c) refl
      (after_write-stream r.returned r.errno c (λ n. drain rs (take_written n c))
        λ n. drain-stream rs (take_written n c) ∙ take_written-stream n c)

drained-stream : (s : Option Errno) (c : TcpConnection) → stream (drained s c) ≡ stream c
drained-stream s c =
    let quiet = record c { writing = false } in
    let noted = stream-emit write_complete quiet refl in
    either-stream (is_disconnecting c.state) _ (emit write_complete quiet) (stream c)
      (shutdown_in_loop-stream s (emit write_complete quiet) ∙ noted) noted

finish_write-stream :
    (s : Option Errno) (ok : Bool) (c : TcpConnection) → stream (finish_write s (ok, c)) ≡ stream c
finish_write-stream s false c = refl
finish_write-stream s true c =
    either-stream (is_empty c.output) (drained s c) c (stream c) (drained-stream s c) refl

handle_write-stream :
    (rs : List WriteResult) (s : Option Errno) (c : TcpConnection)
    → stream (handle_write rs s c) ≡ stream c
unfolding handle_write
handle_write-stream rs s c =
    either-stream (is_disconnected c.state) c _ (stream c) refl
      (finish_write-stream s (drain rs c).0 (drain rs c).1 ∙ drain-stream rs c)

tested-stream :
    (b : Bool) (x c : TcpConnection) (bytes : Bytes)
    → stream x ≡ bytes
    → (b ≡ false → stream c ≡ bytes)
    → stream (if b then x else c) ≡ bytes
tested-stream true x c bytes h k = h
tested-stream false x c bytes h k = k refl

send-stream :
    (bytes : Bytes) (r : SendResult) (c : TcpConnection)
    → stream (send bytes r c) ≡ stream c ++ accepted_send bytes r c
unfolding send
send-stream bytes r c =
    tested-stream (is_connected c.state) (send_in_loop bytes r c) c
      (stream c ++ accepted_send bytes r c) (send_in_loop-stream bytes r c)
      λ e.
        sym (append-nil (stream c))
        ∙ ap (λ b. stream c ++ (if b then taken bytes (attempt c r.write) else [])) (sym e)

start_call-stream : (call : Call) (c : TcpConnection) → stream (start_call call c) ≡ stream c
unfolding start_call
start_call-stream call c = either-stream (is_connected c.state) _ c (stream c) refl refl

continue_taken-stream :
    (found : Option (Call × List Call)) (c : TcpConnection)
    → stream (continue_taken found c) ≡ stream c
continue_taken-stream none c = refl
continue_taken-stream (some (sending bytes, calls)) c = refl
continue_taken-stream (some (shutting_down, calls)) c = refl
continue_taken-stream (some (shut, calls)) c = refl

run_first-stream :
    (fs : List Functor) (w : SendResult) (s : Option Errno) (c : TcpConnection)
    → stream (run_first fs w s c) ≡ stream c ++ accepted_first fs w c
run_first-stream [] w s c = sym (append-nil (stream c))
run_first-stream (send_functor bytes ∷ fs) w s c =
    send_in_loop-stream bytes w (record c { pending = fs })
run_first-stream (shutdown_functor ∷ fs) w s c =
    shutdown_in_loop-stream s (record c { pending = fs }) ∙ sym (append-nil (stream c))
run_first-stream (force_close_functor ∷ fs) w s c =
    force_close_in_loop-stream (record c { pending = fs }) ∙ sym (append-nil (stream c))

connect_destroyed-stream : (c : TcpConnection) → stream (connect_destroyed c) ≡ stream c
unfolding connect_destroyed
connect_destroyed-stream c =
    stream-emit removed (emit connection_changed (disconnect c)) refl
    ∙ stream-emit connection_changed (disconnect c) refl
    ∙ disconnect-stream c

-- A step adds to the stream exactly the bytes that it accepts.
step-stream : (s : Step) (c : TcpConnection) → stream (step s c) ≡ stream c ++ accepted s c
unfolding step run_pending force_close continue_at
step-stream (send_step bytes r) c = send-stream bytes r c
step-stream (shutdown_step r) c = shutdown-stream r c ∙ sym (append-nil (stream c))
step-stream (other_send bytes) c = start_call-stream (sending bytes) c ∙ sym (append-nil (stream c))
step-stream other_shutdown c = start_call-stream shutting_down c ∙ sym (append-nil (stream c))
step-stream (continue_step n) c =
    continue_taken-stream (take_call n c.calls) c ∙ sym (append-nil (stream c))
step-stream (force_close_step true) c = force_close_in_loop-stream c ∙ sym (append-nil (stream c))
step-stream (force_close_step false) c = sym (append-nil (stream c))
step-stream (pending_step w s) c = run_first-stream c.pending w s c
step-stream (readable rs) c = handle_read-stream rs c ∙ sym (append-nil (stream c))
step-stream (writable rs s) c = handle_write-stream rs s c ∙ sym (append-nil (stream c))
step-stream hung_up c = handle_close-stream c ∙ sym (append-nil (stream c))
step-stream destroyed c = connect_destroyed-stream c ∙ sym (append-nil (stream c))

-- Over any steps, the bytes written to the socket, with the queued bytes behind them, are those of the
-- beginning followed by all bytes that `sendInLoop` took on, in order: nothing is lost, repeated or
-- reordered, whatever the system calls return.
pub run_steps-stream :
    (ss : List Step) (c : TcpConnection) → stream (run_steps ss c) ≡ stream c ++ accepted_all ss c
unfolding run_steps
run_steps-stream [] c = sym (append-nil (stream c))
run_steps-stream (s ∷ ss) c =
    run_steps-stream ss (step s c)
    ∙ ap (λ t. t ++ accepted_all ss (step s c)) (step-stream s c)
    ∙ append_assoc (stream c) (accepted s c) (accepted_all ss (step s c))
