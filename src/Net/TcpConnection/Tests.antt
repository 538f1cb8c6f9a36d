-- ===== src/Net/TcpConnection/Tests.antt =====
-- A connection whose socket takes three bytes at first, and calls that race with the loop.
use nexus_rpc.Common.{ℕ, ◌≡◌, refl, true, List, [], ◌∷◌, ◌++◌, some, none}
use nexus_rpc.Net.TcpConnection.{
  TcpConnection, WriteResult, SendResult, Reaction, keeps, force_closes, shuts_down, again,
  new_connection, connect_established,
}
use nexus_rpc.Net.TcpConnection.{
  Step, send_step, force_close_step, other_send, other_shutdown, continue_step, pending_step,
  writable, hung_up, run_steps, step,
}
use nexus_rpc.Net.TcpConnection.{
  send, send_in_loop, run_pending, shutdown, shutdown_in_loop, force_close, force_close_in_loop,
  start_call, continue_at, take_call, handle_close, disconnected,
}
use nexus_rpc.Net.TcpConnection.Stream.{stream, written, accepted_all}
use nexus_rpc.Net.TcpConnection.Valid.{IsValid, closes}
use nexus_rpc.Net.TcpConnection.Life.{AllOrderly, run_steps-IsValid}
use nexus_rpc.Net.TcpConnection.Sent.{run_steps-stream}

abbrev wrote : ℕ → WriteResult
wrote n = record { returned = some n; errno = again }

abbrev blocked : WriteResult
blocked = record { returned = none; errno = again }

abbrev sends : WriteResult → Reaction → SendResult
sends w reaction = record { write = w; reaction = reaction }

-- Two sends of which the first calls back at the high-water mark, a `shutdown` from another thread, and
-- the writes that follow.
abbrev steps : List Step
steps =
    send_step (1 ∷ 2 ∷ 3 ∷ 4 ∷ 5 ∷ []) (sends (wrote 3) keeps)
    ∷ other_shutdown
    ∷ send_step (6 ∷ 7 ∷ 8 ∷ []) (sends blocked (shuts_down none))
    ∷ continue_step 0
    ∷ continue_step 0
    ∷ pending_step (sends blocked keeps) none
    ∷ writable (wrote 2 ∷ blocked ∷ []) none
    ∷ []

abbrev start : TcpConnection
start = connect_established (new_connection 4)

run_steps-stream_example : stream (run_steps steps start) ≡ stream start ++ accepted_all steps start
run_steps-stream_example = run_steps-stream steps start

steps-AllOrderly : AllOrderly steps (connect_established (new_connection 4))
unfolding connect_established step send send_in_loop start_call continue_at take_call shutdown
    shutdown_in_loop run_pending
steps-AllOrderly = (refl, (refl, (refl, (refl, (refl, (refl, (refl, tt)))))))

run_steps-IsValid_example : IsValid (run_steps steps (connect_established (new_connection 4)))
run_steps-IsValid_example = run_steps-IsValid 4 steps steps-AllOrderly

-- Bytes that another thread has queued are dropped by a `shutdown` that comes behind them.
queued_bytes_dropped :
    written
      (run_steps
        (other_send (1 ∷ [])
          ∷ continue_step 0
          ∷ other_shutdown
          ∷ continue_step 0
          ∷ continue_step 0
          ∷ pending_step (sends (wrote 1) keeps) none
          ∷ pending_step (sends blocked keeps) none
          ∷ [])
        start).log
    ≡ []
unfolding run_steps step start_call continue_at take_call run_pending send_in_loop shutdown_in_loop
    connect_established
queued_bytes_dropped = refl

-- A `shutdown` of another thread that has tested the state before the peer closes sets it afterwards, and
-- a `forceClose` then calls the close callback a second time.
closed_twice :
    closes
      (run_steps
        (other_shutdown ∷ hung_up ∷ continue_step 0 ∷ force_close_step true ∷ [])
        start).log
    ≡ 2
unfolding run_steps step start_call continue_at take_call force_close force_close_in_loop
    handle_close connect_established
closed_twice = refl

-- A high-water callback that closes the connection leaves it closed with a channel that waits for writing.
waits_when_closed :
    let c = run_steps (send_step (1 ∷ 2 ∷ 3 ∷ 4 ∷ []) (sends blocked force_closes) ∷ []) start in
    (c.state ≡ disconnected) × (c.writing ≡ true)
unfolding run_steps step send send_in_loop force_close_in_loop handle_close connect_established
waits_when_closed = (refl, refl)
