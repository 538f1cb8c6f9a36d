-- ===== src/Net/TcpConnection/Stream.antt =====
-- The bytes that a connection writes to its socket.
use nexus_rpc.Common.{
  ℕ, ◌+◌, ◌≡◌, refl, sym, ap, ap₂, ◌∙◌, ◌⊎◌, inl, inr, Bool, true, false, ◌&&◌, not, if◌then◌else◌,
  ltb,
}
use nexus_rpc.Common.{
  Bytes, List, [], ◌∷◌, ◌++◌, Option, none, some, take, drop, length, append_assoc, append-nil,
  take-append-drop,
}
use nexus_rpc.Net.TcpConnection.{Event, sent, write_complete, closed, high_water}
use nexus_rpc.Net.TcpConnection.{
  Functor, send_functor, TcpConnection, emit, disconnect, handle_close, is_empty, is_connected,
  is_disconnected,
}
use nexus_rpc.Net.TcpConnection.{
  count_written, attempt, log_sent, crosses_mark, queue, finish_send, send_in_loop,
}
use nexus_rpc.Net.TcpConnection.{Step, send_step, pending_step, step}
use nexus_rpc.Common.{ℕ, ◌≡◌, refl, sym, ap, ap₂, ◌∙◌, Bool, true, false, ◌&&◌, ◌||◌, if◌then◌else◌}
use nexus_rpc.Common.{
  Bytes, List, [], ◌∷◌, ◌++◌, Option, none, some, take, drop, append_assoc, append-nil,
  take-append-drop,
}
use nexus_rpc.Net.TcpConnection.{Errno, write_complete, shut_down}
use nexus_rpc.Net.TcpConnection.{
  Functor, send_functor, TcpConnection, emit, disconnect, handle_close, is_empty, is_gone,
  is_connected, is_disconnected, is_disconnecting,
}
use nexus_rpc.Net.TcpConnection.{
  attempt, send_in_loop, after_shutdown, shutdown_in_loop, force_close_in_loop, shutdown,
}
use nexus_rpc.Net.TcpConnection.{disconnecting}
use nexus_rpc.Net.TcpConnection.{Step, send_step, pending_step, step}
use nexus_rpc.Net.TcpConnection.{Reaction, keeps, force_closes, shuts_down, SendResult, react}

abbrev pub written_event : Event → Bytes
written_event (sent bytes) = bytes
written_event _ = []

-- The bytes that were written, in order.
abbrev pub written : List Event → Bytes
written [] = []
written (e ∷ es) = written_event e ++ written es

-- The bytes that were written, and those that are queued behind them.
abbrev pub stream : TcpConnection → Bytes
stream c = written c.log ++ c.output

abbrev pub taken : Bytes → Option ℕ → Bytes
taken bytes none = []
taken bytes (some n) = bytes

-- What `sendInLoop` takes on: all bytes, unless the connection is not connected or the write fails.
abbrev pub accepted_send : Bytes → SendResult → TcpConnection → Bytes
accepted_send bytes r c = if is_connected c.state then taken bytes (attempt c r.write) else []

abbrev pub accepted_first : List Functor → SendResult → TcpConnection → Bytes
accepted_first (send_functor bytes ∷ fs) w c = accepted_send bytes w (record c { pending = fs })
accepted_first _ w c = []

abbrev pub accepted : Step → TcpConnection → Bytes
accepted (send_step bytes r) c = accepted_send bytes r c
accepted (pending_step w s) c = accepted_first c.pending w c
accepted _ c = []

abbrev pub accepted_all : List Step → TcpConnection → Bytes
accepted_all [] c = []
accepted_all (s ∷ ss) c = accepted s c ++ accepted_all ss (step s c)

written-emit :
    (es : List Event) (e : Event) → written (es ++ (e ∷ [])) ≡ written es ++ written_event e
written-emit [] e = append-nil (written_event e)
written-emit (f ∷ es) e =
    ap (λ t. written_event f ++ t) (written-emit es e)
    ∙ sym (append_assoc (written_event f) (written es) (written_event e))

pub stream-emit :
    (e : Event) (c : TcpConnection) → written_event e ≡ [] → stream (emit e c) ≡ stream c
stream-emit e c h =
    ap (λ t. t ++ c.output)
      (written-emit c.log e ∙ ap (λ t. written c.log ++ t) h ∙ append-nil (written c.log))

-- The same bytes, whichever way a test goes.
pub either-stream :
    (b : Bool) (x y : TcpConnection) (bytes : Bytes)
    → stream x ≡ bytes
    → stream y ≡ bytes
    → stream (if b then x else y) ≡ bytes
either-stream true x y bytes h k = h
either-stream false x y bytes h k = k

pub disconnect-stream : (c : TcpConnection) → stream (disconnect c) ≡ stream c
disconnect-stream c = either-stream (is_disconnected c.state) c _ (stream c) refl refl

pub handle_close-stream : (c : TcpConnection) → stream (handle_close c) ≡ stream c
unfolding handle_close
handle_close-stream c =
    either-stream (is_disconnected c.state) c _ (stream c) refl
      (stream-emit closed (disconnect c) refl ∙ disconnect-stream c)

pub log_sent-written :
    (w : Bytes) (c : TcpConnection) → written (log_sent w c).log ≡ written c.log ++ w
log_sent-written [] c = sym (append-nil (written c.log))
log_sent-written (b ∷ bs) c = written-emit c.log (sent (b ∷ bs))

pub log_sent-output : (w : Bytes) (c : TcpConnection) → (log_sent w c).output ≡ c.output
log_sent-output [] c = refl
log_sent-output (b ∷ bs) c = refl

after_shutdown-stream :
    (r : Option Errno) (c : TcpConnection) → stream (after_shutdown r c) ≡ stream c
after_shutdown-stream none c = refl
after_shutdown-stream (some errno) c =
    either-stream (is_gone errno) c (handle_close c) (stream c) refl (handle_close-stream c)

pub shutdown_in_loop-stream :
    (r : Option Errno) (c : TcpConnection) → stream (shutdown_in_loop r c) ≡ stream c
unfolding shutdown_in_loop
shutdown_in_loop-stream r c =
    either-stream (is_disconnecting c.state && is_empty c.output) _ c (stream c)
      (after_shutdown-stream r (emit shut_down c) ∙ stream-emit shut_down c refl) refl

pub force_close_in_loop-stream : (c : TcpConnection) → stream (force_close_in_loop c) ≡ stream c
unfolding force_close_in_loop
force_close_in_loop-stream c =
    either-stream (is_connected c.state || is_disconnecting c.state) (handle_close c) c (stream c)
      (handle_close-stream c) refl

pub shutdown-stream : (r : Option Errno) (c : TcpConnection) → stream (shutdown r c) ≡ stream c
unfolding shutdown
shutdown-stream r c =
    let next = record c { state = disconnecting } in
    either-stream (is_connected c.state) (shutdown_in_loop r next) c (stream c)
      (shutdown_in_loop-stream r next) refl

react-stream : (a : Reaction) (c : TcpConnection) → stream (react a c) ≡ stream c
react-stream keeps c = refl
react-stream force_closes c = force_close_in_loop-stream c
react-stream (shuts_down r) c = shutdown-stream r c

queue-stream :
    (a : Reaction) (rest : Bytes) (c : TcpConnection) → stream (queue a rest c) ≡ stream c ++ rest
queue-stream a [] c = sym (append-nil (stream c))
queue-stream a (b ∷ bs) c =
    let size = length c.output + length (b ∷ bs) in
    let crosses = crosses_mark c.high_water_mark (length c.output) size in
    let told = react a (emit (high_water size) c) in
    let noted = if crosses then told else c in
    sym (append_assoc (written noted.log) noted.output (b ∷ bs))
    ∙ ap (λ t. t ++ (b ∷ bs))
        (either-stream crosses told c (stream c)
          (react-stream a (emit (high_water size) c) ∙ stream-emit (high_water size) c refl) refl)

some_attempt :
    (output : Bytes) (writing : Bool) (o : Option ℕ) (n : ℕ)
    → (if is_empty output && not writing then o else some 0) ≡ some n
    → (n ≡ 0) ⊎ (output ≡ [])
some_attempt [] writing o n h = inr refl
some_attempt (b ∷ bs) writing o n h = inl cc

-- What was written goes in front of what is queued: nothing was written unless nothing is queued.
log_sent-stream :
    (n : ℕ) (bytes : Bytes) (c : TcpConnection)
    → (n ≡ 0) ⊎ (c.output ≡ [])
    → stream (log_sent (take n bytes) c) ≡ stream c ++ take n bytes
log_sent-stream n bytes c (inl e) =
    ap (λ k. stream (log_sent (take k bytes) c)) e
    ∙ sym (append-nil (stream c))
    ∙ ap (λ k. stream c ++ take k bytes) (sym e)
log_sent-stream n bytes c (inr e) =
    let w = take n bytes in
    ap₂ (λ x y. x ++ y) (log_sent-written w c) (log_sent-output w c ∙ e)
    ∙ append-nil (written c.log ++ w)
    ∙ ap (λ t. t ++ w) (sym (append-nil (written c.log)) ∙ ap (λ t. written c.log ++ t) (sym e))

finish_send-stream :
    (a : Reaction) (bytes : Bytes) (c : TcpConnection) (n : ℕ)
    → (n ≡ 0) ⊎ (c.output ≡ [])
    → stream (finish_send a bytes c (some n)) ≡ stream c ++ bytes
finish_send-stream a bytes c n h =
    let later = queue a (drop n bytes) (log_sent (take n bytes) c) in
    let all : stream later ≡ stream c ++ bytes =
      queue-stream a (drop n bytes) (log_sent (take n bytes) c)
      ∙ ap (λ t. t ++ drop n bytes) (log_sent-stream n bytes c h)
      ∙ append_assoc (stream c) (take n bytes) (drop n bytes)
      ∙ ap (λ t. stream c ++ t) (take-append-drop n bytes) in
    either-stream (ltb 0 n && is_empty (drop n bytes) && is_empty c.output) _ later
      (stream c ++ bytes) (stream-emit write_complete later refl ∙ all) all

taken-stream :
    (a : Reaction) (bytes : Bytes) (c : TcpConnection) (o : Option ℕ)
    → ((n : ℕ) → o ≡ some n → (n ≡ 0) ⊎ (c.output ≡ []))
    → stream (finish_send a bytes c o) ≡ stream c ++ taken bytes o
taken-stream a bytes c none h = handle_close-stream c ∙ sym (append-nil (stream c))
taken-stream a bytes c (some n) h = finish_send-stream a bytes c n (h n refl)

tested_send-stream :
    (a : Reaction) (b : Bool) (bytes : Bytes) (o : Option ℕ) (c : TcpConnection)
    → ((n : ℕ) → o ≡ some n → (n ≡ 0) ⊎ (c.output ≡ []))
    → stream (if b then finish_send a bytes c o else c)
      ≡ stream c ++ (if b then taken bytes o else [])
tested_send-stream a true bytes o c h = taken-stream a bytes c o h
tested_send-stream a false bytes o c h = sym (append-nil (stream c))

pub send_in_loop-stream :
    (bytes : Bytes) (r : SendResult) (c : TcpConnection)
    → stream (send_in_loop bytes r c) ≡ stream c ++ accepted_send bytes r c
unfolding send_in_loop
send_in_loop-stream bytes r c =
    tested_send-stream r.reaction (is_connected c.state) bytes (attempt c r.write) c
      (some_attempt c.output c.writing (count_written r.write))
