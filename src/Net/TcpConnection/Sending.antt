-- ===== src/Net/TcpConnection/Sending.antt =====
-- Sending, reading and closing keep a connection valid.
use nexus_rpc.Common.{
  ℕ, ◌+◌, ◌≡◌, refl, sym, ap, ◌∙◌, Bool, true, false, ◌&&◌, ◌||◌, not, if◌then◌else◌, ltb,
}
use nexus_rpc.Common.{Bytes, List, [], ◌∷◌, ◌++◌, Option, none, some, take, drop, length}
use nexus_rpc.Net.TcpConnection.{
  ConnectionState, disconnected, connecting, connected, disconnecting, Errno, ReadResult, received,
  read_failed, sent, message, write_complete, shut_down, high_water,
}
use nexus_rpc.Net.TcpConnection.{
  TcpConnection, emit, handle_close, is_empty, is_again, is_gone, is_connected, is_disconnecting,
}
use nexus_rpc.Net.TcpConnection.{
  attempt, log_sent, crosses_mark, queue, finish_send, send_in_loop, after_shutdown,
  shutdown_in_loop, force_close_in_loop,
}
use nexus_rpc.Net.TcpConnection.{handle_read}
use nexus_rpc.Net.TcpConnection.Valid.{
  closes, Fits, IsValid, emit-IsValid, either-IsValid, handle_close-IsValid,
}
use nexus_rpc.Net.TcpConnection.{
  Reaction, keeps, force_closes, shuts_down, SendResult, react, shutdown, is_disconnected,
}

log_sent-IsValid : (w : Bytes) (c : TcpConnection) → IsValid c → IsValid (log_sent w c)
log_sent-IsValid [] c v = v
log_sent-IsValid (b ∷ bs) c v = emit-IsValid (sent (b ∷ bs)) c refl v

append-is_empty : (xs : Bytes) (b : ℕ) (bs : Bytes) → is_empty (xs ++ (b ∷ bs)) ≡ false
append-is_empty [] b bs = refl
append-is_empty (x ∷ xs) b bs = refl

-- A step that is taken only if a test of the state holds.
pub when-IsValid :
    (b : Bool) (x c : TcpConnection)
    → (b ≡ true → IsValid x)
    → IsValid c
    → IsValid (if b then x else c)
when-IsValid true x c h v = h refl
when-IsValid false x c h v = v

-- A test of which each outcome is known.
pub decided-IsValid :
    (b : Bool) (x y : TcpConnection)
    → (b ≡ true → IsValid x)
    → (b ≡ false → IsValid y)
    → IsValid (if b then x else y)
decided-IsValid true x y h k = h refl
decided-IsValid false x y h k = k refl

after_shutdown-IsValid :
    (r : Option Errno) (c : TcpConnection) → IsValid c → IsValid (after_shutdown r c)
after_shutdown-IsValid none c v = v
after_shutdown-IsValid (some errno) c v =
    either-IsValid (is_gone errno) c (handle_close c) v (handle_close-IsValid c v)

pub shutdown_in_loop-IsValid :
    (r : Option Errno) (c : TcpConnection) → IsValid c → IsValid (shutdown_in_loop r c)
unfolding shutdown_in_loop
shutdown_in_loop-IsValid r c v =
    either-IsValid (is_disconnecting c.state && is_empty c.output) _ c
      (after_shutdown-IsValid r (emit shut_down c) (emit-IsValid shut_down c refl v)) v

pub force_close_in_loop-IsValid : (c : TcpConnection) → IsValid c → IsValid (force_close_in_loop c)
unfolding force_close_in_loop
force_close_in_loop-IsValid c v =
    either-IsValid (is_connected c.state || is_disconnecting c.state) (handle_close c) c
      (handle_close-IsValid c v) v

leaving-Fits :
    (s : ConnectionState) (output : Bytes) (reading writing : Bool) (k : ℕ)
    → is_connected s ≡ true
    → Fits s output reading writing k
    → Fits disconnecting output reading writing k
leaving-Fits disconnected output reading writing k h v = absurd cc
leaving-Fits connecting output reading writing k h v = v
leaving-Fits connected output reading writing k h v = v
leaving-Fits disconnecting output reading writing k h v = v

pub shutdown-IsValid : (r : Option Errno) (c : TcpConnection) → IsValid c → IsValid (shutdown r c)
unfolding shutdown
shutdown-IsValid r c v =
    let next = record c { state = disconnecting } in
    when-IsValid (is_connected c.state) (shutdown_in_loop r next) c
      (λ h.
        shutdown_in_loop-IsValid r next
          (leaving-Fits c.state c.output c.reading c.writing (closes c.log) h v))
      v

-- The callback does not close the connection: it does nothing, or calls `shutdown` without an error
-- that closes.
abbrev pub keeps_open : Reaction → Bool
keeps_open keeps = true
keeps_open force_closes = false
keeps_open (shuts_down none) = true
keeps_open (shuts_down (some errno)) = is_gone errno

abbrev is_open : TcpConnection → Bool
is_open c = not (is_disconnected c.state)

either-open :
    (b : Bool) (x y : TcpConnection)
    → is_open x ≡ true
    → is_open y ≡ true
    → is_open (if b then x else y) ≡ true
either-open true x y h k = h
either-open false x y h k = k

after_shutdown-open :
    (r : Option Errno) (c : TcpConnection)
    → keeps_open (shuts_down r) ≡ true
    → is_open c ≡ true
    → is_open (after_shutdown r c) ≡ true
after_shutdown-open none c k h = h
after_shutdown-open (some errno) c k h = ap (λ b. is_open (if b then c else handle_close c)) k ∙ h

react-open :
    (a : Reaction) (c : TcpConnection)
    → keeps_open a ≡ true
    → is_open c ≡ true
    → is_open (react a c) ≡ true
unfolding shutdown shutdown_in_loop
react-open keeps c k h = h
react-open force_closes c k h = absurd cc
react-open (shuts_down r) c k h =
    let next = record c { state = disconnecting } in
    either-open (is_connected c.state) _ c
      (either-open (is_empty c.output) (after_shutdown r (emit shut_down next)) next
        (after_shutdown-open r (emit shut_down next) k refl) refl)
      h

react-IsValid :
    (a : Reaction) (c : TcpConnection) → keeps_open a ≡ true → IsValid c → IsValid (react a c)
react-IsValid keeps c k v = v
react-IsValid force_closes c k v = absurd cc
react-IsValid (shuts_down r) c k v = shutdown-IsValid r c v

-- Queueing bytes in a connection that is open.
queued-Fits :
    (s : ConnectionState) (output output' : Bytes) (reading writing : Bool) (k : ℕ)
    → not (is_disconnected s) ≡ true
    → is_empty output' ≡ false
    → Fits s output reading writing k
    → Fits s output' reading true k
queued-Fits disconnected output output' reading writing k h e v = absurd cc
queued-Fits connecting output output' reading writing k h e v = (sym (ap not e), v.1)
queued-Fits connected output output' reading writing k h e v = (sym (ap not e), v.1)
queued-Fits disconnecting output output' reading writing k h e v = (sym (ap not e), v.1)

extend-IsValid :
    (c : TcpConnection) (b : ℕ) (bs : Bytes)
    → is_open c ≡ true
    → IsValid c
    → IsValid (record c { output = c.output ++ (b ∷ bs); writing = true })
extend-IsValid c b bs h v =
    queued-Fits c.state c.output (c.output ++ (b ∷ bs)) c.reading c.writing (closes c.log) h
      (append-is_empty c.output b bs) v

queue-IsValid :
    (a : Reaction) (rest : Bytes) (c : TcpConnection)
    → keeps_open a ≡ true
    → is_open c ≡ true
    → IsValid c
    → IsValid (queue a rest c)
queue-IsValid a [] c k h v = v
queue-IsValid a (b ∷ bs) c k h v =
    let size = length c.output + length (b ∷ bs) in
    let crosses = crosses_mark c.high_water_mark (length c.output) size in
    let crossed = emit (high_water size) c in
    let noted = if crosses then react a crossed else c in
    extend-IsValid noted b bs (either-open crosses (react a crossed) c (react-open a crossed k h) h)
      (either-IsValid crosses (react a crossed) c
        (react-IsValid a crossed k (emit-IsValid (high_water size) c refl v)) v)

log_sent-state : (w : Bytes) (c : TcpConnection) → (log_sent w c).state ≡ c.state
log_sent-state [] c = refl
log_sent-state (b ∷ bs) c = refl

connected_open : (s : ConnectionState) → is_connected s ≡ true → not (is_disconnected s) ≡ true
connected_open disconnected h = cc
connected_open connecting h = refl
connected_open connected h = refl
connected_open disconnecting h = refl

finish_send-IsValid :
    (a : Reaction) (bytes : Bytes) (c : TcpConnection) (o : Option ℕ)
    → keeps_open a ≡ true
    → is_open c ≡ true
    → IsValid c
    → IsValid (finish_send a bytes c o)
finish_send-IsValid a bytes c none k h v = handle_close-IsValid c v
finish_send-IsValid a bytes c (some n) k h v =
    let logged = log_sent (take n bytes) c in
    let open_still : is_open logged ≡ true =
      ap (λ s. not (is_disconnected s)) (log_sent-state (take n bytes) c) ∙ h in
    let later = queue a (drop n bytes) logged in
    let fits : IsValid later =
      queue-IsValid a (drop n bytes) logged k open_still (log_sent-IsValid (take n bytes) c v) in
    either-IsValid (ltb 0 n && is_empty (drop n bytes) && is_empty c.output) _ later
      (emit-IsValid write_complete later refl fits) fits

pub send_in_loop-IsValid :
    (bytes : Bytes) (r : SendResult) (c : TcpConnection)
    → keeps_open r.reaction ≡ true
    → IsValid c
    → IsValid (send_in_loop bytes r c)
unfolding send_in_loop
send_in_loop-IsValid bytes r c k v =
    when-IsValid (is_connected c.state) (finish_send r.reaction bytes c (attempt c r.write)) c
      (λ h.
        finish_send-IsValid r.reaction bytes c (attempt c r.write) k (connected_open c.state h) v)
      v

pub handle_read-IsValid :
    (rs : List ReadResult) (c : TcpConnection) → IsValid c → IsValid (handle_read rs c)
unfolding handle_read
handle_read-IsValid [] c v = v
handle_read-IsValid (received [] ∷ rs) c v = handle_close-IsValid c v
handle_read-IsValid (received (b ∷ bs) ∷ rs) c v =
    let more = record c { input = c.input ++ (b ∷ bs) } in
    handle_read-IsValid rs (emit message more) (emit-IsValid message more refl v)
handle_read-IsValid (read_failed errno ∷ rs) c v =
    either-IsValid (is_again errno) c (handle_close c) v (handle_close-IsValid c v)
