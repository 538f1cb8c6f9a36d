-- ===== src/Net/TcpConnection/Valid.antt =====
-- What a connection's channel waits for, and the close callback.
use nexus_rpc.Common.{
  ℕ, suc, ◌≤◌, ◌≡◌, refl, sym, ap, subst, ◌∙◌, arith, Bool, true, false, not, if◌then◌else◌,
}
use nexus_rpc.Common.{Bytes, List, [], ◌∷◌, ◌++◌}
use nexus_rpc.Net.TcpConnection.{
  ConnectionState, disconnected, connecting, connected, disconnecting, Event, sent, message,
  connection_changed, write_complete, closed, shut_down, removed, high_water,
}
use nexus_rpc.Net.TcpConnection.{
  Functor, Call, TcpConnection, emit, disconnect, handle_close, is_empty,
}

-- The calls of the close callback.
abbrev pub closes : List Event → ℕ
closes [] = 0
closes (closed ∷ es) = suc (closes es)
closes (_ ∷ es) = closes es

-- While the connection is open, the channel waits for writing exactly when bytes are queued, and the
-- close callback has not been called; afterwards the channel waits for nothing, and the callback has
-- been called at most once.
abbrev pub Fits : ConnectionState → Bytes → Bool → Bool → ℕ → Type 0
Fits disconnected output reading writing k = (reading ≡ false) × (writing ≡ false) × (k ≤ 1)
Fits _ output reading writing k = (writing ≡ not (is_empty output)) × (k ≡ 0)

abbrev pub IsValid : TcpConnection → Type 0
IsValid c = Fits c.state c.output c.reading c.writing (closes c.log)

abbrev is_closed : Event → Bool
is_closed closed = true
is_closed _ = false

pub closes-other :
    (es : List Event) (e : Event) → is_closed e ≡ false → closes (es ++ (e ∷ [])) ≡ closes es
closes-other [] (sent b) h = refl
closes-other [] message h = refl
closes-other [] connection_changed h = refl
closes-other [] write_complete h = refl
closes-other [] closed h = absurd (ground (arith, h))
closes-other [] shut_down h = refl
closes-other [] removed h = refl
closes-other [] (high_water n) h = refl
closes-other (sent b ∷ es) e h = closes-other es e h
closes-other (message ∷ es) e h = closes-other es e h
closes-other (connection_changed ∷ es) e h = closes-other es e h
closes-other (write_complete ∷ es) e h = closes-other es e h
closes-other (closed ∷ es) e h = ap suc (closes-other es e h)
closes-other (shut_down ∷ es) e h = closes-other es e h
closes-other (removed ∷ es) e h = closes-other es e h
closes-other (high_water n ∷ es) e h = closes-other es e h

closes-closed : (es : List Event) → closes (es ++ (closed ∷ [])) ≡ suc (closes es)
closes-closed [] = refl
closes-closed (sent b ∷ es) = closes-closed es
closes-closed (message ∷ es) = closes-closed es
closes-closed (connection_changed ∷ es) = closes-closed es
closes-closed (write_complete ∷ es) = closes-closed es
closes-closed (closed ∷ es) = ap suc (closes-closed es)
closes-closed (shut_down ∷ es) = closes-closed es
closes-closed (removed ∷ es) = closes-closed es
closes-closed (high_water n ∷ es) = closes-closed es

pub emit-IsValid :
    (e : Event) (c : TcpConnection) → is_closed e ≡ false → IsValid c → IsValid (emit e c)
emit-IsValid e c h v =
    subst (λ k. Fits c.state c.output c.reading c.writing k) (sym (closes-other c.log e h)) v

pub either-IsValid :
    (b : Bool) (x y : TcpConnection) → IsValid x → IsValid y → IsValid (if b then x else y)
either-IsValid true x y h k = h
either-IsValid false x y h k = k

-- What holds inside `handleWrite`: an open connection with queued bytes waits for writing.
abbrev pub MayWrite : ConnectionState → Bytes → Bool → Bool → ℕ → Type 0
MayWrite disconnected output reading writing k = (reading ≡ false) × (writing ≡ false) × (k ≤ 1)
MayWrite _ output reading writing k = (is_empty output ≡ false → writing ≡ true) × (k ≡ 0)

abbrev pub IsWriting : TcpConnection → Type 0
IsWriting c = MayWrite c.state c.output c.reading c.writing (closes c.log)

module _ (input : Bytes) (output : Bytes) (reading writing : Bool) (mark : ℕ) (calls : List Call)
    (pending : List Functor) (log : List Event) where
  abbrev in_state : ConnectionState → TcpConnection
  in_state s = record {
    state = s;
    input = input;
    output = output;
    reading = reading;
    writing = writing;
    high_water_mark = mark;
    calls = calls;
    pending = pending;
    log = log;
  }

  close-MayWrite :
      (s : ConnectionState)
      → MayWrite s output reading writing (closes log)
      → IsValid (handle_close (in_state s))
  unfolding handle_close
  close-MayWrite disconnected v = v
  close-MayWrite connecting v = (refl, refl, omega (arith, closes-closed log))
  close-MayWrite connected v = (refl, refl, omega (arith, closes-closed log))
  close-MayWrite disconnecting v = (refl, refl, omega (arith, closes-closed log))

  pub disconnect-Fits :
      (s : ConnectionState)
      → Fits s output reading writing (closes log)
      → IsValid (disconnect (in_state s))
  disconnect-Fits disconnected v = v
  disconnect-Fits connecting v = (refl, refl, omega arith)
  disconnect-Fits connected v = (refl, refl, omega arith)
  disconnect-Fits disconnecting v = (refl, refl, omega arith)

  Fits-MayWrite :
      (s : ConnectionState)
      → Fits s output reading writing (closes log)
      → MayWrite s output reading writing (closes log)
  Fits-MayWrite disconnected v = v
  Fits-MayWrite connecting v = (λ e. v.0 ∙ ap not e, v.1)
  Fits-MayWrite connected v = (λ e. v.0 ∙ ap not e, v.1)
  Fits-MayWrite disconnecting v = (λ e. v.0 ∙ ap not e, v.1)

pub IsValid-IsWriting : (c : TcpConnection) → IsValid c → IsWriting c
IsValid-IsWriting c v =
    Fits-MayWrite c.input c.output c.reading c.writing c.high_water_mark c.calls c.pending c.log
      c.state v

pub handle_close-IsWriting : (c : TcpConnection) → IsWriting c → IsValid (handle_close c)
handle_close-IsWriting c v =
    close-MayWrite c.input c.output c.reading c.writing c.high_water_mark c.calls c.pending c.log
      c.state v

pub handle_close-IsValid : (c : TcpConnection) → IsValid c → IsValid (handle_close c)
handle_close-IsValid c v = handle_close-IsWriting c (IsValid-IsWriting c v)
