-- ===== src/Net/TcpConnection/Writing.antt =====
-- `handleWrite` keeps a connection valid.
use nexus_rpc.Common.{
  ℕ, zero, suc, ◌≡◌, refl, sym, ap, subst, ◌∙◌, Bool, true, false, not, if◌then◌else◌,
}
use nexus_rpc.Common.{Bytes, List, [], ◌∷◌, Option, none, some, take, drop}
use nexus_rpc.Net.TcpConnection.{
  ConnectionState, disconnected, connecting, connected, disconnecting, Errno, WriteResult, sent,
  write_complete,
}
use nexus_rpc.Net.TcpConnection.{
  TcpConnection, emit, handle_close, is_empty, is_again, is_disconnected, is_disconnecting,
}
use nexus_rpc.Net.TcpConnection.{log_sent, after_write}
use nexus_rpc.Net.TcpConnection.{take_written, drain, drained, finish_write, handle_write}
use nexus_rpc.Net.TcpConnection.Valid.{
  closes, Fits, IsValid, closes-other, emit-IsValid, either-IsValid, MayWrite, IsWriting,
  IsValid-IsWriting, handle_close-IsWriting,
}
use nexus_rpc.Net.TcpConnection.Sending.{decided-IsValid, shutdown_in_loop-IsValid}

-- Taking bytes out of the queue.
drop-is_empty : (n : ℕ) (xs : Bytes) → is_empty (drop n xs) ≡ false → is_empty xs ≡ false
drop-is_empty zero [] h = h
drop-is_empty (suc n) [] h = h
drop-is_empty zero (x ∷ xs) h = refl
drop-is_empty (suc n) (x ∷ xs) h = refl

shorter-MayWrite :
    (s : ConnectionState) (output : Bytes) (n : ℕ) (reading writing : Bool) (k : ℕ)
    → MayWrite s output reading writing k
    → MayWrite s (drop n output) reading writing k
shorter-MayWrite disconnected output n reading writing k v = v
shorter-MayWrite connecting output n reading writing k v =
    (λ e. v.0 (drop-is_empty n output e), v.1)
shorter-MayWrite connected output n reading writing k v = (λ e. v.0 (drop-is_empty n output e), v.1)
shorter-MayWrite disconnecting output n reading writing k v =
    (λ e. v.0 (drop-is_empty n output e), v.1)

log_sent-IsWriting : (w : Bytes) (c : TcpConnection) → IsWriting c → IsWriting (log_sent w c)
log_sent-IsWriting [] c v = v
log_sent-IsWriting (b ∷ bs) c v =
    subst (λ k. MayWrite c.state c.output c.reading c.writing k)
      (sym (closes-other c.log (sent (b ∷ bs)) refl)) v

take_written-IsWriting : (n : ℕ) (c : TcpConnection) → IsWriting c → IsWriting (take_written n c)
take_written-IsWriting n c v =
    log_sent-IsWriting (take n c.output) (record c { output = drop n c.output })
      (shorter-MayWrite c.state c.output n c.reading c.writing (closes c.log) v)

-- Behind the loop of `handleWrite`: closed by an error, or open as inside the loop.
abbrev Drained : Bool × TcpConnection → Type 0
Drained (true, c) = IsWriting c
Drained (false, c) = IsValid c

either-Drained :
    (b : Bool) (x y : Bool × TcpConnection) → Drained x → Drained y → Drained (if b then x else y)
either-Drained true x y h k = h
either-Drained false x y h k = k

after_write-Drained :
    (o : Option ℕ) (errno : Errno) (c : TcpConnection) (go : ℕ → Bool × TcpConnection)
    → IsWriting c
    → ((n : ℕ) → Drained (go n))
    → Drained (after_write o errno c go)
after_write-Drained (some (suc n)) errno c go v h = h (suc n)
after_write-Drained (some zero) errno c go v h =
    either-Drained (is_again errno) (true, c) (false, handle_close c) v (handle_close-IsWriting c v)
after_write-Drained none errno c go v h =
    either-Drained (is_again errno) (true, c) (false, handle_close c) v (handle_close-IsWriting c v)

drain-Drained : (rs : List WriteResult) (c : TcpConnection) → IsWriting c → Drained (drain rs c)
unfolding drain
drain-Drained [] c v = v
drain-Drained (r ∷ rs) c v =
    either-Drained (is_empty c.output) (true, c) _ v
      (after_write-Drained r.returned r.errno c (λ n. drain rs (take_written n c)) v
        λ n. drain-Drained rs (take_written n c) (take_written-IsWriting n c v))

waiting-Fits :
    (s : ConnectionState) (output : Bytes) (reading writing : Bool) (k : ℕ)
    → is_empty output ≡ false
    → MayWrite s output reading writing k
    → Fits s output reading writing k
waiting-Fits disconnected output reading writing k e v = v
waiting-Fits connecting output reading writing k e v = (v.0 e ∙ sym (ap not e), v.1)
waiting-Fits connected output reading writing k e v = (v.0 e ∙ sym (ap not e), v.1)
waiting-Fits disconnecting output reading writing k e v = (v.0 e ∙ sym (ap not e), v.1)

idle-Fits :
    (s : ConnectionState) (output : Bytes) (reading writing : Bool) (k : ℕ)
    → is_empty output ≡ true
    → MayWrite s output reading writing k
    → Fits s output reading false k
idle-Fits disconnected output reading writing k e v = (v.0, refl, v.2)
idle-Fits connecting output reading writing k e v = (sym (ap not e), v.1)
idle-Fits connected output reading writing k e v = (sym (ap not e), v.1)
idle-Fits disconnecting output reading writing k e v = (sym (ap not e), v.1)

drained-IsValid :
    (s : Option Errno) (c : TcpConnection)
    → is_empty c.output ≡ true
    → IsWriting c
    → IsValid (drained s c)
drained-IsValid s c e v =
    let quiet = record c { writing = false } in
    let fits : IsValid (emit write_complete quiet) =
      emit-IsValid write_complete quiet refl
        (idle-Fits c.state c.output c.reading c.writing (closes c.log) e v) in
    either-IsValid (is_disconnecting c.state) _ (emit write_complete quiet)
      (shutdown_in_loop-IsValid s (emit write_complete quiet) fits) fits

finish_write-IsValid :
    (s : Option Errno) (ok : Bool) (c : TcpConnection)
    → Drained (ok, c)
    → IsValid (finish_write s (ok, c))
finish_write-IsValid s false c v = v
finish_write-IsValid s true c v =
    decided-IsValid (is_empty c.output) (drained s c) c (λ e. drained-IsValid s c e v)
      λ e. waiting-Fits c.state c.output c.reading c.writing (closes c.log) e v

pub handle_write-IsValid :
    (rs : List WriteResult) (s : Option Errno) (c : TcpConnection)
    → IsValid c
    → IsValid (handle_write rs s c)
unfolding handle_write
handle_write-IsValid rs s c v = either-IsValid (is_disconnected c.state) c _ v (
    finish_write-IsValid s (drain rs c).0 (drain rs c).1
      (paired (drain rs c) (drain-Drained rs c (IsValid-IsWriting c v))))
  where
    paired : (p : Bool × TcpConnection) → Drained p → Drained (p.0, p.1)
    paired p h = h
