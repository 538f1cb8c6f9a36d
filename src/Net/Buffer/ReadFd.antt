-- ===== src/Net/Buffer/ReadFd.antt =====
-- `Buffer::readFd`: what was read from the descriptor stands at the end of the bytes.
use nexus_rpc.Common.{ℕ, ◌+◌, ◌%◌, ◌^◌, ◌≤◌, ◌<◌, ◌≡◌, ap, ◌∙◌, arith}
use nexus_rpc.Common.{Bytes, ◌++◌, length, take, drop, length-take, length-drop, take-append-drop}
use nexus_rpc.Common.{take_all, append_assoc, some}
use nexus_rpc.Common.{Bool-cases, inl, inr, ltb, leb, true, false, le→ltb}
use nexus_rpc.Common.Outcome.{done, ◌>>=◌}
use nexus_rpc.Net.Buffer.{Buffer, writable_bytes, copy_to}
use nexus_rpc.Net.Buffer.{append}
use nexus_rpc.Net.Buffer.{read_fd, received, read_capacity}
use nexus_rpc.Net.Buffer.Contents.{IsValid, contents, Holds, Holds-length}
use nexus_rpc.Net.Buffer.Contents.{Holds-writable, Holds-contents, Holds-IsValid, IsValid-Holds}
use nexus_rpc.Net.Buffer.{take_received}
use nexus_rpc.Net.Buffer.Queue.{
  extended, extended_storage, copied, length-extended_storage, extended-Holds,
}
use nexus_rpc.Net.Buffer.Queue.{append-Appended}

module _ (b : Buffer) (bytes : Bytes) (v : IsValid b)
    (fits : b.writer_index + length bytes < 2 ^ 64) where
  held_here : Holds b (take b.reader_index b.buffer) (contents b) (drop b.writer_index b.buffer)
  held_here = IsValid-Holds b v

  abbrev writable : ℕ
  writable = writable_bytes b

  room_here : writable ≡ length (drop b.writer_index b.buffer)
  room_here = Holds-writable held_here

  Queued : Buffer → Type 0
  Queued b' = IsValid b' × (contents b' ≡ contents b ++ bytes)

  inside :
      leb (length bytes) writable ≡ true
      → (b' : Buffer) × ((copy_to b.buffer b.writer_index (take writable bytes)
            >>= take_received b bytes)
          ≡ done (b', some (length bytes), 0))
        × Queued b'
  unfolding take_received Queued
  inside small =
      let room : length bytes ≤ length (drop b.writer_index b.buffer) = ground (arith, room_here) in
      let whole : take writable bytes ≡ bytes = take_all writable bytes (ground arith) in
      let sum : (b.writer_index + length bytes) % 2 ^ 64 ≡ b.writer_index + length bytes =
        omega arith in
      let h = extended-Holds b bytes held_here room in
      (
        extended b bytes held_here room,
        rw (whole, copied b bytes held_here room, small, sum),
        (Holds-IsValid h, Holds-contents h),
      )

  abbrev first : Bytes
  first = take writable bytes

  module _ (large : leb (length bytes) writable ≡ false) where
    count : length first ≡ length (drop b.writer_index b.buffer)
    count = ground (arith, room_here, length-take writable bytes)

    room : length first ≤ length (drop b.writer_index b.buffer)
    room = omega (arith, count)

    grown :
        {b' : Buffer}
        → append (extended b first held_here room) (drop writable bytes) ≡ done b'
        → (copy_to b.buffer b.writer_index first >>= take_received b bytes)
          ≡ done (b', some (length bytes), 0)
    unfolding take_received
    grown made =
        let full : length (extended_storage b first held_here room)
            ≡ b.writer_index + length first =
          omega (
            arith,
            length-extended_storage b first held_here room,
            Holds-length held_here,
            count,
          ) in
        rw (copied b first held_here room, large, full, made)

    beyond :
        (b' : Buffer) × ((copy_to b.buffer b.writer_index first >>= take_received b bytes)
          ≡ done (b', some (length bytes), 0))
        × Queued b'
    unfolding Queued
    beyond =
        let h = extended-Holds b first held_here room in
        let (b', made, appended) =
          append-Appended (extended b first held_here room) (Holds-IsValid h) (drop writable bytes)
            (omega (arith, length-drop writable bytes, length-take writable bytes)) in
        (
          b',
          grown made,
          (
            appended.valid,
            appended.queued
                ∙ ap (λ t. t ++ drop writable bytes) (Holds-contents h)
                ∙ append_assoc (contents b) first (drop writable bytes)
                ∙ ap (λ t. contents b ++ t) (take-append-drop writable bytes),
          ),
        )

  -- Where `readv` kept to the room that it was given and the indices stay below `2 ^ 64`, `readFd`
  -- returns the number of bytes read with error number 0; it keeps the invariant, and the bytes read
  -- stand behind those that were held, also when they went beyond the storage.
  pub read_fd-received :
      length bytes ≤ read_capacity b
      → (b' : Buffer) × (read_fd b (received bytes) ≡ done (b', some (length bytes), 0))
        × IsValid b'
        × (contents b' ≡ contents b ++ bytes)
  unfolding read_fd Queued
  read_fd-received kept =
      let allowed : ltb (read_capacity b) (length bytes) ≡ false = le→ltb _ _ kept in
      elim (Bool-cases (leb (length bytes) writable)) [
        | inl small ↦ let (b', e, q) = inside small in (b', rw allowed e, q.0, q.1)
        | inr large ↦ let (b', e, q) = beyond large in (b', rw allowed e, q.0, q.1)
      ]
