-- ===== src/Net/Buffer/Queue.antt =====
-- `Buffer` as a queue of bytes: `append` and `readFd` add at its end, `retrieve` takes from its front.
use nexus_rpc.Common.{ℕ, ◌+◌, ◌-◌, ◌%◌, ◌^◌, ◌≤◌, ◌<◌, ◌≡◌, refl, sym, ap, ap₂, ◌∙◌, arith, max}
use nexus_rpc.Common.{
  Bytes, [], ◌∷◌, ◌++◌, length, take, drop, length-take, length-drop, take-append-drop,
}
use nexus_rpc.Common.{
  length-append, length-replicate, drop-drop, drop-take, drop_all, append_assoc, append-nil,
}
use nexus_rpc.Common.{Bool-cases, inl, inr, ltb, true, false, le→ltb, lt→ltb, ◌==◌}
use nexus_rpc.Common.Outcome.{done, refused}
use nexus_rpc.Net.Buffer.{Buffer, readable_bytes, writable_bytes, sub_size, copy_to, new_buffer}
use nexus_rpc.Net.Buffer.{
  ensure_writable_bytes, make_space, has_written, append, retrieve, retrieve_all,
}
use nexus_rpc.Net.Buffer.Contents.{IsValid, contents, Holds, Holds-length, Holds-readable}
use nexus_rpc.Net.Buffer.Contents.{Holds-contents, Holds-IsValid, IsValid-Holds}
use nexus_rpc.Net.Buffer.Steps.{copy_to-append, ensure-HasRoom}

-- A constructed buffer keeps the invariant and is empty.
pub new_buffer-IsValid :
    (n : ℕ) → n < 2 ^ 64 → IsValid (new_buffer n) × (contents (new_buffer n) ≡ [])
unfolding new_buffer
new_buffer-IsValid n h =
    let size = length-replicate {A = ℕ} (max n 9) 0 in
    (
      record {
        prepended = omega arith;
        ordered = omega arith;
        inside = omega (arith, size);
        addressable = omega (arith, size);
      },
      refl,
    )

-- Bytes copied behind those that are held, where they fit.
module _ (b : Buffer) (data_bytes : Bytes) {before held after : Bytes}
    (h : Holds b before held after) (fits : length data_bytes ≤ length after) where
  abbrev pub extended_storage : Bytes
  extended_storage = (before ++ held) ++ (data_bytes ++ drop (length data_bytes) after)

  abbrev pub extended : Buffer
  extended = record b {
    buffer = extended_storage;
    writer_index = b.writer_index + length data_bytes;
  }

  pub copied : copy_to b.buffer b.writer_index data_bytes ≡ done extended_storage
  copied =
      let old = take (length data_bytes) after in
      let split : b.buffer ≡ (before ++ held) ++ (old ++ drop (length data_bytes) after) =
        h.parts
        ∙ sym (append_assoc before held after)
        ∙ ap (λ t. (before ++ held) ++ t) (sym (take-append-drop (length data_bytes) after)) in
      let place : b.writer_index ≡ length (before ++ held) =
        omega (arith, length-append before held, h.reader_at, h.writer_at) in
      ap₂ (λ s i. copy_to s i data_bytes) split place
      ∙ copy_to-append (before ++ held) old (drop (length data_bytes) after) data_bytes
          (omega (arith, length-take (length data_bytes) after))

  pub length-extended_storage : length extended_storage ≡ length b.buffer
  length-extended_storage = omega (
    arith,
    Holds-length h,
    h.reader_at,
    h.writer_at,
    length-append (before ++ held) (data_bytes ++ drop (length data_bytes) after),
    length-append before held,
    length-append data_bytes (drop (length data_bytes) after),
    length-drop (length data_bytes) after,
  )

  pub extended-Holds : Holds extended before (held ++ data_bytes) (drop (length data_bytes) after)
  extended-Holds = record {
    parts =
        append_assoc before held (data_bytes ++ drop (length data_bytes) after)
        ∙ ap (λ t. before ++ t)
            (sym (append_assoc held data_bytes (drop (length data_bytes) after)));
    reader_at = h.reader_at;
    writer_at = omega (arith, h.writer_at, length-append held data_bytes);
    behind_prepend = h.behind_prepend;
    sized = omega (arith, length-extended_storage, h.sized);
  }

  written : has_written (record b { buffer = extended_storage }) (length data_bytes) ≡ extended
  unfolding has_written
  written =
      let size = length-extended_storage in
      let room : ltb (sub_size (length extended_storage) b.writer_index) (length data_bytes)
          ≡ false =
        le→ltb _ _ (omega (arith, size, Holds-length h, h.sized)) in
      let sum : (b.writer_index + length data_bytes) % 2 ^ 64 ≡ b.writer_index + length data_bytes =
        omega (arith, Holds-length h, h.sized) in
      rw (room, sum)

-- What `append` makes of a buffer.
pub record Appended (b : Buffer) (data_bytes : Bytes) (b' : Buffer) : Type 0 where
  pub valid : IsValid b'
  pub queued : contents b' ≡ contents b ++ data_bytes
  pub advanced : b'.writer_index ≤ b.writer_index + length data_bytes
  pub reclaims :
      8 + length (contents b) + length data_bytes ≤ length b.buffer
      → length b'.buffer ≡ length b.buffer

module _ (b : Buffer) (v : IsValid b) (data_bytes : Bytes) where
  held_here : Holds b (take b.reader_index b.buffer) (contents b) (drop b.writer_index b.buffer)
  held_here = IsValid-Holds b v

  -- Where the bytes keep the indices below `2 ^ 64`, `append` succeeds and keeps the invariant: the
  -- bytes stand at the end of those that were held, and the storage does not grow if all of them fit
  -- behind the prepended bytes.
  pub append-Appended :
      b.writer_index + length data_bytes < 2 ^ 64
      → (b' : Buffer) × (append b data_bytes ≡ done b') × Appended b data_bytes b'
  unfolding append
  append-Appended fits = elim (Bool-cases (length data_bytes == 0)) [
    | inl empty ↦ (
      b,
      rw empty,
      record {
        valid = v;
        queued =
            sym (ap (λ t. contents b ++ t) (nothing data_bytes empty) ∙ append-nil (contents b));
        advanced = omega arith;
        reclaims = λ _. refl;
      },
    )
    | inr some_bytes ↦
        let (b', ensured, room) = ensure-HasRoom b (length data_bytes) held_here fits in
        (
          extended b' data_bytes room.holds room.room,
          rw (some_bytes, ensured, copied b' data_bytes room.holds room.room)
              (ap done (written b' data_bytes room.holds room.room)),
          record {
            valid = Holds-IsValid (extended-Holds b' data_bytes room.holds room.room);
            queued = Holds-contents (extended-Holds b' data_bytes room.holds room.room);
            advanced = omega (arith, room.behind);
            reclaims = λ small.
                length-extended_storage b' data_bytes room.holds room.room ∙ room.reclaimed small;
          },
        )
  ]
    where
      nothing : (xs : Bytes) → length xs == 0 ≡ true → xs ≡ []
      nothing [] e = refl
      nothing (x ∷ xs) e = absurd (ground arith)

  -- Bytes that take the indices to `2 ^ 64` or beyond make `append` throw.
  append-refused : 2 ^ 64 ≤ b.writer_index + length data_bytes → append b data_bytes ≡ refused
  unfolding append ensure_writable_bytes make_space
  append-refused over =
      let some_bytes : length data_bytes == 0 ≡ false = ground (arith, v) in
      let short : ltb (writable_bytes b) (length data_bytes) ≡ true =
        lt→ltb _ _ (omega (arith, v)) in
      let far : ltb (sub_size (2 ^ 64 - 1) b.writer_index) (length data_bytes) ≡ true =
        lt→ltb _ _ (omega (arith, v)) in
      rw (some_bytes, short, far)

-- `retrieve` takes `n` bytes from the front, or all of them if they are no more than `n`.
pub retrieve-drop :
    (b : Buffer) (n : ℕ)
    → IsValid b
    → IsValid (retrieve b n) × (contents (retrieve b n) ≡ drop n (contents b))
unfolding retrieve retrieve_all
retrieve-drop b n v =
    let h = IsValid-Holds b v in
    let size : readable_bytes b ≡ length (contents b) = Holds-readable h in
    elim (Bool-cases (ltb n (readable_bytes b))) [
      | inl part ↦
          let sum : (b.reader_index + n) % 2 ^ 64 ≡ b.reader_index + n = ground (arith, v) in
          rw (part, sum)
            (
              record {
                prepended = omega (arith, v);
                ordered = ground (arith, v);
                inside = v.inside;
                addressable = v.addressable;
              },
              ap₂ take (omega arith) (sym (drop-drop n b.reader_index b.buffer))
                  ∙ sym (
                      drop-take n (b.writer_index - b.reader_index) (drop b.reader_index b.buffer)),
            )
      | inr all ↦ rw all (
        record {
          prepended = omega arith;
          ordered = omega arith;
          inside = omega (arith, v);
          addressable = v.addressable;
        },
        sym (drop_all n (contents b) (ground arith)),
      )
    ]
