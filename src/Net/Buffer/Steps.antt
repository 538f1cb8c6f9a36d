-- ===== src/Net/Buffer/Steps.antt =====
-- What the operations of `Buffer` do to the three parts of its storage.
use nexus_rpc.Common.{ℕ, ◌+◌, ◌-◌, ◌%◌, ◌^◌, ◌≤◌, ◌<◌, ◌≡◌, refl, sym, ap, ap₂, ◌∙◌, arith}
use nexus_rpc.Common.{Bytes, ◌++◌, length, take, drop, replicate, length-take, length-drop}
use nexus_rpc.Common.{
  length-append, length-replicate, take-append_left, drop-append_left, drop-drop, take_all,
  append_assoc,
}
use nexus_rpc.Common.{Bool-cases, inl, inr, ltb, leb, false, le→ltb}
use nexus_rpc.Common.Outcome.{done}
use nexus_rpc.Net.Buffer.{Buffer, readable_bytes, writable_bytes, peek, sub_size, copy_to, resize}
use nexus_rpc.Net.Buffer.{make_space, ensure_writable_bytes}
use nexus_rpc.Net.Buffer.Contents.{Holds, Holds-length, Holds-writable}
use nexus_rpc.Net.Buffer.Contents.{Holds-contents}

-- A copy over a part of the storage that is as long.
pub copy_to-append :
    (front old back data_bytes : Bytes)
    → length old ≡ length data_bytes
    → copy_to (front ++ (old ++ back)) (length front) data_bytes
      ≡ done (front ++ (data_bytes ++ back))
unfolding copy_to
copy_to-append front old back data_bytes e =
    let inside : ltb (length (front ++ (old ++ back))) (length front + length data_bytes) ≡ false =
      le→ltb _ _ (omega (arith, length-append front (old ++ back), length-append old back)) in
    let behind : drop (length front + length data_bytes) (front ++ (old ++ back)) ≡ back =
      sym (drop-drop (length data_bytes) (length front) (front ++ (old ++ back)))
      ∙ ap₂ drop (sym e) (drop-append_left front (old ++ back))
      ∙ drop-append_left old back in
    rw (inside, take-append_left front (old ++ back), behind)

-- The buffer holds the same bytes, with room for `n` more. Its storage has not grown if they fit.
pub record HasRoom (b : Buffer) (n : ℕ) (held : Bytes) (b' : Buffer) : Type 0 where
  pub before : Bytes
  pub after : Bytes
  pub holds : Holds b' before held after
  pub room : n ≤ length after
  pub behind : b'.writer_index ≤ b.writer_index
  pub reclaimed : 8 + length held + n ≤ length b.buffer → length b'.buffer ≡ length b.buffer

module _ (b : Buffer) (n : ℕ) {before held after : Bytes} (h : Holds b before held after) where
  open h use {parts, reader_at, writer_at, behind_prepend, sized}

  peek_held : peek b (readable_bytes b) ≡ held
  peek_held =
      ap (λ k. take k (drop b.reader_index b.buffer)) (omega (arith, Holds-length h))
      ∙ Holds-contents h

  abbrev moved_storage : Bytes
  moved_storage = take 8 b.buffer ++ (held ++ drop (8 + length held) b.buffer)

  length-moved_storage : length moved_storage ≡ length b.buffer
  length-moved_storage = omega (
    arith,
    Holds-length h,
    length-append (take 8 b.buffer) (held ++ drop (8 + length held) b.buffer),
    length-append held (drop (8 + length held) b.buffer),
    length-take 8 b.buffer,
    length-drop (8 + length held) b.buffer,
  )

  abbrev moved : Buffer
  moved = record { buffer = moved_storage; reader_index = 8; writer_index = 8 + length held }

  moved-HasRoom : n ≤ length after + b.reader_index - 8 → HasRoom b n held moved
  moved-HasRoom fits = record {
    before = take 8 b.buffer;
    after = drop (8 + length held) b.buffer;
    holds = record {
      parts = refl;
      reader_at = omega (arith, length-take 8 b.buffer, Holds-length h);
      writer_at = refl;
      behind_prepend = omega arith;
      sized = omega (arith, length-moved_storage);
    };
    room = omega (arith, length-drop (8 + length held) b.buffer, Holds-length h);
    behind = omega (arith, Holds-length h);
    reclaimed = λ _. length-moved_storage;
  }

  abbrev resized : Buffer
  resized = record b { buffer = resize b.buffer (b.writer_index + n) }

  resize_grows :
      length b.buffer ≤ b.writer_index + n
      → resize b.buffer (b.writer_index + n)
        ≡ before ++ (held ++ (after ++ replicate (b.writer_index + n - length b.buffer) 0))
  unfolding resize
  resize_grows larger =
      let zeros : Bytes = replicate (b.writer_index + n - length b.buffer) 0 in
      ap (λ t. t ++ zeros) (take_all (b.writer_index + n) b.buffer larger ∙ parts)
      ∙ append_assoc before (held ++ after) zeros
      ∙ ap (λ t. before ++ t) (append_assoc held after zeros)

  resized-HasRoom :
      length after + b.reader_index - 8 < n → b.writer_index + n < 2 ^ 64 → HasRoom b n held resized
  resized-HasRoom more fits =
      let zeros : Bytes = replicate (b.writer_index + n - length b.buffer) 0 in
      let whole = resize_grows (omega (arith, Holds-length h)) in
      let size : length zeros ≡ b.writer_index + n - length b.buffer = length-replicate _ 0 in
      let count : length (after ++ zeros) ≡ n =
        omega (arith, length-append after zeros, size, Holds-length h) in
      let total : length (resize b.buffer (b.writer_index + n)) ≡ b.writer_index + n = omega (
        arith,
        ap length whole,
        length-append before (held ++ (after ++ zeros)),
        length-append held (after ++ zeros),
      ) in
      record {
        before = before;
        after = after ++ zeros;
        holds = record {
          parts = whole;
          reader_at = reader_at;
          writer_at = writer_at;
          behind_prepend = behind_prepend;
          sized = omega arith;
        };
        room = omega arith;
        behind = omega arith;
        reclaimed = λ small. absurd (omega (arith, Holds-length h));
      }

  move_done : copy_to b.buffer 8 (peek b (readable_bytes b)) ≡ done moved_storage
  unfolding copy_to
  move_done =
      let inside : ltb (length b.buffer) (8 + length held) ≡ false =
        le→ltb _ _ (omega (arith, Holds-length h)) in
      rw (peek_held, inside)

  pub make_space-HasRoom :
      b.writer_index + n < 2 ^ 64 → (b' : Buffer) × (make_space b n ≡ done b') × HasRoom b n held b'
  unfolding make_space
  make_space-HasRoom fits =
      let addressed : ltb (sub_size (2 ^ 64 - 1) b.writer_index) n ≡ false =
        le→ltb _ _ (omega (arith, Holds-length h)) in
      let space : sub_size ((writable_bytes b + b.reader_index) % 2 ^ 64) 8
          ≡ length after + b.reader_index - 8 =
        omega (arith, Holds-length h) in
      elim (Bool-cases (leb n (length after + b.reader_index - 8))) [
        | inl enough ↦
            let written : (8 + readable_bytes b) % 2 ^ 64 ≡ 8 + length held =
              omega (arith, Holds-length h) in
            (
              moved,
              rw (addressed, space, enough, move_done)
                  (ap
                    (λ w.
                      done (record { buffer = moved_storage; reader_index = 8; writer_index = w }))
                    written),
              moved-HasRoom (ground arith),
            )
        | inr none_left ↦
            let sum : (b.writer_index + n) % 2 ^ 64 ≡ b.writer_index + n = omega arith in
            (resized, rw (addressed, space, none_left, sum), resized-HasRoom (ground arith) fits)
      ]

  pub ensure-HasRoom :
      b.writer_index + n < 2 ^ 64
      → (b' : Buffer) × (ensure_writable_bytes b n ≡ done b') × HasRoom b n held b'
  unfolding ensure_writable_bytes
  ensure-HasRoom fits = elim (Bool-cases (ltb (writable_bytes b) n)) [
    | inl short ↦ let (b', made, room) = make_space-HasRoom fits in (b', rw (short, made), room)
    | inr enough ↦ (
      b,
      rw enough,
      record {
        before = before;
        after = after;
        holds = h;
        room = ground (arith, Holds-writable h);
        behind = omega arith;
        reclaimed = λ _. refl;
      },
    )
  ]
