-- ===== src/Net/Buffer/Contents.antt =====
-- The invariant of `Buffer`, and the bytes that it holds.
use nexus_rpc.Common.{◌+◌, ◌-◌, ◌^◌, ◌≤◌, ◌<◌, ◌≡◌, sym, ap, ap₂, ◌∙◌, arith}
use nexus_rpc.Common.{Bytes, ◌++◌, length, take, drop, length-take, length-drop, take-append-drop}
use nexus_rpc.Common.{length-append, take-append_left, drop-append_left, drop-drop}
use nexus_rpc.Net.Buffer.{Buffer, readable_bytes, writable_bytes}

-- The indices are in order, behind the prepended bytes and inside the storage.
pub record IsValid (b : Buffer) : Type 0 where
  pub prepended : 8 ≤ b.reader_index
  pub ordered : b.reader_index ≤ b.writer_index
  pub inside : b.writer_index ≤ length b.buffer
  pub addressable : length b.buffer < 2 ^ 64

-- The readable bytes.
abbrev pub contents : Buffer → Bytes
contents b = take (b.writer_index - b.reader_index) (drop b.reader_index b.buffer)

-- The storage is `before`, the readable bytes `held`, and `after`.
pub record Holds (b : Buffer) (before held after : Bytes) : Type 0 where
  pub parts : b.buffer ≡ before ++ (held ++ after)
  pub reader_at : length before ≡ b.reader_index
  pub writer_at : b.reader_index + length held ≡ b.writer_index
  pub behind_prepend : 8 ≤ b.reader_index
  pub sized : length b.buffer < 2 ^ 64

module _ {b : Buffer} {before held after : Bytes} (h : Holds b before held after) where
  open h use {parts, reader_at, writer_at, behind_prepend, sized}

  pub Holds-contents : contents b ≡ held
  Holds-contents =
      let size : b.writer_index - b.reader_index ≡ length held = omega arith in
      ap₂ take size (ap₂ drop (sym reader_at) parts ∙ drop-append_left before (held ++ after))
      ∙ take-append_left held after

  pub Holds-length : length b.buffer ≡ b.writer_index + length after
  Holds-length =
      omega (arith, ap length parts, length-append before (held ++ after), length-append held after)

  pub Holds-IsValid : IsValid b
  Holds-IsValid = record {
    prepended = behind_prepend;
    ordered = omega arith;
    inside = omega (arith, Holds-length);
    addressable = sized;
  }

  pub Holds-readable : readable_bytes b ≡ length held
  Holds-readable = omega (arith, Holds-length)

  pub Holds-writable : writable_bytes b ≡ length after
  Holds-writable = omega (arith, Holds-length)

module _ (b : Buffer) (v : IsValid b) where
  open v use {prepended, ordered, inside, addressable}

  pub IsValid-Holds :
      Holds b (take b.reader_index b.buffer) (contents b) (drop b.writer_index b.buffer)
  IsValid-Holds = record {
    parts = sym (
        ap (λ t. take b.reader_index b.buffer ++ t)
          (ap (λ t. contents b ++ t) behind
            ∙ take-append-drop (b.writer_index - b.reader_index) (drop b.reader_index b.buffer))
        ∙ take-append-drop b.reader_index b.buffer);
    reader_at = omega (arith, length-take b.reader_index b.buffer);
    writer_at = omega (
      arith,
      length-take (b.writer_index - b.reader_index) (drop b.reader_index b.buffer),
      length-drop b.reader_index b.buffer,
    );
    behind_prepend = prepended;
    sized = addressable;
  }
    where
      behind :
          drop b.writer_index b.buffer
          ≡ drop (b.writer_index - b.reader_index) (drop b.reader_index b.buffer)
      behind =
          ap (λ k. drop k b.buffer) (omega arith)
          ∙ sym (drop-drop (b.writer_index - b.reader_index) b.reader_index b.buffer)
