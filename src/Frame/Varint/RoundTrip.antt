-- ===== src/Frame/Varint/RoundTrip.antt =====
-- `decodeVarint` on what `appendVarint32` wrote, and on any input.
use nexus_rpc.Common.{ℕ, zero, suc, ◌+◌, ◌*◌, ◌/◌, ◌%◌, ◌^◌, ◌≤◌, ◌<◌, ◌≡◌, ◌∙◌, ap, ap₂, arith}
use nexus_rpc.Common.{Bytes, [], ◌∷◌, ◌++◌, length, some}
use nexus_rpc.Common.Bits.{bit_or_low, low_seven, top_bit}
use nexus_rpc.Common.Outcome.{done}
use nexus_rpc.Frame.Varint.{decode_varint_loop, decode_varint, append_varint32, varint_byte_size}
use nexus_rpc.Frame.Varint.Groups.{groups, length-groups, append_varint32-groups}
use native.Mathlib.Nat.{div-add-mod}
use native.Mathlib.Numerals.{towards_suc}

-- One round on a last byte `w`, and on a byte with the top bit set over the group `g`.
last_byte :
    (left w result shift bytes : ℕ) (rest : Bytes)
    → w < 128
    → result < 2 ^ shift
    → w * 2 ^ shift < 2 ^ 64
    → decode_varint_loop (suc left) (w ∷ rest) result shift bytes
      ≡ done (some (result + w * 2 ^ shift, bytes + 1))
unfolding decode_varint_loop
last_byte left w result shift bytes rest hw hr fits =
    ground (arith, low_seven w, top_bit w, bit_or_low shift w result)

inner_byte :
    (left g result shift bytes : ℕ) (rest : Bytes)
    → g < 128
    → result < 2 ^ shift
    → shift + 7 < 64
    → g * 2 ^ shift < 2 ^ 64
    → decode_varint_loop (suc left) ((g + 128) ∷ rest) result shift bytes
      ≡ decode_varint_loop left rest (result + g * 2 ^ shift) (shift + 7) (bytes + 1)
unfolding decode_varint_loop
inner_byte left g result shift bytes rest hg hr hs fits =
    ground (arith, low_seven (g + 128), top_bit (g + 128), bit_or_low shift g result)

shift_seven : (s : ℕ) → 2 ^ (s + 7) ≡ 128 * 2 ^ s
shift_seven s = simp towards_suc (omega arith)

group_below : (g p : ℕ) → g < 128 → g * p ≤ 127 * p
group_below g p h = grind arith

decode_loop-groups :
    (k left v result shift bytes : ℕ) (rest : Bytes)
    → v < 128 ^ suc k
    → shift + 7 * k < 64
    → result < 2 ^ shift
    → v * 2 ^ shift < 2 ^ 64
    → length (groups k v) ≤ left
    → decode_varint_loop left (groups k v ++ rest) result shift bytes
      ≡ done (some (result + v * 2 ^ shift, bytes + length (groups k v)))
unfolding groups
decode_loop-groups zero zero v result shift bytes rest hv hs hr fits hl = absurd (omega arith)
decode_loop-groups zero (suc left) v result shift bytes rest hv hs hr fits hl =
    last_byte left v result shift bytes rest hv hr fits
decode_loop-groups (suc k) zero v result shift bytes rest hv hs hr fits hl = ground arith
decode_loop-groups (suc k) (suc left) v result shift bytes rest hv hs hr fits hl =
    let p = 2 ^ shift in
    let split : v * p ≡ v % 128 * p + v / 128 * 2 ^ (shift + 7) = omega (
      arith,
      ap (λ (t : ℕ). t * p) (div-add-mod v 128),
      ap (λ (t : ℕ). v / 128 * t) (shift_seven shift),
    ) in
    let below : result + v % 128 * p < 2 ^ (shift + 7) =
      omega (arith, shift_seven shift, group_below (v % 128) p (omega arith)) in
    ground (
      arith,
      split,
      below,
      last_byte left v result shift bytes rest,
      inner_byte left (v % 128) result shift bytes (groups k (v / 128) ++ rest),
      decode_loop-groups k left (v / 128) (result + v % 128 * p) (shift + 7) (bytes + 1) rest
          (omega arith),
    )

pub decode_varint-groups :
    (v left : ℕ) (rest : Bytes)
    → v < 2 ^ 32
    → varint_byte_size v ≤ left
    → decode_varint (groups 4 v ++ rest) left ≡ done (some (v, varint_byte_size v))
unfolding decode_varint
decode_varint-groups v left rest h fits = rw (← length-groups v h) (
    decode_loop-groups 4 left v 0 0 0 rest (omega arith) (omega arith) (omega arith) (omega arith)
      (omega (arith, length-groups v h))
    ∙ ap₂ (λ (t n : ℕ). done (some (t, n))) (omega arith) (omega arith))

-- Decoding what was appended for a 32-bit value gives the value back after as many bytes as
-- `varintByteSize` says, whatever follows, if at least so many bytes lie before the end.
pub decode_varint-append_varint32 :
    (v left : ℕ) (rest : Bytes)
    → v < 2 ^ 32
    → varint_byte_size v ≤ left
    → decode_varint (append_varint32 [] v ++ rest) left ≡ done (some (v, varint_byte_size v))
decode_varint-append_varint32 v left rest h fits =
    rw (append_varint32-groups [] v h) (decode_varint-groups v left rest h fits)

-- One byte without the top bit.
pub decode_varint_byte :
    (v left : ℕ) (rest : Bytes) → v < 128 → decode_varint (v ∷ rest) (suc left) ≡ done (some (v, 1))
unfolding decode_varint
decode_varint_byte v left rest h =
    last_byte left v 0 0 0 rest h (omega arith) (omega arith)
    ∙ ap (λ (t : ℕ). done (some (t, 1))) (omega arith)
