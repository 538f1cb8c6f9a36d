-- ===== src/Frame/BigEndian.antt =====
-- Big-endian integers of src/rpc/frame_codec.cpp: `writeU32BE`, `readU32BE`, `writeU64BE`, `readU64BE`.
-- `val >> k` cast to a byte is `val / 2 ^ k % 256`; `src[i] << k` is `* 2 ^ k`, and wraps nowhere.
use nexus_rpc.Common.{ℕ, ◌+◌, ◌*◌, ◌/◌, ◌%◌, ◌^◌, ◌<◌, ◌≡◌, refl, ◌∙◌, arith, bit_or}
use nexus_rpc.Common.{
  Bytes, IsByte, get_or, get_or-append_left, [], ◌∷◌, ◌++◌, length, take, All, ◌≤◌,
}
use nexus_rpc.Common.Bits.{bit_or_add}

-- What the function stores from `dst` on.
unfoldable pub write_u32_be : ℕ → Bytes
write_u32_be val =
    (val / 2 ^ 24 % 256) ∷ (val / 2 ^ 16 % 256) ∷ (val / 2 ^ 8 % 256) ∷ (val % 256) ∷ []

-- `at src i` is `src[i]`.
abbrev pub at : Bytes → ℕ → ℕ
at src i = get_or src i 0

unfoldable pub read_u32_be : Bytes → ℕ
read_u32_be src =
    bit_or (bit_or (bit_or (at src 0 * 2 ^ 24) (at src 1 * 2 ^ 16)) (at src 2 * 2 ^ 8)) (at src 3)

unfoldable pub write_u64_be : ℕ → Bytes
write_u64_be val =
    (val / 2 ^ 56 % 256)
    ∷ (val / 2 ^ 48 % 256)
    ∷ (val / 2 ^ 40 % 256)
    ∷ (val / 2 ^ 32 % 256)
    ∷ (val / 2 ^ 24 % 256)
    ∷ (val / 2 ^ 16 % 256)
    ∷ (val / 2 ^ 8 % 256)
    ∷ (val % 256)
    ∷ []

unfoldable pub read_u64_be : Bytes → ℕ
read_u64_be src =
    let b0 = at src 0 * 2 ^ 56 in
    let b1 = at src 1 * 2 ^ 48 in
    let b2 = at src 2 * 2 ^ 40 in
    let b3 = at src 3 * 2 ^ 32 in
    let b4 = at src 4 * 2 ^ 24 in
    let b5 = at src 5 * 2 ^ 16 in
    let b6 = at src 6 * 2 ^ 8 in
    bit_or (bit_or (bit_or (bit_or (bit_or (bit_or (bit_or b0 b1) b2) b3) b4) b5) b6) (at src 7)

read_u32_be-value :
    (b0 b1 b2 b3 : ℕ)
    → IsByte b1
    → IsByte b2
    → IsByte b3
    → bit_or (bit_or (bit_or (b0 * 2 ^ 24) (b1 * 2 ^ 16)) (b2 * 2 ^ 8)) b3
      ≡ ((b0 * 256 + b1) * 256 + b2) * 256 + b3
read_u32_be-value b0 b1 b2 b3 h1 h2 h3 =
    let a1 = b0 * 256 + b1 in
    let a2 = a1 * 256 + b2 in
    let s1 : bit_or (b0 * 2 ^ 24) (b1 * 2 ^ 16) ≡ a1 * 2 ^ 16 =
      bit_or_add 24 b0 (b1 * 2 ^ 16) refl (omega arith) (omega arith) in
    let s2 : bit_or (bit_or (b0 * 2 ^ 24) (b1 * 2 ^ 16)) (b2 * 2 ^ 8) ≡ a2 * 2 ^ 8 =
      bit_or_add 16 a1 (b2 * 2 ^ 8) s1 (omega arith) (omega arith) in
    bit_or_add 8 a2 b3 s2 (omega arith) (omega arith)

-- Reading what was written, whatever follows it.
pub read_u32_be-write_u32_be :
    (val : ℕ) (rest : Bytes) → val < 2 ^ 32 → read_u32_be (write_u32_be val ++ rest) ≡ val
unfolding read_u32_be write_u32_be
read_u32_be-write_u32_be val rest h =
    read_u32_be-value (val / 2 ^ 24 % 256) (val / 2 ^ 16 % 256) (val / 2 ^ 8 % 256) (val % 256)
      (omega arith) (omega arith) (omega arith)
    ∙ omega arith

-- Writing what was read from four bytes.
write_u32_be-read_four :
    (b0 b1 b2 b3 : ℕ) (rest : Bytes)
    → IsByte b0
    → IsByte b1
    → IsByte b2
    → IsByte b3
    → write_u32_be (read_u32_be (b0 ∷ b1 ∷ b2 ∷ b3 ∷ rest)) ≡ b0 ∷ b1 ∷ b2 ∷ b3 ∷ []
unfolding read_u32_be write_u32_be
write_u32_be-read_four b0 b1 b2 b3 rest h0 h1 h2 h3 =
    ground (arith, read_u32_be-value b0 b1 b2 b3 h1 h2 h3)

read_u64_be-value :
    (b0 b1 b2 b3 b4 b5 b6 b7 : ℕ) (rest : Bytes)
    → IsByte b1
    → IsByte b2
    → IsByte b3
    → IsByte b4
    → IsByte b5
    → IsByte b6
    → IsByte b7
    → read_u64_be (b0 ∷ b1 ∷ b2 ∷ b3 ∷ b4 ∷ b5 ∷ b6 ∷ b7 ∷ rest)
      ≡ ((((((b0 * 256 + b1) * 256 + b2) * 256 + b3) * 256 + b4) * 256 + b5) * 256 + b6) * 256 + b7
unfolding read_u64_be
read_u64_be-value b0 b1 b2 b3 b4 b5 b6 b7 rest h1 h2 h3 h4 h5 h6 h7 =
    let a1 = b0 * 256 + b1 in
    let a2 = a1 * 256 + b2 in
    let a3 = a2 * 256 + b3 in
    let a4 = a3 * 256 + b4 in
    let a5 = a4 * 256 + b5 in
    let a6 = a5 * 256 + b6 in
    let s1 = bit_or_add 56 b0 (b1 * 2 ^ 48) {y = a1 * 2 ^ 48} refl (omega arith) (omega arith) in
    let s2 = bit_or_add 48 a1 (b2 * 2 ^ 40) {y = a2 * 2 ^ 40} s1 (omega arith) (omega arith) in
    let s3 = bit_or_add 40 a2 (b3 * 2 ^ 32) {y = a3 * 2 ^ 32} s2 (omega arith) (omega arith) in
    let s4 = bit_or_add 32 a3 (b4 * 2 ^ 24) {y = a4 * 2 ^ 24} s3 (omega arith) (omega arith) in
    let s5 = bit_or_add 24 a4 (b5 * 2 ^ 16) {y = a5 * 2 ^ 16} s4 (omega arith) (omega arith) in
    let s6 = bit_or_add 16 a5 (b6 * 2 ^ 8) {y = a6 * 2 ^ 8} s5 (omega arith) (omega arith) in
    bit_or_add 8 a6 b7 s6 (omega arith) (omega arith)

pub read_u64_be-write_u64_be :
    (val : ℕ) (rest : Bytes) → val < 2 ^ 64 → read_u64_be (write_u64_be val ++ rest) ≡ val
unfolding write_u64_be
read_u64_be-write_u64_be val rest h =
    read_u64_be-value (val / 2 ^ 56 % 256) (val / 2 ^ 48 % 256) (val / 2 ^ 40 % 256)
      (val / 2 ^ 32 % 256) (val / 2 ^ 24 % 256) (val / 2 ^ 16 % 256) (val / 2 ^ 8 % 256) (val % 256)
      rest (omega arith) (omega arith) (omega arith) (omega arith) (omega arith) (omega arith)
      (omega arith)
    ∙ omega arith

-- Writing what was read gives the bytes that were read.
pub write_u32_be-read_u32_be :
    (src : Bytes) → All IsByte src → 4 ≤ length src → write_u32_be (read_u32_be src) ≡ take 4 src
write_u32_be-read_u32_be [] v h = absurd (omega arith)
write_u32_be-read_u32_be (b0 ∷ []) v h = absurd (omega arith)
write_u32_be-read_u32_be (b0 ∷ b1 ∷ []) v h = absurd (omega arith)
write_u32_be-read_u32_be (b0 ∷ b1 ∷ b2 ∷ []) v h = absurd (omega arith)
write_u32_be-read_u32_be (b0 ∷ b1 ∷ b2 ∷ b3 ∷ rest) (h0, (h1, (h2, (h3, _)))) h =
    write_u32_be-read_four b0 b1 b2 b3 rest h0 h1 h2 h3

write_u64_be-read_eight :
    (b0 b1 b2 b3 b4 b5 b6 b7 : ℕ) (rest : Bytes)
    → All IsByte (b0 ∷ b1 ∷ b2 ∷ b3 ∷ b4 ∷ b5 ∷ b6 ∷ b7 ∷ rest)
    → write_u64_be (read_u64_be (b0 ∷ b1 ∷ b2 ∷ b3 ∷ b4 ∷ b5 ∷ b6 ∷ b7 ∷ rest))
      ≡ b0 ∷ b1 ∷ b2 ∷ b3 ∷ b4 ∷ b5 ∷ b6 ∷ b7 ∷ []
unfolding write_u64_be
write_u64_be-read_eight b0 b1 b2 b3 b4 b5 b6 b7 rest
      (h0, (h1, (h2, (h3, (h4, (h5, (h6, (h7, _)))))))) =
    ground (arith, read_u64_be-value b0 b1 b2 b3 b4 b5 b6 b7 rest h1 h2 h3 h4 h5 h6 h7)

pub write_u64_be-read_u64_be :
    (src : Bytes) → All IsByte src → 8 ≤ length src → write_u64_be (read_u64_be src) ≡ take 8 src
write_u64_be-read_u64_be [] v h = absurd (omega arith)
write_u64_be-read_u64_be (b0 ∷ []) v h = absurd (omega arith)
write_u64_be-read_u64_be (b0 ∷ b1 ∷ []) v h = absurd (omega arith)
write_u64_be-read_u64_be (b0 ∷ b1 ∷ b2 ∷ []) v h = absurd (omega arith)
write_u64_be-read_u64_be (b0 ∷ b1 ∷ b2 ∷ b3 ∷ []) v h = absurd (omega arith)
write_u64_be-read_u64_be (b0 ∷ b1 ∷ b2 ∷ b3 ∷ b4 ∷ []) v h = absurd (omega arith)
write_u64_be-read_u64_be (b0 ∷ b1 ∷ b2 ∷ b3 ∷ b4 ∷ b5 ∷ []) v h = absurd (omega arith)
write_u64_be-read_u64_be (b0 ∷ b1 ∷ b2 ∷ b3 ∷ b4 ∷ b5 ∷ b6 ∷ []) v h = absurd (omega arith)
write_u64_be-read_u64_be (b0 ∷ b1 ∷ b2 ∷ b3 ∷ b4 ∷ b5 ∷ b6 ∷ b7 ∷ rest) v h =
    write_u64_be-read_eight b0 b1 b2 b3 b4 b5 b6 b7 rest v

-- Reading does not look past the number.
pub read_u32_be-append :
    (src more : Bytes) → 4 ≤ length src → read_u32_be (src ++ more) ≡ read_u32_be src
unfolding read_u32_be
read_u32_be-append src more h = rw (
  get_or-append_left src more 0 0 (omega arith),
  get_or-append_left src more 1 0 (omega arith),
  get_or-append_left src more 2 0 (omega arith),
  get_or-append_left src more 3 0 (omega arith),
)

pub read_u64_be-append :
    (src more : Bytes) → 8 ≤ length src → read_u64_be (src ++ more) ≡ read_u64_be src
unfolding read_u64_be
read_u64_be-append src more h = rw (
  get_or-append_left src more 0 0 (omega arith),
  get_or-append_left src more 1 0 (omega arith),
  get_or-append_left src more 2 0 (omega arith),
  get_or-append_left src more 3 0 (omega arith),
  get_or-append_left src more 4 0 (omega arith),
  get_or-append_left src more 5 0 (omega arith),
  get_or-append_left src more 6 0 (omega arith),
  get_or-append_left src more 7 0 (omega arith),
)
