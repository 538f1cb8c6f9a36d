-- ===== src/Frame/Varint.antt =====
-- Protobuf varints of src/rpc/frame_codec.cpp. A pointer into memory is the list of the readable bytes
-- from it on, and `end - data` is a number beside it.
pub mod Groups
pub mod RoundTrip
pub mod Reads
use nexus_rpc.Common.{
  ℕ, zero, suc, ◌+◌, ◌*◌, ◌/◌, ◌%◌, ◌^◌, ◌≤◌, ◌<◌, arith, bit_and, bit_or, lt_wf,
}
use nexus_rpc.Common.{Bytes, [], ◌∷◌, ◌++◌, length, Option, none, some, ltb, leb, ◌==◌}
use nexus_rpc.Common.{if◌then◌else◌}
use nexus_rpc.Common.Outcome.{Outcome, done, out_of_bounds}
use mathlib.Core.Logic.{dite}
use mathlib.Core.WellFounded.{Acc}
use native.Mathlib.Decide.{dec_le}

unfoldable pub varint_byte_size : ℕ → ℕ
varint_byte_size value =
    if ltb value 0x80
    then 1
    else if ltb value 0x4000
    then 2
    else if ltb value 0x200000
    then 3
    else if ltb value 0x10000000
    then 4
    else 5

shift_shrinks : (value : ℕ) → 128 ≤ value → value / 2 ^ 7 < value
shift_shrinks value h = omega arith

-- `static_cast<std::uint8_t>(value | 0x80)`.
abbrev continued : ℕ → ℕ
continued value = bit_or value 0x80 % 256

append_varint32_loop : Bytes → (value : ℕ) → Acc ◌<◌ value → Bytes
append_varint32_loop buf value (Acc.intro _ smaller) =
    dite (dec_le 0x80 value)
      (λ more.
        append_varint32_loop (buf ++ (continued value ∷ [])) (value / 2 ^ 7)
          (smaller _ (shift_shrinks value more)))
      (λ _. buf ++ ((value % 256) ∷ []))

-- The vector after the call.
pub append_varint32 : Bytes → ℕ → Bytes
append_varint32 buf value = append_varint32_loop buf value (lt_wf.apply value)

-- `dst` holds what was written up to index `i`.
encode_varint32_loop : (value : ℕ) → Acc ◌<◌ value → Bytes → ℕ → Bytes × ℕ
encode_varint32_loop value (Acc.intro _ smaller) dst i =
    dite (dec_le 0x80 value)
      (λ more.
        encode_varint32_loop (value / 2 ^ 7) (smaller _ (shift_shrinks value more))
          (dst ++ (continued value ∷ [])) (i + 1))
      (λ _. (dst ++ ((value % 256) ∷ []), i + 1))

-- The bytes written from `dst` on, and their number.
pub encode_varint32 : ℕ → Bytes × ℕ
encode_varint32 value = encode_varint32_loop value (lt_wf.apply value) [] 0

-- `left` is `end - (data + bytes)`, and the list is the memory from `data + bytes` on.
pub decode_varint_loop : ℕ → Bytes → ℕ → ℕ → ℕ → Outcome (Option (ℕ × ℕ))
decode_varint_loop zero mem result shift bytes = done none
decode_varint_loop (suc left) [] result shift bytes = out_of_bounds
decode_varint_loop (suc left) (byte ∷ mem) result shift bytes =
    let result' = bit_or result (bit_and byte 0x7F * 2 ^ shift % 2 ^ 64) in
    let more = decode_varint_loop left mem result' (shift + 7) (bytes + 1) in
    if bit_and byte 0x80 == 0
    then done (some (result', bytes + 1))
    else if leb 64 (shift + 7)
    then done none
    else more

-- `none` is the return value 0; else the value that was stored and the number of bytes.
pub decode_varint : Bytes → ℕ → Outcome (Option (ℕ × ℕ))
decode_varint data_bytes left = decode_varint_loop left data_bytes 0 0 0
