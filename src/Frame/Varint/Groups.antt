-- ===== src/Frame/Varint/Groups.antt =====
-- What the varint encoders write, in plain arithmetic: groups of seven bits, lowest first.
use nexus_rpc.Common.{ℕ, zero, suc, ◌+◌, ◌/◌, ◌%◌, ◌^◌, ◌≤◌, ◌<◌, ◌≡◌, sym, ◌∙◌, ap, arith}
use nexus_rpc.Common.{Bytes, IsByte, All, [], ◌∷◌, ◌++◌, length, leb, if◌then◌else◌, append_assoc}
use nexus_rpc.Common.{lt_wf}
use nexus_rpc.Common.Bits.{bit_or_top}
use nexus_rpc.Frame.Varint.{append_varint32_loop, append_varint32, varint_byte_size}
use nexus_rpc.Frame.Varint.{encode_varint32_loop, encode_varint32}
use mathlib.Core.WellFounded.{Acc}

-- The groups of `v`, for `v` below `128 ^ (k + 1)`.
unfoldable pub groups : ℕ → ℕ → Bytes
groups zero v = v ∷ []
groups (suc k) v =
    let rest = groups k (v / 128) in if leb 128 v then (v % 128 + 128) ∷ rest else v ∷ []

append_loop-groups :
    (k : ℕ) (buf : Bytes) (v : ℕ) (w : Acc ◌<◌ v)
    → v < 128 ^ suc k
    → append_varint32_loop buf v w ≡ buf ++ groups k v
unfolding append_varint32_loop groups
append_loop-groups zero buf v (Acc.intro _ smaller) h = ground arith
append_loop-groups (suc k) buf v (Acc.intro _ smaller) h =
    let head : Bytes = (v % 128 + 128) ∷ [] in
    grind (
      arith,
      bit_or_top v,
      λ (w : Acc ◌<◌ (v / 128)). append_loop-groups k (buf ++ head) (v / 128) w (omega arith),
      append_assoc buf head (groups k (v / 128)),
    )

pub append_varint32-groups :
    (buf : Bytes) (v : ℕ) → v < 2 ^ 32 → append_varint32 buf v ≡ buf ++ groups 4 v
unfolding append_varint32
append_varint32-groups buf v h = append_loop-groups 4 buf v (lt_wf.apply v) (omega arith)

pub length-groups : (v : ℕ) → v < 2 ^ 32 → length (groups 4 v) ≡ varint_byte_size v
unfolding groups varint_byte_size
length-groups v h = ground arith

pub groups-IsByte : (k v : ℕ) → v < 128 ^ suc k → All IsByte (groups k v)
unfolding groups
groups-IsByte zero v h = omega arith
groups-IsByte (suc k) v h = ground (arith, groups-IsByte k (v / 128) (omega arith))

pub varint_byte_size-le : (v : ℕ) → varint_byte_size v ≤ 5
unfolding varint_byte_size
varint_byte_size-le v = ground arith

encode_loop-groups :
    (k : ℕ) (v : ℕ) (w : Acc ◌<◌ v) (dst : Bytes) (i : ℕ)
    → v < 128 ^ suc k
    → encode_varint32_loop v w dst i ≡ (dst ++ groups k v, i + length (groups k v))
unfolding encode_varint32_loop groups
encode_loop-groups zero v (Acc.intro _ smaller) dst i h = ground arith
encode_loop-groups (suc k) v (Acc.intro _ smaller) dst i h =
    let head : Bytes = (v % 128 + 128) ∷ [] in
    grind (
      arith,
      bit_or_top v,
      λ (w : Acc ◌<◌ (v / 128)).
          encode_loop-groups k (v / 128) w (dst ++ head) (i + 1) (omega arith),
      append_assoc dst head (groups k (v / 128)),
    )

-- For a 32-bit value, the encoder that writes to a pointer writes what `appendVarint32` appends to a
-- buffer, and returns as many bytes as `varintByteSize` says.
pub encode_varint32-append_varint32 :
    (buf : Bytes) (v : ℕ)
    → v < 2 ^ 32
    → (buf ++ (encode_varint32 v).0 ≡ append_varint32 buf v)
      × ((encode_varint32 v).1 ≡ varint_byte_size v)
unfolding encode_varint32
encode_varint32-append_varint32 buf v h =
    let written = encode_loop-groups 4 v (lt_wf.apply v) [] 0 (omega arith) in
    (
      ap (λ r. buf ++ r.0) written ∙ sym (append_varint32-groups buf v h),
      ap (λ r. r.1) written ∙ omega (arith, length-groups v h),
    )
