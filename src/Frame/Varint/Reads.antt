-- ===== src/Frame/Varint/Reads.antt =====
-- What `decodeVarint` reads and answers on any input.
use nexus_rpc.Common.{ℕ, zero, suc, ◌+◌, ◌*◌, ◌%◌, ◌^◌, ◌≤◌, ◌<◌, ◌≡◌, refl, arith, bit_or, bit_and}
use nexus_rpc.Common.{Bytes, Bool, true, false, [], ◌∷◌, length, Option, none, some, leb, ◌==◌}
use nexus_rpc.Common.Bits.{bit_or-lt}
use nexus_rpc.Common.Outcome.{done, Ensures, Ends, Ends-if, Ends-done, Ends-Ensures}
use nexus_rpc.Frame.Varint.{decode_varint_loop, decode_varint}

-- Without faults, `n` bytes are readable.
abbrev pub Room : Bool → ℕ → Bytes → Type 0
Room true n mem = Unit
Room false n mem = n ≤ length mem

-- What a call with `left` bytes before the end may store and return.
abbrev pub IsDecoded : ℕ → Option (ℕ × ℕ) → Type 0
IsDecoded left none = Unit
IsDecoded left (some (v, n)) = (v < 2 ^ 64) × (1 ≤ n) × (n ≤ 10) × (n ≤ left)

pub Room-tail :
    (faults : Bool) (n : ℕ) (b : ℕ) (mem : Bytes)
    → Room faults (suc n) (b ∷ mem)
    → Room faults n mem
Room-tail true n b mem h = tt
Room-tail false n b mem h = omega arith

decode_loop-Ends :
    (faults : Bool) (left : ℕ) (mem : Bytes) (result shift bytes j all : ℕ)
    → Room faults left mem
    → shift ≡ 7 * j
    → bytes ≡ j
    → all ≡ left + j
    → j ≤ 9
    → result < 2 ^ 64
    → Ends faults (IsDecoded all) (decode_varint_loop left mem result shift bytes)
unfolding decode_varint_loop
decode_loop-Ends faults zero mem result shift bytes j all hl hs hb ha hj hr = tt
decode_loop-Ends true (suc left) [] result shift bytes j all hl hs hb ha hj hr = tt
decode_loop-Ends false (suc left) [] result shift bytes j all hl hs hb ha hj hr =
    absurd (omega arith)
decode_loop-Ends faults (suc left) (b ∷ mem) result shift bytes j all hl hs hb ha hj hr =
    let next = bit_or result (bit_and b 0x7F * 2 ^ shift % 2 ^ 64) in
    let fits : next < 2 ^ 64 = bit_or-lt 64 result _ hr (omega arith) in
    Ends-if faults (IsDecoded all) (bit_and b 0x80 == 0) _ _
      (λ _. (fits, omega arith, omega arith, omega arith))
      (λ _.
        Ends-if faults (IsDecoded all) (leb 64 (shift + 7)) _ _ (λ _. tt)
          (λ e.
            decode_loop-Ends faults left mem next (shift + 7) (bytes + 1) (j + 1) all
              (Room-tail faults left b mem hl) (omega arith) (omega arith) (omega arith)
              (ground arith) fits))

pub decode_varint-Ensures :
    (faults : Bool) (mem : Bytes) (left : ℕ)
    → Room faults left mem
    → Ensures faults (IsDecoded left) (decode_varint mem left)
unfolding decode_varint
decode_varint-Ensures faults mem left h = Ends-Ensures faults (IsDecoded left) _ (
    decode_loop-Ends faults left mem 0 0 0 0 left h refl refl (omega arith) (omega arith)
      (omega arith))

-- Where `left` bytes are readable before the end, a call reads none behind them and returns: 0, or
-- from 1 to 10 and no more than `left`, with a value below `2 ^ 64` stored.
pub decode_varint_total :
    (mem : Bytes) (left : ℕ)
    → left ≤ length mem
    → (r : Option (ℕ × ℕ)) × (decode_varint mem left ≡ done r) × IsDecoded left r
unfolding decode_varint
decode_varint_total mem left h = Ends-done (IsDecoded left) _ (
    decode_loop-Ends false left mem 0 0 0 0 left h refl refl (omega arith) (omega arith)
      (omega arith))
