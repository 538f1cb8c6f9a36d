-- ===== src/Rpc/Decimal.antt =====
-- `std::to_string` and `std::from_chars` of the standard library, on the numbers of a 32-bit `int`.
use nexus_rpc.Common.{ℕ, zero, suc, ◌+◌, ◌-◌, ◌*◌, ◌/◌, ◌%◌, ◌^◌}
use nexus_rpc.Common.{Bool, true, false, ◌&&◌, not, if◌then◌else◌, ltb, leb, ◌==◌}
use nexus_rpc.Common.{Bytes, [], ◌∷◌, Option, none, some}

abbrev pub is_digit : ℕ → Bool
is_digit c = leb 48 c && leb c 57

-- The digits of `n` behind `rest`; ten of them are enough for an `int`.
unfoldable pub digits_from : ℕ → ℕ → Bytes → Bytes
digits_from zero n rest = rest
digits_from (suc fuel) n rest =
    let more = digits_from fuel (n / 10) ((48 + n % 10) ∷ rest) in
    if ltb n 10 then (48 + n) ∷ rest else more

-- `std::to_string` of an `int` that is not negative.
unfoldable pub to_string : ℕ → Bytes
to_string n = digits_from 10 n []

-- The value of the digits in front, behind those that gave `n`, and what follows them.
unfoldable pub read_digits : Bytes → ℕ → ℕ × Bytes
read_digits [] n = (n, [])
read_digits (c ∷ rest) n =
    let more = read_digits rest (n * 10 + (c - 48)) in if is_digit c then more else (n, c ∷ rest)

-- Whether the number fits an `int` with the sign.
abbrev fits_int : Bool → ℕ → Bool
fits_int negative n = if negative then leb n (2 ^ 31) else ltb n (2 ^ 31)

unfoldable pub read_magnitude : Bool → Bytes → Option (Bool × ℕ × Bytes)
read_magnitude negative [] = none
read_magnitude negative (c ∷ rest) =
    let (n, left) = read_digits (c ∷ rest) 0 in
    if not (is_digit c)
    then none
    else if fits_int negative n
    then some (negative, n, left)
    else none

-- `std::from_chars` for an `int`: a sign, the magnitude and the characters from `ptr` on, or an error.
unfoldable pub from_chars : Bytes → Option (Bool × ℕ × Bytes)
from_chars [] = none
from_chars (c ∷ rest) =
    if c == 45 then read_magnitude true rest else read_magnitude false (c ∷ rest)
