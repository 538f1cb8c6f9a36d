-- ===== src/Json/RoundTrip/Numbers.antt =====
-- Printed integers are read back.
use nexus_rpc.Common.{ℕ, zero, suc, ◌+◌, ◌*◌, ◌/◌, ◌%◌, ◌^◌, ◌<◌, ◌≡◌, refl, ap, ◌∙◌, arith}
use native.Mathlib.Nat.{pow-suc}
use nexus_rpc.Common.{
  ◌⊎◌, Bool, true, false, ltb, ◌==◌, Bool-cases, inl, inr, Bytes, [], ◌∷◌, ◌++◌, some,
}
use nexus_rpc.Rpc.Decimal.{digits_from, read_digits, is_digit}
use nexus_rpc.Json.Value.{ℤ, pos, negsuc, integer, Doubles}
use nexus_rpc.Json.Print.{print_integer}
use nexus_rpc.Json.Lexer.{
  ok, peek, read_signed, in_range, strtoll, goes_on, take_integer, parse_number,
}

-- What may follow a number: no digit, and no start of a fraction or an exponent.
pub record Stops (rest : Bytes) : Type 0 where
  pub no_digit : is_digit (peek rest) ≡ false
  pub no_fraction : goes_on (peek rest) ≡ false

digits_from-append :
    (f n : ℕ) (xs rest : Bytes) → digits_from f n xs ++ rest ≡ digits_from f n (xs ++ rest)
unfolding digits_from
digits_from-append zero n xs rest = refl
digits_from-append (suc f) n xs rest = elim (Bool-cases (ltb n 10)) [
  | inl e ↦ rw e
  | inr e ↦ rw e (digits_from-append f (n / 10) ((48 + n % 10) ∷ xs) rest)
]

read_digit :
    (d m : ℕ) (rest : Bytes)
    → d < 10
    → read_digits ((48 + d) ∷ rest) m ≡ read_digits rest (m * 10 + d)
unfolding read_digits
read_digit d m rest h =
    let digit : is_digit (48 + d) ≡ true = ground arith in
    rw digit (ap (λ (n : ℕ). read_digits rest (m * 10 + n)) (omega arith))

read_digits-digits_from :
    (f n : ℕ) (rest : Bytes)
    → n < 10 ^ f
    → read_digits (digits_from f n rest) 0 ≡ read_digits rest n
unfolding digits_from
read_digits-digits_from zero n rest h = ap (read_digits rest) (omega arith)
read_digits-digits_from (suc f) n rest h = elim (Bool-cases (ltb n 10)) [
  | inl e ↦ rw e (read_digit n 0 rest (ground arith) ∙ ap (read_digits rest) (omega arith))
  | inr e ↦ rw e (
      read_digits-digits_from f (n / 10) ((48 + n % 10) ∷ rest) (omega (arith, pow-suc 10 f))
      ∙ read_digit (n % 10) (n / 10) rest (omega arith)
      ∙ ap (read_digits rest) (omega arith))
]

digits_from-starts : (f n : ℕ) (rest : Bytes) → is_digit (peek (digits_from (suc f) n rest)) ≡ true
unfolding digits_from
digits_from-starts zero n rest = ground arith
digits_from-starts (suc f) n rest =
    ground (arith, digits_from-starts f (n / 10) ((48 + n % 10) ∷ rest))

read_digits-Stops :
    (rest : Bytes) (n : ℕ) → is_digit (peek rest) ≡ false → read_digits rest n ≡ (n, rest)
unfolding read_digits
read_digits-Stops [] n h = refl
read_digits-Stops (c ∷ rest) n h = rw h

-- The integers of 64 bits.
abbrev pub Fits64 : ℤ → Type 0
Fits64 (pos n) = n < 2 ^ 63
Fits64 (negsuc n) = n < 2 ^ 63

signed :
    (negative : Bool) (i : ℤ) (n : ℕ) (rest : Bytes)
    → n < 10 ^ 20
    → in_range negative n ≡ some i
    → is_digit (peek rest) ≡ false
    → read_signed negative (digits_from 20 n [] ++ rest) ≡ some (some i, rest)
unfolding read_signed
signed negative i n rest small e stop =
    let whole = digits_from-append 20 n [] rest in
    let start : is_digit (peek (digits_from 20 n rest)) ≡ true = digits_from-starts 19 n rest in
    let value : read_digits (digits_from 20 n rest) 0 ≡ (n, rest) =
      read_digits-digits_from 20 n rest small ∙ read_digits-Stops rest n stop in
    rw (whole, value, start, e)

strtoll-print_integer :
    (i : ℤ) (rest : Bytes)
    → Fits64 i
    → is_digit (peek rest) ≡ false
    → strtoll (print_integer i ++ rest) ≡ some (some i, rest)
unfolding strtoll print_integer in_range
strtoll-print_integer (pos n) rest fits stop =
    let start : is_digit (peek (digits_from 20 n ([] ++ rest))) ≡ true =
      digits_from-starts 19 n rest in
    let plain : (peek (digits_from 20 n [] ++ rest) == 45) ≡ false =
      rw (digits_from-append 20 n [] rest) (ground (arith, start)) in
    let range : in_range false n ≡ some (pos n) = ground arith in
    rw plain (signed false (pos n) n rest (omega arith) range stop)
strtoll-print_integer (negsuc n) rest fits stop =
    let range : in_range true (n + 1) ≡ some (negsuc n) =
      let next : n + 1 ≡ suc n = omega arith in rw next (ground arith) in
    signed true (negsuc n) (n + 1) rest (omega arith) range stop

pub parse_number-print_integer :
    (lib : Doubles) (i : ℤ) (rest : Bytes)
    → Fits64 i
    → Stops rest
    → parse_number lib (print_integer i ++ rest) ≡ ok (integer i) rest
unfolding parse_number take_integer
parse_number-print_integer lib i rest fits stop =
    rw (strtoll-print_integer i rest fits stop.no_digit, stop.no_fraction)

pub print_integer-starts :
    (i : ℤ) (rest : Bytes)
    → ((peek (print_integer i ++ rest) == 45) ≡ true)
      ⊎ (is_digit (peek (print_integer i ++ rest)) ≡ true)
unfolding print_integer
print_integer-starts (pos n) rest =
    inr (rw (digits_from-append 20 n [] rest) (digits_from-starts 19 n rest))
print_integer-starts (negsuc n) rest = inl refl
