-- ===== src/Json/Termination/Lexer.antt =====
-- What the lexer leaves behind a token is no longer than what it was given.
use nexus_rpc.Common.{
  ℕ, zero, suc, ◌+◌, ◌-◌, ◌*◌, ◌%◌, ◌^◌, bit_or, ◌≤◌, ◌≡◌, refl, arith, Bool, true, false, ◌==◌,
}
use nexus_rpc.Common.{
  Bytes, [], ◌∷◌, ◌++◌, length, take, Option, none, some, Bool-cases, inl, inr, length-drop,
}
use nexus_rpc.Common.ByteMap.{bytes_eq}
use nexus_rpc.Rpc.Decimal.{is_digit, read_digits}
use nexus_rpc.Json.Strings.{true_text, false_text, null_text, invalid_bool, invalid_null}
use nexus_rpc.Json.Value.{ℤ, JsonValue, Doubles, bool, null}
use nexus_rpc.Json.Lexer.{
  Parse, ok, failed, out_of_fuel, bind, skip_whitespace, peek, advance, literal, parse_bool,
  parse_null,
}
use nexus_rpc.Json.Lexer.{
  CharKind, quote, backslash, control, plain, char_kind, Escape, stands_for, unicode, invalid,
  escape, hex_value, read_hex, utf8, read_escape,
}
use nexus_rpc.Json.Lexer.{
  parse_chars, parse_string, read_signed, strtoll, goes_on, parse_double, take_integer,
  parse_number,
}

module _ {ℓ} {A : Type ℓ} where
  -- A value with at most `n` bytes behind it, or an error.
  abbrev pub Halts : ℕ → Parse A → Type 0
  Halts n (ok value rest) = length rest ≤ n
  Halts n (failed at message) = Unit
  Halts n out_of_fuel = ⊥

  pub Halts-mono : (n m : ℕ) (p : Parse A) → n ≤ m → Halts n p → Halts m p
  Halts-mono n m (ok v rest) h k = omega arith
  Halts-mono n m (failed at message) h k = tt
  Halts-mono n m out_of_fuel h k = k

pub Halts-bind {ℓ κ} :
    {A : Type ℓ} {B : Type κ} (n m : ℕ) (p : Parse A) (f : A → Bytes → Parse B)
    → Halts n p
    → ((v : A) (rest : Bytes) → length rest ≤ n → Halts m (f v rest))
    → Halts m (bind p f)
Halts-bind n m (ok v rest) f h k = k v rest h
Halts-bind n m (failed at message) f h k = tt
Halts-bind n m out_of_fuel f h k = absurd h

pub skip-length : (s : Bytes) → length (skip_whitespace s) ≤ length s
unfolding skip_whitespace
skip-length [] = omega arith
skip-length (c ∷ s) = ground (arith, skip-length s)

pub advance-length : (s : Bytes) → length (advance s) ≤ length s
advance-length [] = omega arith
advance-length (c ∷ s) = omega arith

hex_digit_step :
    (n v c : ℕ) (s : Bytes) (o : Option ℕ)
    → hex_value c ≡ o
    → ((w : ℕ) → Halts (length s) (read_hex n w s))
    → Halts (length (c ∷ s)) (read_hex (suc n) v (c ∷ s))
unfolding read_hex
hex_digit_step n v c s none e ih = rw (read_hex, e) tt
hex_digit_step n v c s (some d) e ih =
    let w = bit_or (v * 2 ^ 4 % 2 ^ 32) d in
    rw (read_hex, e) (Halts-mono (length s) (length (c ∷ s)) (read_hex n w s) (omega arith) (ih w))

read_hex-Halts : (n v : ℕ) (s : Bytes) → Halts (length s) (read_hex n v s)
unfolding read_hex
read_hex-Halts zero v s = omega arith
read_hex-Halts (suc n) v [] = tt
read_hex-Halts (suc n) v (c ∷ s) =
    hex_digit_step n v c s (hex_value c) refl λ w. read_hex-Halts n w s

escape_step :
    (c : ℕ) (s : Bytes) (k : Escape) → escape c ≡ k → Halts (length (c ∷ s)) (read_escape (c ∷ s))
unfolding read_escape
escape_step c s (stands_for b) e = rw (read_escape, e) (omega arith)
escape_step c s unicode e =
    rw (read_escape, e)
      (Halts-bind (length s) (length (c ∷ s)) (read_hex 4 0 s)
        (λ codepoint rest. ok (utf8 codepoint) rest) (read_hex-Halts 4 0 s) λ v rest h. omega arith)
escape_step c s invalid e = rw (read_escape, e) tt

read_escape-Halts : (s : Bytes) → Halts (length s) (read_escape s)
unfolding read_escape
read_escape-Halts [] = tt
read_escape-Halts (c ∷ s) = escape_step c s (escape c) refl

chars_step :
    (fuel c : ℕ) (s : Bytes) (k : CharKind)
    → char_kind c ≡ k
    → length s ≤ fuel
    → ((rest : Bytes) → length rest ≤ fuel → Halts (length rest) (parse_chars fuel rest))
    → Halts (length (c ∷ s)) (parse_chars (suc fuel) (c ∷ s))
unfolding parse_chars
chars_step fuel c s quote e h ih = rw (parse_chars, e) (omega arith)
chars_step fuel c s backslash e h ih =
    rw (parse_chars, e)
      (Halts-bind (length s) (length (c ∷ s)) (read_escape s)
        (λ text rest. bind (parse_chars fuel rest) λ later end. ok (text ++ later) end)
        (read_escape-Halts s)
        λ text rest k.
          Halts-bind (length rest) (length (c ∷ s)) (parse_chars fuel rest)
            (λ later end. ok (text ++ later) end) (ih rest (omega arith))
            λ later end j. omega arith)
chars_step fuel c s control e h ih = rw (parse_chars, e) tt
chars_step fuel c s plain e h ih =
    rw (parse_chars, e)
      (Halts-bind (length s) (length (c ∷ s)) (parse_chars fuel s) (λ later end. ok (c ∷ later) end)
        (ih s h) λ later end j. omega arith)

parse_chars-Halts : (fuel : ℕ) (s : Bytes) → length s ≤ fuel → Halts (length s) (parse_chars fuel s)
unfolding parse_chars
parse_chars-Halts fuel [] h = tt
parse_chars-Halts zero (c ∷ s) h = absurd (omega arith)
parse_chars-Halts (suc fuel) (c ∷ s) h =
    chars_step fuel c s (char_kind c) refl (omega arith) λ rest k. parse_chars-Halts fuel rest k

pub parse_string-Halts : (s : Bytes) → Halts (length s) (parse_string s)
unfolding parse_string
parse_string-Halts s =
    Halts-mono (length (advance s)) (length s) (parse_chars (length s) (advance s))
      (advance-length s) (parse_chars-Halts (length s) (advance s) (advance-length s))

literal-Halts :
    (text : Bytes) (v : JsonValue) (message s : Bytes) → Halts (length s) (literal text v message s)
unfolding literal
literal-Halts text v message s = elim (Bool-cases (bytes_eq (take (length text) s) text)) [
  | inl e ↦ rw e (omega (arith, length-drop (length text) s))
  | inr e ↦ rw e tt
]

pub parse_bool-Halts : (s : Bytes) → Halts (length s) (parse_bool s)
unfolding parse_bool
parse_bool-Halts s = elim (Bool-cases (peek s == 116)) [
  | inl e ↦ rw e (literal-Halts true_text (bool true) invalid_bool s)
  | inr e ↦ rw e (literal-Halts false_text (bool false) invalid_bool s)
]

pub parse_null-Halts : (s : Bytes) → Halts (length s) (parse_null s)
unfolding parse_null
parse_null-Halts s = literal-Halts null_text null invalid_null s

read_digits-length : (s : Bytes) (n : ℕ) → length (read_digits s n).1 ≤ length s
unfolding read_digits
read_digits-length [] n = omega arith
read_digits-length (c ∷ s) n = elim (Bool-cases (is_digit c)) [
  | inl e ↦ rw e (omega (arith, read_digits-length s (n * 10 + (c - 48))))
  | inr e ↦ rw e (omega arith)
]

double_step :
    (lib : Doubles) (s : Bytes) (r : Option (ℕ × ℕ))
    → lib.strtod s ≡ r
    → Halts (length s) (parse_double lib s)
unfolding parse_double
double_step lib s none e = rw (parse_double, e) tt
double_step lib s (some (d, n)) e = rw (parse_double, e) (omega (arith, length-drop n s))

parse_double-Halts : (lib : Doubles) (s : Bytes) → Halts (length s) (parse_double lib s)
parse_double-Halts lib s = double_step lib s (lib.strtod s) refl

-- What is left behind a number that was read.
abbrev Leaves : ℕ → Option (Option ℤ × Bytes) → Type 0
Leaves n none = Unit
Leaves n (some (i, rest)) = length rest ≤ n

Leaves-mono : (n m : ℕ) (r : Option (Option ℤ × Bytes)) → n ≤ m → Leaves n r → Leaves m r
Leaves-mono n m none h k = tt
Leaves-mono n m (some (i, rest)) h k = omega arith

read_signed-Leaves : (negative : Bool) (s : Bytes) → Leaves (length s) (read_signed negative s)
unfolding read_signed
read_signed-Leaves negative s = elim (Bool-cases (is_digit (peek s))) [
  | inl e ↦ rw e (read_digits-length s 0)
  | inr e ↦ rw e tt
]

strtoll-Leaves : (s : Bytes) → Leaves (length s) (strtoll s)
unfolding strtoll
strtoll-Leaves s = elim (Bool-cases (peek s == 45)) [
  | inl e ↦ rw e (
      Leaves-mono (length (advance s)) (length s) (read_signed true (advance s)) (advance-length s)
        (read_signed-Leaves true (advance s)))
  | inr e ↦ rw e (read_signed-Leaves false s)
]

take_integer-Halts :
    (lib : Doubles) (s : Bytes) (r : Option (Option ℤ × Bytes))
    → Leaves (length s) r
    → Halts (length s) (take_integer lib s r)
unfolding take_integer
take_integer-Halts lib s none h = parse_double-Halts lib s
take_integer-Halts lib s (some (none, rest)) h = parse_double-Halts lib s
take_integer-Halts lib s (some (some i, rest)) h = elim (Bool-cases (goes_on (peek rest))) [
  | inl e ↦ rw e (parse_double-Halts lib s)
  | inr e ↦ rw e h
]

pub parse_number-Halts : (lib : Doubles) (s : Bytes) → Halts (length s) (parse_number lib s)
unfolding parse_number
parse_number-Halts lib s = take_integer-Halts lib s (strtoll s) (strtoll-Leaves s)
