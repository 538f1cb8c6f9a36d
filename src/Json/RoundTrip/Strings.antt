-- ===== src/Json/RoundTrip/Strings.antt =====
-- Printed strings are read back.
use nexus_rpc.Common.{
  ℕ, zero, suc, ◌+◌, ◌*◌, ◌/◌, ◌%◌, ◌^◌, ◌≤◌, ◌<◌, ◌≡◌, refl, ap, ◌∙◌, arith, bit_or,
}
use nexus_rpc.Common.{
  none, Option-cases, if◌then◌else◌, true, ltb, leb, Bool-cases, inl, inr, Bytes, [], ◌∷◌, ◌++◌,
  length, some, append_assoc, length-append,
}
use nexus_rpc.Common.Bits.{bit_or_add, zero-bit_or}
use nexus_rpc.Json.Print.{short_escape, print_char, print_chars, print_string, hex_digit}
use nexus_rpc.Json.Lexer.{
  ok, bind, escape, stands_for, char_kind, control, plain, read_hex, hex_value, utf8, read_escape,
  parse_chars, parse_string,
}

hex_value-hex_digit : (d : ℕ) → d < 16 → hex_value (hex_digit d) ≡ some d
unfolding hex_value
hex_value-hex_digit d h = ground arith

hex_step :
    (n codepoint c d : ℕ) (rest : Bytes)
    → hex_value c ≡ some d
    → read_hex (suc n) codepoint (c ∷ rest)
      ≡ read_hex n (bit_or (codepoint * 2 ^ 4 % 2 ^ 32) d) rest
unfolding read_hex
hex_step n codepoint c d rest e = rw (read_hex, e)

read_hex-two :
    (a b : ℕ) (rest : Bytes)
    → a < 2
    → b < 16
    → read_hex 4 0 (48 ∷ 48 ∷ hex_digit a ∷ hex_digit b ∷ rest) ≡ ok (a * 16 + b) rest
unfolding read_hex
read_hex-two a b rest ha hb =
    let zero_digit : hex_value 48 ≡ some 0 = hex_value-hex_digit 0 (omega arith) in
    let high : bit_or (0 * 2 ^ 4 % 2 ^ 32) a ≡ a = zero-bit_or a in
    let low : bit_or (a * 2 ^ 4 % 2 ^ 32) b ≡ a * 16 + b =
      bit_or_add 4 a b (omega arith) (omega arith) (omega arith) in
    hex_step 3 0 48 0 (48 ∷ hex_digit a ∷ hex_digit b ∷ rest) zero_digit
    ∙ hex_step 2 0 48 0 (hex_digit a ∷ hex_digit b ∷ rest) zero_digit
    ∙ hex_step 1 0 (hex_digit a) a (hex_digit b ∷ rest) (hex_value-hex_digit a (omega arith))
    ∙ rw high (hex_step 0 a (hex_digit b) b rest (hex_value-hex_digit b hb))
    ∙ ap (λ n. ok n rest) low

escape-short_escape : (c e : ℕ) → short_escape c ≡ some e → escape e ≡ stands_for c
unfolding escape short_escape
escape-short_escape c e h = ground arith

char_kind-none :
    (c : ℕ) → short_escape c ≡ none → char_kind c ≡ (if ltb c 32 then control else plain)
unfolding char_kind short_escape
char_kind-none c h = ground arith

read_unicode :
    (c : ℕ) (rest : Bytes)
    → c < 32
    → read_escape (117 ∷ 48 ∷ 48 ∷ hex_digit (c / 16) ∷ hex_digit (c % 16) ∷ rest)
      ≡ ok (c ∷ []) rest
unfolding read_escape utf8 escape
read_unicode c rest h =
    let small : leb (c / 16 * 16 + c % 16) 0x7F ≡ true = ground arith in
    rw (read_hex-two (c / 16) (c % 16) rest (omega arith) (omega arith), small)
      (ap (λ (n : ℕ). ok (n ∷ []) rest) (omega arith))

escaped :
    (fuel c : ℕ) (text rest : Bytes)
    → read_escape text ≡ ok (c ∷ []) rest
    → parse_chars (suc fuel) (92 ∷ text)
      ≡ bind (parse_chars fuel rest) (λ later end. ok (c ∷ later) end)
unfolding parse_chars char_kind
escaped fuel c text rest e = rw (parse_chars, e)

read_short :
    (c e : ℕ) (rest : Bytes) → short_escape c ≡ some e → read_escape (e ∷ rest) ≡ ok (c ∷ []) rest
unfolding read_escape
read_short c e rest short = rw (read_escape, escape-short_escape c e short)

-- One printed character is read back as itself.
read_char :
    (fuel c : ℕ) (rest : Bytes)
    → parse_chars (suc fuel) (print_char c ++ rest)
      ≡ bind (parse_chars fuel rest) (λ later end. ok (c ∷ later) end)
unfolding print_char parse_chars
read_char fuel c rest = elim (Option-cases (short_escape c)) [
  | inr (e, short) ↦
      rw (print_char, short) (escaped fuel c (e ∷ rest) rest (read_short c e rest short))
  | inl long ↦ elim (Bool-cases (ltb c 32)) [
    | inl low ↦
        rw (print_char, long, low) (escaped fuel c _ rest (read_unicode c rest (ground arith)))
    | inr high ↦
        let kind : char_kind c ≡ plain = char_kind-none c long ∙ rw high in
        rw (print_char, long, high, parse_chars, kind)
  ]
]

length-print_char_pos : (c : ℕ) → 0 < length (print_char c)
unfolding print_char
length-print_char_pos c = ground arith

length-print_chars : (s : Bytes) → length s ≤ length (print_chars s)
unfolding print_chars
length-print_chars [] = omega arith
length-print_chars (c ∷ s) = omega (
  arith,
  length-append (print_char c) (print_chars s),
  length-print_char_pos c,
  length-print_chars s,
)

read_chars :
    (fuel : ℕ) (s rest : Bytes)
    → length s < fuel
    → parse_chars fuel (print_chars s ++ (34 ∷ rest)) ≡ ok s rest
unfolding print_chars
read_chars zero s rest h = absurd (omega arith)
read_chars (suc fuel) [] rest h = unfold parse_chars char_kind in refl
read_chars (suc fuel) (c ∷ s) rest h =
    ap (parse_chars (suc fuel)) (append_assoc (print_char c) (print_chars s) (34 ∷ rest))
    ∙ read_char fuel c (print_chars s ++ (34 ∷ rest))
    ∙ rw (read_chars fuel s rest (omega arith))

pub parse_string-print_string : (s rest : Bytes) → parse_string (print_string s ++ rest) ≡ ok s rest
unfolding parse_string print_string
parse_string-print_string s rest =
    ap (parse_chars _) (append_assoc (print_chars s) (34 ∷ []) rest)
    ∙ read_chars _ s rest (
        omega (
          arith,
          length-print_chars s,
          length-append (print_chars s ++ (34 ∷ [])) rest,
          length-append (print_chars s) (34 ∷ []),
        ))
