-- ===== src/Json/Lexer.antt =====
-- The lexer of `JsonParserImpl` in src/mcp/json_rpc.cpp: white space, literals, strings and numbers.
-- The input is the list of the bytes from `pos_` on. `line_` and `col_` are counted from the bytes in
-- front of it when an error is reported. Behind the end of the text stands a NUL byte.
use nexus_rpc.Common.{ℕ, zero, suc, ◌+◌, ◌-◌, ◌*◌, ◌/◌, ◌%◌, ◌^◌, bit_and, bit_or}
use nexus_rpc.Common.{Bool, true, false, ◌&&◌, ◌||◌, if◌then◌else◌, ltb, leb, ◌==◌}
use nexus_rpc.Common.{Bytes, [], ◌∷◌, ◌++◌, length, take, drop, Option, none, some}
use nexus_rpc.Common.ByteMap.{bytes_eq}
use nexus_rpc.Rpc.Decimal.{read_digits, is_digit}
use nexus_rpc.Json.Strings.{
  null_text, true_text, false_text, unterminated_escape, unterminated_unicode,
}
use nexus_rpc.Json.Strings.{invalid_hex, invalid_escape, control_character, unterminated_string}
use nexus_rpc.Json.Strings.{invalid_number, invalid_bool, invalid_null}
use nexus_rpc.Json.Value.{ℤ, pos, negsuc, JsonValue, null, bool, integer, double, Doubles}

-- What a parser method leaves: a value with the input behind it, or the first error with the input at
-- which it was set. `out_of_fuel` has no counterpart in the program.
pub data Parse {ℓ} (A : Type ℓ) : Type ℓ where
  ok : A → Bytes → Parse A
  failed : (at message : Bytes) → Parse A
  out_of_fuel : Parse A

abbrev pub bind {ℓ κ} : {A : Type ℓ} {B : Type κ} → Parse A → (A → Bytes → Parse B) → Parse B
bind (ok a rest) f = f a rest
bind (failed at message) f = failed at message
bind out_of_fuel f = out_of_fuel

abbrev pub is_space : ℕ → Bool
is_space c = c == 32 || c == 9 || c == 10 || c == 13

unfoldable pub skip_whitespace : Bytes → Bytes
skip_whitespace [] = []
skip_whitespace (c ∷ s) = let later = skip_whitespace s in if is_space c then later else c ∷ s

abbrev pub peek : Bytes → ℕ
peek [] = 0
peek (c ∷ s) = c

abbrev pub advance : Bytes → Bytes
advance [] = []
advance (c ∷ s) = s

-- `parseBool` and `parseNull`: the text of a literal, or an error.
unfoldable pub literal : Bytes → JsonValue → Bytes → Bytes → Parse JsonValue
literal text value message s =
    if bytes_eq (take (length text) s) text
    then ok value (drop (length text) s)
    else failed s message

unfoldable pub parse_bool : Bytes → Parse JsonValue
parse_bool s =
    if peek s == 116
    then literal true_text (bool true) invalid_bool s
    else literal false_text (bool false) invalid_bool s

unfoldable pub parse_null : Bytes → Parse JsonValue
parse_null s = literal null_text null invalid_null s

-- What a character in a string stands for.
pub data CharKind : Type 0 where
  quote backslash control plain : CharKind

unfoldable pub char_kind : ℕ → CharKind
char_kind c =
    if c == 34 then quote else if c == 92 then backslash else if ltb c 0x20 then control else plain

pub data Escape : Type 0 where
  stands_for : ℕ → Escape
  unicode invalid : Escape

-- The cases of the `switch` behind a backslash.
unfoldable pub escape : ℕ → Escape
escape c =
    if c == 34
    then stands_for 34
    else if c == 92
    then stands_for 92
    else if c == 47
    then stands_for 47
    else if c == 98
    then stands_for 8
    else if c == 102
    then stands_for 12
    else if c == 110
    then stands_for 10
    else if c == 114
    then stands_for 13
    else if c == 116
    then stands_for 9
    else if c == 117
    then unicode
    else invalid

unfoldable pub hex_value : ℕ → Option ℕ
hex_value c =
    if leb 48 c && leb c 57
    then some (c - 48)
    else if leb 97 c && leb c 102
    then some (c - 97 + 10)
    else if leb 65 c && leb c 70
    then some (c - 65 + 10)
    else none

-- The loop over the hexadecimal digits, `n` more of them.
unfoldable pub read_hex : ℕ → ℕ → Bytes → Parse ℕ
read_hex zero codepoint s = ok codepoint s
read_hex (suc n) codepoint [] = failed [] unterminated_unicode
read_hex (suc n) codepoint (c ∷ s) = elim (hex_value c) [
  | none ↦ failed s invalid_hex
  | some d ↦ read_hex n (bit_or (codepoint * 2 ^ 4 % 2 ^ 32) d) s
]

-- The bytes of a code point; the casts to `char` keep the low 8 bits.
unfoldable pub utf8 : ℕ → Bytes
utf8 codepoint =
    if leb codepoint 0x7F
    then codepoint ∷ []
    else if leb codepoint 0x7FF
    then bit_or 0xC0 (codepoint / 2 ^ 6) % 256 ∷ bit_or 0x80 (bit_and codepoint 0x3F) % 256 ∷ []
    else bit_or 0xE0 (codepoint / 2 ^ 12) % 256
      ∷ bit_or 0x80 (bit_and (codepoint / 2 ^ 6) 0x3F) % 256
      ∷ bit_or 0x80 (bit_and codepoint 0x3F) % 256
      ∷ []

-- What stands behind a backslash, as the bytes it adds to the string.
unfoldable pub read_escape : Bytes → Parse Bytes
read_escape [] = failed [] unterminated_escape
read_escape (c ∷ s) = elim (escape c) [
  | stands_for b ↦ ok (b ∷ []) s
  | unicode ↦ bind (read_hex 4 0 s) λ codepoint rest. ok (utf8 codepoint) rest
  | invalid ↦ failed s (invalid_escape ++ (c ∷ 39 ∷ []))
]

-- The loop of `parseString`; each round takes a character.
unfoldable pub parse_chars : ℕ → Bytes → Parse Bytes
parse_chars fuel [] = failed [] unterminated_string
parse_chars zero (c ∷ s) = out_of_fuel
parse_chars (suc fuel) (c ∷ s) = elim (char_kind c) [
  | quote ↦ ok [] s
  | backslash ↦
      bind (read_escape s)
        λ text rest. bind (parse_chars fuel rest) λ later end. ok (text ++ later) end
  | control ↦ failed s control_character
  | plain ↦ bind (parse_chars fuel s) λ later end. ok (c ∷ later) end
]

-- `parseString`, on an input that starts with a quote.
unfoldable pub parse_string : Bytes → Parse Bytes
parse_string s = parse_chars (length s) (advance s)

-- The value of an `int64_t`, if the number fits one.
unfoldable pub in_range : Bool → ℕ → Option ℤ
in_range false n = if ltb n (2 ^ 63) then some (pos n) else none
in_range true zero = some (pos 0)
in_range true (suc n) = if ltb n (2 ^ 63) then some (negsuc n) else none

unfoldable pub read_signed : Bool → Bytes → Option (Option ℤ × Bytes)
read_signed negative s =
    let (n, rest) = read_digits s 0 in
    if is_digit (peek s) then some (in_range negative n, rest) else none

-- `strtoll` with base 10, at a digit or a minus sign: no number, or its value, if it fits, with the
-- input from `end` on.
unfoldable pub strtoll : Bytes → Option (Option ℤ × Bytes)
strtoll s = if peek s == 45 then read_signed true (advance s) else read_signed false s

-- A fraction or an exponent follows.
abbrev pub goes_on : ℕ → Bool
goes_on c = c == 46 || c == 101 || c == 69

unfoldable pub parse_double : Doubles → Bytes → Parse JsonValue
parse_double lib s = elim (lib.strtod s) [
  | none ↦ failed s invalid_number
  | some (d, consumed) ↦ ok (double d) (drop consumed s)
]

-- What `strtoll` has read is taken, unless it did not fit or a fraction or an exponent follows it.
unfoldable pub take_integer : Doubles → Bytes → Option (Option ℤ × Bytes) → Parse JsonValue
take_integer lib s none = parse_double lib s
take_integer lib s (some (none, rest)) = parse_double lib s
take_integer lib s (some (some i, rest)) =
    if goes_on (peek rest) then parse_double lib s else ok (integer i) rest

unfoldable pub parse_number : Doubles → Bytes → Parse JsonValue
parse_number lib s = take_integer lib s (strtoll s)
