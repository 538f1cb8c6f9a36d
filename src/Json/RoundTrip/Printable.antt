-- ===== src/Json/RoundTrip/Printable.antt =====
-- Values that are printed without loss, and how their texts begin.
use nexus_rpc.Common.{ℕ, suc, ◌≡◌, refl, ap, arith, none}
use nexus_rpc.Common.{Bool, true, false, ◌==◌, Bytes, [], ◌∷◌, ◌++◌}
use nexus_rpc.Json.Value.{ℤ, JsonValue, Members, Elements, null, bool, integer, double}
use nexus_rpc.Json.Value.{
  string, object, array, no_members, member, no_elements, element, Doubles, find_member, set_member,
}
use nexus_rpc.Json.Print.{print_string, print_integer, serialize}
use nexus_rpc.Json.Lexer.{ok, bind, skip_whitespace, peek, is_space, parse_number}
use nexus_rpc.Json.Lexer.{parse_bool, parse_null, literal}
use nexus_rpc.Json.Parser.{start, number_start, parse_value}
use nexus_rpc.Json.Parser.{parse_key, expect}
use nexus_rpc.Json.RoundTrip.Numbers.{Stops, Fits64, print_integer-starts}
use nexus_rpc.Json.RoundTrip.Strings.{parse_string-print_string}

-- A double whose text the C library reads back: it starts like a number and, whatever stops the
-- number, is read as this double.
pub record ReadsBack (lib : Doubles) (d : ℕ) : Type 0 where
  pub starts : (rest : Bytes) → start (peek (lib.print_double d ++ rest)) ≡ number_start
  pub reads :
      (rest : Bytes)
      → Stops rest
      → parse_number lib (lib.print_double d ++ rest) ≡ ok (double d) rest

-- The values that are printed without loss: integers of 64 bits, doubles that are read back, and
-- objects without two members of one name.
abbrev mutual
  pub IsPrintable : Doubles → JsonValue → Type 0
  IsPrintable lib (integer i) = Fits64 i
  IsPrintable lib (double d) = ReadsBack lib d
  IsPrintable lib (object ms) = ArePrintable lib no_members ms
  IsPrintable lib (array es) = AllPrintable lib es
  IsPrintable lib _ = Unit

  -- The members `ms` behind the members `acc`.
  pub ArePrintable : Doubles → Members → Members → Type 0
  ArePrintable lib acc no_members = Unit
  ArePrintable lib acc (member k v ms) =
      (find_member k acc ≡ none) × IsPrintable lib v × ArePrintable lib (set_member k v acc) ms

  pub AllPrintable : Doubles → Elements → Type 0
  AllPrintable lib no_elements = Unit
  AllPrintable lib (element v es) = IsPrintable lib v × AllPrintable lib es

-- White space is skipped up to the first other character.
pub skip_none : (s : Bytes) → is_space (peek s) ≡ false → skip_whitespace s ≡ s
unfolding skip_whitespace
skip_none [] h = refl
skip_none (c ∷ s) h = rw h

pub number-is_space : (c : ℕ) → start c ≡ number_start → is_space c ≡ false
number-is_space c h = ground arith

pub integer-start : (i : ℤ) (rest : Bytes) → start (peek (print_integer i ++ rest)) ≡ number_start
integer-start i rest = ground (arith, print_integer-starts i rest)

pub bracket-number : (c : ℕ) → start c ≡ number_start → (c == 93) ≡ false
bracket-number c h = ground arith

pub read_key : (k rest : Bytes) → parse_key (print_string k ++ (58 ∷ rest)) ≡ ok k rest
unfolding parse_key print_string skip_whitespace expect
read_key k rest =
    ap (λ p. bind p (λ key left. bind (expect 58 (skip_whitespace left)) λ _ r. ok key r))
      (parse_string-print_string k (58 ∷ rest))

module _ (lib : Doubles) where
  pub value-is_space :
      (v : JsonValue) (rest : Bytes)
      → IsPrintable lib v
      → is_space (peek (serialize lib v ++ rest)) ≡ false
  unfolding serialize print_string
  value-is_space null rest p = refl
  value-is_space (bool true) rest p = refl
  value-is_space (bool false) rest p = refl
  value-is_space (integer i) rest p =
      number-is_space (peek (print_integer i ++ rest)) (integer-start i rest)
  value-is_space (double d) rest p =
      number-is_space (peek (lib.print_double d ++ rest)) (p.starts rest)
  value-is_space (string s) rest p = refl
  value-is_space (object ms) rest p = refl
  value-is_space (array es) rest p = refl

  pub value-bracket :
      (v : JsonValue) (rest : Bytes)
      → IsPrintable lib v
      → (peek (serialize lib v ++ rest) == 93) ≡ false
  unfolding serialize print_string
  value-bracket null rest p = refl
  value-bracket (bool true) rest p = refl
  value-bracket (bool false) rest p = refl
  value-bracket (integer i) rest p =
      bracket-number (peek (print_integer i ++ rest)) (integer-start i rest)
  value-bracket (double d) rest p =
      bracket-number (peek (lib.print_double d ++ rest)) (p.starts rest)
  value-bracket (string s) rest p = refl
  value-bracket (object ms) rest p = refl
  value-bracket (array es) rest p = refl

  pub read_number :
      (fuel : ℕ) (s : Bytes)
      → start (peek s) ≡ number_start
      → parse_value (suc fuel) lib s ≡ parse_number lib s
  unfolding parse_value
  read_number fuel s h =
      let no_space : is_space (peek s) ≡ false = number-is_space (peek s) h in
      rw (parse_value, skip_none s no_space, h) (ap (parse_number lib) (skip_none s no_space))

  pub read_string :
      (fuel : ℕ) (t rest : Bytes)
      → parse_value (suc fuel) lib (print_string t ++ rest) ≡ ok (string t) rest
  unfolding parse_value print_string skip_whitespace
  read_string fuel t rest =
      ap (λ p. bind p (λ text left. ok (string text) left)) (parse_string-print_string t rest)

  pub read_literal :
      (b : Bool) (fuel : ℕ) (rest : Bytes)
      → parse_value (suc fuel) lib (serialize lib (bool b) ++ rest) ≡ ok (bool b) rest
  unfolding parse_value serialize skip_whitespace parse_bool literal
  read_literal true fuel rest = refl
  read_literal false fuel rest = refl

  pub read_null :
      (fuel : ℕ) (rest : Bytes)
      → parse_value (suc fuel) lib (serialize lib null ++ rest) ≡ ok null rest
  unfolding parse_value serialize skip_whitespace parse_null literal
  read_null fuel rest = refl
