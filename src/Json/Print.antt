-- ===== src/Json/Print.antt =====
-- `serializeValue` of src/mcp/json_rpc.cpp.
use nexus_rpc.Common.{ℕ, ◌+◌, ◌/◌, ◌%◌, Bool, true, false, if◌then◌else◌, ltb, ◌==◌}
use nexus_rpc.Common.{Option, none, some, Bytes, [], ◌∷◌, ◌++◌}
use nexus_rpc.Rpc.Decimal.{digits_from}
use nexus_rpc.Json.Strings.{null_text, true_text, false_text}
use nexus_rpc.Json.Value.{ℤ, pos, negsuc, JsonValue, Members, Elements, null, bool, integer, double}
use nexus_rpc.Json.Value.{string, object, array, no_members, member, no_elements, element, Doubles}

-- `std::to_string` of an `int64_t`; twenty digits are enough.
unfoldable pub print_integer : ℤ → Bytes
print_integer (pos n) = digits_from 20 n []
print_integer (negsuc n) = 45 ∷ digits_from 20 (n + 1) []

abbrev pub hex_digit : ℕ → ℕ
hex_digit d = if ltb d 10 then 48 + d else 87 + d

-- The letter behind a backslash, for the characters that have one.
unfoldable pub short_escape : ℕ → Option ℕ
short_escape c =
    if c == 34
    then some 34
    else if c == 92
    then some 92
    else if c == 8
    then some 98
    else if c == 12
    then some 102
    else if c == 10
    then some 110
    else if c == 13
    then some 114
    else if c == 9
    then some 116
    else none

-- The `switch` on a character; `\u` has four digits, of which two are 0.
unfoldable pub print_char : ℕ → Bytes
print_char c = elim (short_escape c) [
  | some letter ↦ 92 ∷ letter ∷ []
  | none ↦
      if ltb c 0x20
      then 92 ∷ 117 ∷ 48 ∷ 48 ∷ hex_digit (c / 16) ∷ hex_digit (c % 16) ∷ []
      else c ∷ []
]

unfoldable pub print_chars : Bytes → Bytes
print_chars [] = []
print_chars (c ∷ s) = print_char c ++ print_chars s

-- `serializeString`.
unfoldable pub print_string : Bytes → Bytes
print_string s = 34 ∷ (print_chars s ++ (34 ∷ []))

-- The comma in front of a member or an element that is not the first.
abbrev pub comma : Bool → Bytes
comma first = if first then [] else 44 ∷ []

unfoldable mutual
  pub serialize : Doubles → JsonValue → Bytes
  serialize lib null = null_text
  serialize lib (bool b) = if b then true_text else false_text
  serialize lib (integer i) = print_integer i
  serialize lib (double d) = lib.print_double d
  serialize lib (string s) = print_string s
  serialize lib (object ms) = 123 ∷ (serialize_members lib true ms ++ (125 ∷ []))
  serialize lib (array es) = 91 ∷ (serialize_elements lib true es ++ (93 ∷ []))

  pub serialize_members : Doubles → Bool → Members → Bytes
  serialize_members lib first no_members = []
  serialize_members lib first (member k v ms) =
      comma first ++ (print_string k ++ (58 ∷ (serialize lib v ++ serialize_members lib false ms)))

  pub serialize_elements : Doubles → Bool → Elements → Bytes
  serialize_elements lib first no_elements = []
  serialize_elements lib first (element v es) =
      comma first ++ (serialize lib v ++ serialize_elements lib false es)
