-- ===== src/Json/RoundTrip/Values.antt =====
-- Printed values are read back.
use nexus_rpc.Common.{ℕ, zero, suc, ◌+◌, ◌*◌, ◌<◌, ◌≡◌, refl, ap, sym, ◌∙◌, arith}
use nexus_rpc.Common.{true, false, ◌==◌, Bytes, [], ◌∷◌, ◌++◌, length, append_assoc, append-nil}
use nexus_rpc.Json.Value.{JsonValue, Members, Elements, null, bool, integer, double}
use nexus_rpc.Json.Value.{
  string, object, array, no_members, member, no_elements, element, Doubles, set_member,
}
use nexus_rpc.Json.Print.{
  print_string, print_integer, serialize, serialize_members, serialize_elements,
}
use nexus_rpc.Json.Lexer.{ok, bind, skip_whitespace, peek, is_space}
use nexus_rpc.Json.Parser.{parse_value, parse_members, parse_array, parse_elements}
use nexus_rpc.Json.Parser.{finish, parse}
use nexus_rpc.Json.RoundTrip.Numbers.{Stops, parse_number-print_integer}
use nexus_rpc.Json.RoundTrip.Printable.{
  IsPrintable, ArePrintable, AllPrintable, skip_none, integer-start,
}
use nexus_rpc.Json.RoundTrip.Printable.{
  value-is_space, value-bracket, read_number, read_string, read_literal, read_null,
}
use nexus_rpc.Json.RoundTrip.Steps.{
  after_member, after_element, after_member-Stops, after_element-Stops, element-flat, go_on,
}
use nexus_rpc.Json.RoundTrip.Steps.{
  go_on_array, member_step, element_step, length-members, length-elements, later_members,
  later_elements, object_length, array_length,
}
use nexus_rpc.Json.RoundTrip.Order.{append, add_all, add_all-append}

module _ (lib : Doubles) where
  ReadsMembers : Members → Type 0
  ReadsMembers no_members = Unit
  ReadsMembers (member k v ms) =
      (acc : Members) (fuel : ℕ) (rest : Bytes)
      → ArePrintable lib acc (member k v ms)
      → 3 * length (serialize_members lib true (member k v ms)) + 1 < fuel
      → parse_members fuel lib acc (serialize_members lib true (member k v ms) ++ (125 ∷ rest))
        ≡ ok (object (add_all acc (member k v ms))) rest

  ReadsElements : Elements → Type 0
  ReadsElements no_elements = Unit
  ReadsElements (element v es) =
      (fuel : ℕ) (rest : Bytes)
      → AllPrintable lib (element v es)
      → 3 * length (serialize_elements lib true (element v es)) + 1 < fuel
      → parse_elements fuel lib (serialize_elements lib true (element v es) ++ (93 ∷ rest))
        ≡ ok (element v es) rest

  ReadsValue : JsonValue → Type 0
  ReadsValue v =
      (fuel : ℕ) (rest : Bytes)
      → IsPrintable lib v
      → Stops rest
      → 3 * length (serialize lib v) < fuel
      → parse_value fuel lib (serialize lib v ++ rest) ≡ ok v rest

  read_object :
      (ms : Members)
      → ReadsMembers ms
      → (fuel : ℕ) (rest : Bytes) → ArePrintable lib no_members ms
      → 3 * length (serialize_members lib true ms) + 4 < fuel
      → parse_value fuel lib (serialize lib (object ms) ++ rest)
        ≡ ok (object (add_all no_members ms)) rest
  unfolding parse_value serialize skip_whitespace ReadsMembers add_all print_string
  read_object no_members ih zero rest p h = absurd (omega arith)
  read_object no_members ih (suc zero) rest p h = absurd (omega arith)
  read_object no_members ih (suc (suc fuel)) rest p h = refl
  read_object (member k v ms) ih zero rest p h = absurd (omega arith)
  read_object (member k v ms) ih (suc zero) rest p h = absurd (omega arith)
  read_object (member k v ms) ih (suc (suc fuel)) rest p h =
      ap (parse_members fuel lib no_members)
        (append_assoc (serialize_members lib true (member k v ms)) (125 ∷ []) rest)
      ∙ ih no_members fuel rest p (omega arith)

  first_element :
      (v : JsonValue) (es : Elements) (fuel : ℕ) (rest : Bytes)
      → IsPrintable lib v
      → parse_array
          (suc fuel)
          lib
          (skip_whitespace (serialize_elements lib true (element v es) ++ (93 ∷ rest)))
        ≡ bind
            (parse_elements fuel lib (serialize_elements lib true (element v es) ++ (93 ∷ rest)))
            (λ found left. ok (array found) left)
  unfolding parse_value
  first_element v es fuel rest p =
      let text = serialize lib v ++ after_element lib es rest in
      let no_bracket : (peek text == 93) ≡ false =
        value-bracket lib v (after_element lib es rest) p in
      let no_space = skip_none text (value-is_space lib v (after_element lib es rest) p) in
      let flat = element-flat lib v es rest in
      ap (λ t. parse_array (suc fuel) lib (skip_whitespace t)) flat
      ∙ ap (parse_array (suc fuel) lib) no_space
      ∙ rw (parse_array, no_bracket)
          (ap (λ t. bind (parse_elements fuel lib t) (λ found left. ok (array found) left))
            (sym flat))

  read_array :
      (es : Elements)
      → ReadsElements es
      → (fuel : ℕ) (rest : Bytes) → AllPrintable lib es
      → 3 * length (serialize_elements lib true es) + 4 < fuel
      → parse_value fuel lib (serialize lib (array es) ++ rest) ≡ ok (array es) rest
  unfolding parse_value serialize skip_whitespace ReadsElements
  read_array no_elements ih zero rest p h = absurd (omega arith)
  read_array no_elements ih (suc zero) rest p h = absurd (omega arith)
  read_array no_elements ih (suc (suc fuel)) rest p h = refl
  read_array (element v es) ih zero rest p h = absurd (omega arith)
  read_array (element v es) ih (suc zero) rest p h = absurd (omega arith)
  read_array (element v es) ih (suc (suc fuel)) rest p h =
      ap (λ t. parse_array (suc fuel) lib (skip_whitespace t))
        (append_assoc (serialize_elements lib true (element v es)) (93 ∷ []) rest)
      ∙ first_element v es fuel rest p.0
      ∙ ap (λ r. bind r (λ found left. ok (array found) left)) (ih fuel rest p (omega arith))

  go_on_members :
      (ms : Members) (acc : Members) (fuel : ℕ) (rest : Bytes)
      → ReadsMembers ms
      → ArePrintable lib acc ms
      → 3 * length (serialize_members lib false ms) < suc fuel
      → go_on lib fuel acc (after_member lib ms rest) ≡ ok (object (add_all acc ms)) rest
  unfolding go_on after_member ReadsMembers add_all serialize
  go_on_members no_members acc fuel rest ih p h = refl
  go_on_members (member k v ms) acc fuel rest ih p h =
      ih acc fuel rest p (omega (arith, later_members lib k v ms))

  go_on_elements :
      (es : Elements) (v : JsonValue) (fuel : ℕ) (rest : Bytes)
      → ReadsElements es
      → AllPrintable lib es
      → 3 * length (serialize_elements lib false es) < suc fuel
      → go_on_array lib fuel v (after_element lib es rest) ≡ ok (element v es) rest
  unfolding go_on_array after_element ReadsElements serialize
  go_on_elements no_elements v fuel rest ih p h = refl
  go_on_elements (element w es) v fuel rest ih p h =
      ap (λ r. bind r (λ found left. ok (element v found) left))
        (ih fuel rest p (omega (arith, later_elements lib w es)))

  reads_member :
      (k : Bytes) (v : JsonValue) (ms : Members)
      → ReadsValue v
      → ReadsMembers ms
      → ReadsMembers (member k v ms)
  unfolding ReadsValue ReadsMembers add_all
  reads_member k v ms ihv ih acc zero rest p h = absurd (omega arith)
  reads_member k v ms ihv ih acc (suc fuel) rest p h =
      let value =
        ihv fuel (after_member lib ms rest) p.1 (after_member-Stops lib ms rest)
          (omega (arith, length-members lib k v ms)) in
      member_step lib fuel acc k v ms rest p.1 value
      ∙ go_on_members ms (set_member k v acc) fuel rest ih p.2
          (omega (arith, length-members lib k v ms))

  reads_element :
      (v : JsonValue) (es : Elements)
      → ReadsValue v
      → ReadsElements es
      → ReadsElements (element v es)
  unfolding ReadsValue ReadsElements
  reads_element v es ihv ih zero rest p h = absurd (omega arith)
  reads_element v es ihv ih (suc fuel) rest p h =
      let value =
        ihv fuel (after_element lib es rest) p.0 (after_element-Stops lib es rest)
          (omega (arith, length-elements lib v es)) in
      element_step lib fuel v es rest p.0 value
      ∙ go_on_elements es v fuel rest ih p.1 (omega (arith, length-elements lib v es))

  mutual
    unfolding ReadsValue ReadsMembers ReadsElements serialize append

    read_value : (v : JsonValue) → ReadsValue v
    read_value v zero rest p stops h = absurd (omega arith)
    read_value null (suc fuel) rest p stops h = read_null lib fuel rest
    read_value (bool b) (suc fuel) rest p stops h = read_literal lib b fuel rest
    read_value (integer i) (suc fuel) rest p stops h =
        read_number lib fuel (print_integer i ++ rest) (integer-start i rest)
        ∙ parse_number-print_integer lib i rest p stops
    read_value (double d) (suc fuel) rest p stops h =
        read_number lib fuel (lib.print_double d ++ rest) (p.starts rest) ∙ p.reads rest stops
    read_value (string s) (suc fuel) rest p stops h = read_string lib fuel s rest
    read_value (object ms) (suc fuel) rest p stops h =
        read_object ms (read_members ms) (suc fuel) rest p (omega (arith, object_length lib ms))
        ∙ ap (λ found. ok (object found) rest) (add_all-append lib ms no_members p)
    read_value (array es) (suc fuel) rest p stops h =
        read_array es (read_elements es) (suc fuel) rest p (omega (arith, array_length lib es))

    read_members : (ms : Members) → ReadsMembers ms
    read_members no_members = tt
    read_members (member k v ms) = reads_member k v ms (read_value v) (read_members ms)

    read_elements : (es : Elements) → ReadsElements es
    read_elements no_elements = tt
    read_elements (element v es) = reads_element v es (read_value v) (read_elements es)

  read-length :
      (s : Bytes) (fuel : ℕ) (v : JsonValue)
      → parse_value fuel lib s ≡ ok v []
      → (length s == 0) ≡ false
  unfolding parse_value skip_whitespace
  read-length [] zero v h = absurd (ground (arith, h))
  read-length [] (suc fuel) v h = absurd (ground (arith, h))
  read-length (c ∷ s) fuel v h = ground arith

  read_whole :
      (v : JsonValue)
      → IsPrintable lib v
      → parse_value (3 * length (serialize lib v) + 1) lib (serialize lib v) ≡ ok v []
  unfolding ReadsValue
  read_whole v p =
      let text = serialize lib v in
      let fuel = 3 * length text + 1 in
      let nothing : Stops [] = record { no_digit = refl; no_fraction = refl } in
      ap (parse_value fuel lib) (sym (append-nil text))
      ∙ read_value v fuel [] p nothing (omega arith)

-- `parse` reads back what `serialize` prints, for every value that is printed without loss: 64-bit
-- integers, doubles that the C library reads back, and objects without two members of one name.
pub parse-serialize :
    (lib : Doubles) (v : JsonValue) → IsPrintable lib v → parse lib (serialize lib v) ≡ ok v []
unfolding parse finish skip_whitespace
parse-serialize lib v p =
    let text = serialize lib v in
    let no_space : skip_whitespace text ≡ text =
      skip_none text
        (ap (λ t. is_space (peek t)) (sym (append-nil text)) ∙ value-is_space lib v [] p) in
    let value = read_whole lib v p in
    rw (no_space, value, read-length lib text (3 * length text + 1) v value)
