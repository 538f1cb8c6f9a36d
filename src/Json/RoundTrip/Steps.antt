-- ===== src/Json/RoundTrip/Steps.antt =====
-- What the parser does behind a member and behind an element.
use nexus_rpc.Common.{ℕ, suc, ◌+◌, ◌≡◌, refl, ap, ◌∙◌, arith}
use nexus_rpc.Common.{true, false, Bytes, [], ◌∷◌, ◌++◌, length, append_assoc, length-append}
use nexus_rpc.Json.Strings.{expected_in_object, expected_in_array}
use nexus_rpc.Json.Value.{JsonValue, Members, Elements}
use nexus_rpc.Json.Value.{
  object, array, no_members, member, no_elements, element, Doubles, set_member,
}
use nexus_rpc.Json.Print.{print_string, serialize, serialize_members, serialize_elements}
use nexus_rpc.Json.Lexer.{Parse, ok, failed, bind, peek, advance, is_space}
use nexus_rpc.Json.Parser.{ends, more, other, parse_value, parse_members, parse_elements}
use nexus_rpc.Json.Parser.{next}
use nexus_rpc.Json.RoundTrip.Numbers.{Stops}
use nexus_rpc.Json.RoundTrip.Printable.{IsPrintable, skip_none, read_key}
use nexus_rpc.Json.RoundTrip.Printable.{value-is_space}

module _ (lib : Doubles) where
  unfoldable pub after_member : Members → Bytes → Bytes
  after_member ms rest = serialize_members lib false ms ++ (125 ∷ rest)

  unfoldable pub after_element : Elements → Bytes → Bytes
  after_element es rest = serialize_elements lib false es ++ (93 ∷ rest)

  pub after_member-Stops : (ms : Members) (rest : Bytes) → Stops (after_member ms rest)
  unfolding after_member serialize
  after_member-Stops no_members rest = record { no_digit = refl; no_fraction = refl }
  after_member-Stops (member k v ms) rest = record { no_digit = refl; no_fraction = refl }

  pub after_element-Stops : (es : Elements) (rest : Bytes) → Stops (after_element es rest)
  unfolding after_element serialize
  after_element-Stops no_elements rest = record { no_digit = refl; no_fraction = refl }
  after_element-Stops (element v es) rest = record { no_digit = refl; no_fraction = refl }

  pub after_member-is_space :
      (ms : Members) (rest : Bytes) → is_space (peek (after_member ms rest)) ≡ false
  unfolding after_member serialize
  after_member-is_space no_members rest = refl
  after_member-is_space (member k v ms) rest = refl

  pub after_element-is_space :
      (es : Elements) (rest : Bytes) → is_space (peek (after_element es rest)) ≡ false
  unfolding after_element serialize
  after_element-is_space no_elements rest = refl
  after_element-is_space (element v es) rest = refl

  pub member-flat :
      (k : Bytes) (v : JsonValue) (ms : Members) (rest : Bytes)
      → serialize_members lib true (member k v ms) ++ (125 ∷ rest)
        ≡ print_string k ++ (58 ∷ (serialize lib v ++ after_member ms rest))
  unfolding serialize after_member
  member-flat k v ms rest =
      append_assoc (print_string k) _ (125 ∷ rest)
      ∙ ap (λ t. print_string k ++ (58 ∷ t)) (append_assoc (serialize lib v) _ (125 ∷ rest))

  pub element-flat :
      (v : JsonValue) (es : Elements) (rest : Bytes)
      → serialize_elements lib true (element v es) ++ (93 ∷ rest)
        ≡ serialize lib v ++ after_element es rest
  unfolding serialize after_element
  element-flat v es rest = append_assoc (serialize lib v) _ (93 ∷ rest)

  -- What the parser does behind a member, and behind an element.
  unfoldable pub go_on : ℕ → Members → Bytes → Parse JsonValue
  go_on fuel acc at = elim (next 125 (peek at)) [
    | ends ↦ ok (object acc) (advance at)
    | more ↦ parse_members fuel lib acc (advance at)
    | other ↦ failed at expected_in_object
  ]

  unfoldable pub go_on_array : ℕ → JsonValue → Bytes → Parse Elements
  go_on_array fuel value at = elim (next 93 (peek at)) [
    | ends ↦ ok (element value no_elements) (advance at)
    | more ↦ bind (parse_elements fuel lib (advance at)) λ es rest. ok (element value es) rest
    | other ↦ failed at expected_in_array
  ]

  pub member_step :
      (fuel : ℕ) (acc : Members) (k : Bytes) (v : JsonValue) (ms : Members) (rest : Bytes)
      → IsPrintable lib v
      → parse_value fuel lib (serialize lib v ++ after_member ms rest) ≡ ok v (after_member ms rest)
      → parse_members
          (suc fuel)
          lib
          acc
          (serialize_members lib true (member k v ms) ++ (125 ∷ rest))
        ≡ go_on fuel (set_member k v acc) (after_member ms rest)
  unfolding parse_value go_on
  member_step fuel acc k v ms rest p e =
      let no_space =
        skip_none (serialize lib v ++ after_member ms rest)
          (value-is_space lib v (after_member ms rest) p) in
      let behind = skip_none (after_member ms rest) (after_member-is_space ms rest) in
      rw (member-flat k v ms rest, read_key k, no_space, e)
        (ap (go_on fuel (set_member k v acc)) behind)

  pub element_step :
      (fuel : ℕ) (v : JsonValue) (es : Elements) (rest : Bytes)
      → IsPrintable lib v
      → parse_value fuel lib (serialize lib v ++ after_element es rest)
        ≡ ok v (after_element es rest)
      → parse_elements (suc fuel) lib (serialize_elements lib true (element v es) ++ (93 ∷ rest))
        ≡ go_on_array fuel v (after_element es rest)
  unfolding parse_value go_on_array
  element_step fuel v es rest p e =
      let no_space =
        skip_none (serialize lib v ++ after_element es rest)
          (value-is_space lib v (after_element es rest) p) in
      let behind = skip_none (after_element es rest) (after_element-is_space es rest) in
      rw (element-flat v es rest, no_space, e) (ap (go_on_array fuel v) behind)

  pub length-members :
      (k : Bytes) (v : JsonValue) (ms : Members)
      → length (serialize_members lib true (member k v ms))
        ≡ length (print_string k)
          + 1
          + length (serialize lib v)
          + length (serialize_members lib false ms)
  unfolding serialize
  length-members k v ms = omega (
    arith,
    length-append (print_string k) (58 ∷ (serialize lib v ++ serialize_members lib false ms)),
    length-append (serialize lib v) (serialize_members lib false ms),
  )

  pub length-elements :
      (v : JsonValue) (es : Elements)
      → length (serialize_elements lib true (element v es))
        ≡ length (serialize lib v) + length (serialize_elements lib false es)
  unfolding serialize
  length-elements v es = length-append (serialize lib v) (serialize_elements lib false es)

  pub later_members :
      (k : Bytes) (v : JsonValue) (ms : Members)
      → length (serialize_members lib false (member k v ms))
        ≡ 1 + length (serialize_members lib true (member k v ms))
  unfolding serialize
  later_members k v ms = omega arith

  pub later_elements :
      (v : JsonValue) (es : Elements)
      → length (serialize_elements lib false (element v es))
        ≡ 1 + length (serialize_elements lib true (element v es))
  unfolding serialize
  later_elements v es = omega arith

  pub object_length :
      (ms : Members)
      → length (serialize lib (object ms)) ≡ 2 + length (serialize_members lib true ms)
  unfolding serialize
  object_length ms = omega (arith, length-append (serialize_members lib true ms) (125 ∷ []))

  pub array_length :
      (es : Elements)
      → length (serialize lib (array es)) ≡ 2 + length (serialize_elements lib true es)
  unfolding serialize
  array_length es = omega (arith, length-append (serialize_elements lib true es) (93 ∷ []))
