-- ===== src/Json/Parser.antt =====
-- The recursive-descent parser `JsonParserImpl` of src/mcp/json_rpc.cpp.
-- What a call leaves of the input is no structural part of it, so each call takes a unit of fuel.
use nexus_rpc.Common.{ℕ, zero, suc, ◌+◌, ◌*◌, true, false, ◌||◌, if◌then◌else◌, ◌==◌}
use nexus_rpc.Common.{Bytes, [], ◌∷◌, ◌++◌, length}
use nexus_rpc.Json.Strings.{
  unexpected_character, expected_character, expected_key, expected_in_object,
}
use nexus_rpc.Json.Strings.{expected_in_array, unexpected_end, trailing_characters}
use nexus_rpc.Json.Value.{JsonValue, Members, Elements, string, object, array, no_members}
use nexus_rpc.Json.Value.{no_elements, element, Doubles, set_member}
use nexus_rpc.Json.Lexer.{Parse, ok, failed, out_of_fuel, bind, skip_whitespace, peek, advance}
use nexus_rpc.Json.Lexer.{parse_string, parse_number, parse_bool, parse_null}
use nexus_rpc.Rpc.Decimal.{is_digit}

-- The cases of the `switch` in `parseValue`.
pub data Start : Type 0 where
  object_start array_start string_start bool_start null_start number_start no_start : Start

abbrev pub start : ℕ → Start
start c =
    if c == 123
    then object_start
    else if c == 91
    then array_start
    else if c == 34
    then string_start
    else if c == 116 || c == 102
    then bool_start
    else if c == 110
    then null_start
    else if c == 45 || is_digit c
    then number_start
    else no_start

-- What stands behind a member or an element: the end, a comma, or something else.
pub data Next : Type 0 where
  ends more other : Next

abbrev pub next : ℕ → ℕ → Next
next close c = if c == close then ends else if c == 44 then more else other

-- `expect`.
unfoldable pub expect : ℕ → Bytes → Parse (Unit {0})
expect c s =
    if peek s == c then ok tt (advance s) else failed s (expected_character ++ (c ∷ 39 ∷ []))

-- The key of a member with the colon behind it.
unfoldable pub parse_key : Bytes → Parse Bytes
parse_key s =
    let at = skip_whitespace s in
    let key =
      bind (parse_string at)
        λ k rest. bind (expect 58 (skip_whitespace rest)) λ _ left. ok k left in
    if peek at == 34 then key else failed at expected_key

unfoldable mutual
  pub parse_value : ℕ → Doubles → Bytes → Parse JsonValue
  parse_value zero lib s = out_of_fuel
  parse_value (suc fuel) lib s =
      let at = skip_whitespace s in
      elim (start (peek at)) [
        | object_start ↦ parse_object fuel lib (skip_whitespace (advance at))
        | array_start ↦ parse_array fuel lib (skip_whitespace (advance at))
        | string_start ↦ bind (parse_string at) λ text rest. ok (string text) rest
        | bool_start ↦ parse_bool at
        | null_start ↦ parse_null at
        | number_start ↦ parse_number lib at
        | no_start ↦ failed at (unexpected_character ++ (peek at ∷ 39 ∷ []))
      ]

  -- `parseObject` and `parseArray` behind the bracket and white space.
  pub parse_object : ℕ → Doubles → Bytes → Parse JsonValue
  parse_object zero lib s = out_of_fuel
  parse_object (suc fuel) lib s = elim (peek s == 125) [
    | true ↦ ok (object no_members) (advance s)
    | false ↦ parse_members fuel lib no_members s
  ]

  pub parse_members : ℕ → Doubles → Members → Bytes → Parse JsonValue
  parse_members zero lib acc s = out_of_fuel
  parse_members (suc fuel) lib acc s = bind (parse_key s) λ key rest.
      bind (parse_value fuel lib (skip_whitespace rest)) λ value behind.
        let at = skip_whitespace behind in
        let acc' = set_member key value acc in
        elim (next 125 (peek at)) [
          | ends ↦ ok (object acc') (advance at)
          | more ↦ parse_members fuel lib acc' (advance at)
          | other ↦ failed at expected_in_object
        ]

  pub parse_array : ℕ → Doubles → Bytes → Parse JsonValue
  parse_array zero lib s = out_of_fuel
  parse_array (suc fuel) lib s = elim (peek s == 93) [
    | true ↦ ok (array no_elements) (advance s)
    | false ↦ bind (parse_elements fuel lib s) λ es rest. ok (array es) rest
  ]

  pub parse_elements : ℕ → Doubles → Bytes → Parse Elements
  parse_elements zero lib s = out_of_fuel
  parse_elements (suc fuel) lib s = bind (parse_value fuel lib (skip_whitespace s)) λ value behind.
      let at = skip_whitespace behind in
      elim (next 93 (peek at)) [
        | ends ↦ ok (element value no_elements) (advance at)
        | more ↦ bind (parse_elements fuel lib (advance at)) λ es rest. ok (element value es) rest
        | other ↦ failed at expected_in_array
      ]

-- The test at the end of `parse`.
unfoldable pub finish : JsonValue → Bytes → Parse JsonValue
finish value [] = ok value []
finish value (c ∷ s) = failed (c ∷ s) trailing_characters

-- `parse`, with fuel that is enough for any text of that length.
unfoldable pub parse : Doubles → Bytes → Parse JsonValue
parse lib text =
    let at = skip_whitespace text in
    let value =
      bind (parse_value (3 * length text + 1) lib at) λ v rest. finish v (skip_whitespace rest) in
    if length at == 0 then failed at unexpected_end else value
