-- ===== src/Json/Termination/Parser.antt =====
-- The recursive calls of the parser come to an end.
use nexus_rpc.Common.{ℕ, zero, suc, ◌+◌, ◌*◌, ◌≤◌, ◌<◌, ◌≡◌, ◌≢◌, refl, subst, arith, ◌==◌}
use nexus_rpc.Common.{Bytes, [], ◌∷◌, length, Bool-cases, inl, inr}
use nexus_rpc.Json.Value.{
  JsonValue, Members, Doubles, string, array, no_members, element, set_member,
}
use nexus_rpc.Json.Lexer.{
  ok, out_of_fuel, bind, skip_whitespace, peek, advance, parse_bool, parse_null,
}
use nexus_rpc.Json.Lexer.{parse_string, parse_number}
use nexus_rpc.Json.Parser.{
  Start, object_start, array_start, string_start, bool_start, null_start, number_start, no_start,
  start,
}
use nexus_rpc.Json.Parser.{
  Next, ends, more, other, next, expect, parse_key, parse_value, parse_object, parse_members,
  parse_array, parse_elements, finish, parse,
}
use nexus_rpc.Json.RoundTrip.Steps.{go_on, go_on_array}
use nexus_rpc.Json.Termination.Lexer.{
  Halts, Halts-mono, Halts-bind, skip-length, advance-length, parse_string-Halts, parse_bool-Halts,
  parse_null-Halts, parse_number-Halts,
}

expect-Halts : (c : ℕ) (s : Bytes) → Halts (length s) (expect c s)
unfolding expect
expect-Halts c s = elim (Bool-cases (peek s == c)) [
  | inl e ↦ rw e (advance-length s)
  | inr e ↦ rw e tt
]

-- A token that is there takes a byte.
advance-next : (close : ℕ) (s : Bytes) → next close (peek s) ≡ more → length (advance s) < length s
advance-next close [] e = absurd (ground (arith, e))
advance-next close (c ∷ s) e = omega arith

advance-object : (s : Bytes) → start (peek s) ≡ object_start → length (advance s) < length s
advance-object [] e = absurd cc
advance-object (c ∷ s) e = omega arith

advance-array : (s : Bytes) → start (peek s) ≡ array_start → length (advance s) < length s
advance-array [] e = absurd cc
advance-array (c ∷ s) e = omega arith

parse_key-Halts : (s : Bytes) → Halts (length s) (parse_key s)
unfolding parse_key
parse_key-Halts s = elim (Bool-cases (peek (skip_whitespace s) == 34)) [
  | inr e ↦ rw e tt
  | inl e ↦ rw e (
      Halts-bind (length (skip_whitespace s)) (length s) (parse_string (skip_whitespace s))
        (λ k rest. bind (expect 58 (skip_whitespace rest)) λ _ left. ok k left)
        (parse_string-Halts (skip_whitespace s))
        λ k rest h.
          Halts-bind (length (skip_whitespace rest)) (length s) (expect 58 (skip_whitespace rest))
            (λ _ left. ok k left) (expect-Halts 58 (skip_whitespace rest))
            λ u left j. omega (arith, skip-length s, skip-length rest))
]

-- With so much fuel, the five functions come to an end.
record AllHalt (lib : Doubles) (fuel : ℕ) : Type 0 where
  value : (s : Bytes) → 3 * length s < fuel → Halts (length s) (parse_value fuel lib s)
  object : (s : Bytes) → 3 * length s + 2 < fuel → Halts (length s) (parse_object fuel lib s)
  members :
      (acc : Members) (s : Bytes)
      → 3 * length s + 1 < fuel
      → Halts (length s) (parse_members fuel lib acc s)
  array : (s : Bytes) → 3 * length s + 2 < fuel → Halts (length s) (parse_array fuel lib s)
  elements : (s : Bytes) → 3 * length s + 1 < fuel → Halts (length s) (parse_elements fuel lib s)

module _ (lib : Doubles) (fuel : ℕ) (all : AllHalt lib fuel) where
  value_step :
      (s : Bytes) (k : Start)
      → start (peek (skip_whitespace s)) ≡ k
      → 3 * length s < suc fuel
      → Halts (length s) (parse_value (suc fuel) lib s)
  unfolding parse_value
  value_step s object_start e h =
      let at = skip_whitespace s in
      let behind = skip_whitespace (advance at) in
      let shorter : length behind < length s =
        omega (arith, skip-length s, advance-object at e, skip-length (advance at)) in
      rw (parse_value, e)
        (Halts-mono (length behind) (length s) (parse_object fuel lib behind) (omega arith)
          (all.object behind (omega arith)))
  value_step s array_start e h =
      let at = skip_whitespace s in
      let behind = skip_whitespace (advance at) in
      let shorter : length behind < length s =
        omega (arith, skip-length s, advance-array at e, skip-length (advance at)) in
      rw (parse_value, e)
        (Halts-mono (length behind) (length s) (parse_array fuel lib behind) (omega arith)
          (all.array behind (omega arith)))
  value_step s string_start e h =
      rw (parse_value, e)
        (Halts-bind (length (skip_whitespace s)) (length s) (parse_string (skip_whitespace s))
          (λ text rest. ok (string text) rest) (parse_string-Halts (skip_whitespace s))
          λ text rest j. omega (arith, skip-length s))
  value_step s bool_start e h =
      rw (parse_value, e)
        (Halts-mono (length (skip_whitespace s)) (length s) (parse_bool (skip_whitespace s))
          (skip-length s) (parse_bool-Halts (skip_whitespace s)))
  value_step s null_start e h =
      rw (parse_value, e)
        (Halts-mono (length (skip_whitespace s)) (length s) (parse_null (skip_whitespace s))
          (skip-length s) (parse_null-Halts (skip_whitespace s)))
  value_step s number_start e h =
      rw (parse_value, e)
        (Halts-mono (length (skip_whitespace s)) (length s) (parse_number lib (skip_whitespace s))
          (skip-length s) (parse_number-Halts lib (skip_whitespace s)))
  value_step s no_start e h = rw (parse_value, e) tt

  object_step :
      (s : Bytes) → 3 * length s + 2 < suc fuel → Halts (length s) (parse_object (suc fuel) lib s)
  unfolding parse_value
  object_step s h = elim (Bool-cases (peek s == 125)) [
    | inl e ↦ rw (parse_object, e) (advance-length s)
    | inr e ↦ rw (parse_object, e) (all.members no_members s (omega arith))
  ]

  array_step :
      (s : Bytes) → 3 * length s + 2 < suc fuel → Halts (length s) (parse_array (suc fuel) lib s)
  unfolding parse_value
  array_step s h = elim (Bool-cases (peek s == 93)) [
    | inl e ↦ rw (parse_array, e) (advance-length s)
    | inr e ↦
        rw (parse_array, e)
          (Halts-bind (length s) (length s) (parse_elements fuel lib s)
            (λ es rest. ok (array es) rest) (all.elements s (omega arith)) λ es rest j. j)
  ]

  after_member :
      (acc : Members) (at : Bytes) (k : Next)
      → next 125 (peek at) ≡ k
      → 3 * length at < suc fuel
      → Halts (length at) (go_on lib fuel acc at)
  unfolding go_on
  after_member acc at ends e h = rw (go_on, e) (advance-length at)
  after_member acc at more e h =
      rw (go_on, e)
        (Halts-mono (length (advance at)) (length at) (parse_members fuel lib acc (advance at))
          (advance-length at) (all.members acc (advance at) (omega (arith, advance-next 125 at e))))
  after_member acc at other e h = rw (go_on, e) tt

  after_element :
      (v : JsonValue) (at : Bytes) (k : Next)
      → next 93 (peek at) ≡ k
      → 3 * length at < suc fuel
      → Halts (length at) (go_on_array lib fuel v at)
  unfolding go_on_array
  after_element v at ends e h = rw (go_on_array, e) (advance-length at)
  after_element v at more e h =
      rw (go_on_array, e)
        (Halts-bind (length (advance at)) (length at) (parse_elements fuel lib (advance at))
          (λ es rest. ok (element v es) rest)
          (all.elements (advance at) (omega (arith, advance-next 93 at e)))
          λ es rest j. omega (arith, advance-length at))
  after_element v at other e h = rw (go_on_array, e) tt

  members_step :
      (acc : Members) (s : Bytes)
      → 3 * length s + 1 < suc fuel
      → Halts (length s) (parse_members (suc fuel) lib acc s)
  unfolding parse_value go_on
  members_step acc s h =
      Halts-bind (length s) (length s) (parse_key s) _ (parse_key-Halts s) λ key rest j.
        let at = skip_whitespace rest in
        Halts-bind (length at) (length s) (parse_value fuel lib at) _
          (all.value at (omega (arith, skip-length rest)))
          λ v behind i.
            Halts-mono (length (skip_whitespace behind)) (length s)
              (go_on lib fuel (set_member key v acc) (skip_whitespace behind))
              (omega (arith, skip-length rest, skip-length behind))
              (after_member (set_member key v acc) (skip_whitespace behind)
                (next 125 (peek (skip_whitespace behind))) refl
                (omega (arith, skip-length rest, skip-length behind)))

  elements_step :
      (s : Bytes) → 3 * length s + 1 < suc fuel → Halts (length s) (parse_elements (suc fuel) lib s)
  unfolding parse_value go_on_array
  elements_step s h =
      let at = skip_whitespace s in
      Halts-bind (length at) (length s) (parse_value fuel lib at) _
        (all.value at (omega (arith, skip-length s)))
        λ v behind i.
          Halts-mono (length (skip_whitespace behind)) (length s)
            (go_on_array lib fuel v (skip_whitespace behind))
            (omega (arith, skip-length s, skip-length behind))
            (after_element v (skip_whitespace behind) (next 93 (peek (skip_whitespace behind))) refl
              (omega (arith, skip-length s, skip-length behind)))

all_halt : (lib : Doubles) (fuel : ℕ) → AllHalt lib fuel
all_halt lib zero = record {
  value = λ s h. absurd (omega arith);
  object = λ s h. absurd (omega arith);
  members = λ acc s h. absurd (omega arith);
  array = λ s h. absurd (omega arith);
  elements = λ s h. absurd (omega arith);
}
all_halt lib (suc fuel) =
    let all = all_halt lib fuel in
    record {
      value = λ s. value_step lib fuel all s (start (peek (skip_whitespace s))) refl;
      object = object_step lib fuel all;
      members = members_step lib fuel all;
      array = array_step lib fuel all;
      elements = elements_step lib fuel all;
    }

finish-Halts : (n : ℕ) (v : JsonValue) (s : Bytes) → length s ≤ n → Halts n (finish v s)
unfolding finish
finish-Halts n v [] h = h
finish-Halts n v (c ∷ s) h = tt

parse-Halts : (lib : Doubles) (text : Bytes) → Halts (length text) (parse lib text)
unfolding parse
parse-Halts lib text =
    let at = skip_whitespace text in
    elim (Bool-cases (length at == 0)) [
      | inl e ↦ rw e tt
      | inr e ↦ rw e (
          Halts-bind (length at) (length text) (parse_value (3 * length text + 1) lib at)
            (λ v rest. finish v (skip_whitespace rest))
            ((all_halt lib (3 * length text + 1)).value at (omega (arith, skip-length text)))
            λ v rest h.
              finish-Halts (length text) v (skip_whitespace rest)
                (omega (arith, skip-length rest, skip-length text)))
    ]

-- `parse` comes to an end on every text: the fuel that it starts with is never used up.
pub parse_terminates : (lib : Doubles) (text : Bytes) → parse lib text ≢ out_of_fuel
parse_terminates lib text h = subst (Halts (length text)) h (parse-Halts lib text)
