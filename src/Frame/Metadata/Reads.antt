-- ===== src/Frame/Metadata/Reads.antt =====
-- What `decodeMetadata` reads and answers on any input.
use nexus_rpc.Common.{
  ℕ, zero, suc, ◌+◌, ◌-◌, ◌/◌, ◌^◌, ◌≤◌, ◌<◌, ◌≡◌, refl, subst, ◌≢◌, sym, ap, ◌∙◌, arith, bit_and,
}
use nexus_rpc.Common.{Bytes, [], ◌∷◌, length, drop, drop-drop, length-drop, Bool, true, false}
use nexus_rpc.Common.{◌⊎◌, inl, inr, ◌==◌, ◌&&◌, ◌||◌, not, ltb, none, some}
use nexus_rpc.Common.Outcome.{done, Ensures, Ensures-if, Ensures-bind}
use nexus_rpc.Common.Outcome.{Ensures-mono, Ends, Ends-if, Ends-on_refusal, Ends-done}
use nexus_rpc.Common.Outcome.{Ends-ne-out_of_fuel, Ends-value, out_of_fuel}
use nexus_rpc.Common.ByteMap.{set}
use nexus_rpc.Frame.Constants.{ParseResult, ok, metadata_parse_error}
use nexus_rpc.Frame.Varint.{decode_varint}
use nexus_rpc.Frame.Varint.Reads.{Room, Room-tail, IsDecoded, decode_varint-Ensures}
use nexus_rpc.Frame.Metadata.{Metadata, Entry, no_entry, read_field, parse_fields}
use nexus_rpc.Frame.Metadata.{parse_entry, decode_entries, decode_metadata}

-- Where a part of the decoder leaves the pointer: `c` bytes on.
abbrev Lands : Bytes → ℕ → Entry × Bytes × ℕ → Type 0
Lands mem left (e, mem', left') = (c : ℕ) × (mem' ≡ drop c mem) × (left' ≡ left - c)

Room-weaken :
    (faults : Bool) (n m : ℕ) (mem : Bytes) → n ≤ m → Room faults m mem → Room faults n mem
Room-weaken true n m mem le h = tt
Room-weaken false n m mem le h = omega arith

Room-drop :
    (faults : Bool) (n m c : ℕ) (mem : Bytes)
    → n + c ≤ m
    → Room faults m mem
    → Room faults n (drop c mem)
Room-drop true n m c mem le h = tt
Room-drop false n m c mem le h = omega (arith, length-drop c mem)

read_field-Ensures :
    (faults : Bool) (f n : ℕ) (mem : Bytes) (e : Entry)
    → Room faults n mem
    → Ensures faults (λ _. Unit) (read_field f n mem e)
unfolding read_field
read_field-Ensures true f n mem e h =
    Ensures-if true (λ _. Unit) ((f == 1 || f == 2) && ltb (length mem) n) _ _ (λ _. tt) (λ _. tt)
read_field-Ensures false f n mem e h =
    Ensures-if false (λ _. Unit) ((f == 1 || f == 2) && ltb (length mem) n) _ _
      (λ short. ground arith) (λ _. tt)

Lands-shift :
    (n c tag : ℕ) (mem : Bytes) (left : ℕ) (r : Entry × Bytes × ℕ)
    → Lands (drop n (drop c mem)) (left - (1 + c + n)) r
    → Lands (tag ∷ mem) left r
Lands-shift n c tag mem left (e, mem', left') (k, em, el) =
    (suc (c + n + k), em ∙ ap (drop k) (drop-drop n c mem) ∙ drop-drop k (c + n) mem, omega arith)

parse_fields-Ensures :
    (faults : Bool) (fuel : ℕ) (mem : Bytes) (entry_left left : ℕ) (e : Entry)
    → entry_left ≤ fuel
    → (0 < entry_left → Room faults (entry_left + 10) mem)
    → Ensures faults (Lands mem left) (parse_fields fuel mem entry_left left e)
unfolding parse_fields
parse_fields-Ensures faults fuel mem zero left e hf h = (0, refl, omega arith)
parse_fields-Ensures faults zero mem (suc entry_left) left e hf h = absurd (omega arith)
parse_fields-Ensures true (suc fuel) [] (suc entry_left) left e hf h = tt
parse_fields-Ensures false (suc fuel) [] (suc entry_left) left e hf h =
    let room : suc entry_left + 10 ≤ 0 = h (omega arith) in absurd (omega arith)
parse_fields-Ensures faults (suc fuel) (tag ∷ mem) (suc entry_left) left e hf h =
    let room : Room faults (entry_left + 10) mem = Room-tail faults (entry_left + 10) tag mem (
      Room-weaken faults (suc (entry_left + 10)) (suc entry_left + 10) (tag ∷ mem) (omega arith)
        (h (omega arith))) in
    Ensures-if faults (Lands (tag ∷ mem) left) (not (bit_and tag 0x07 == 2)) _ _ (λ _. tt)
      (λ _.
        Ensures-bind faults (IsDecoded entry_left) (Lands (tag ∷ mem) left)
          (decode_varint mem entry_left) _
          (decode_varint-Ensures faults mem entry_left
            (Room-weaken faults entry_left (entry_left + 10) mem (omega arith) room))
          (elim [
            | none ↦ λ _. tt
            | some (n, c) ↦ λ d.
                Ensures-if faults (Lands (tag ∷ mem) left) (ltb entry_left n) _ _ (λ _. tt)
                  (λ fits.
                    let n_fits : n ≤ entry_left = ground arith in
                    Ensures-bind faults (λ _. Unit) (Lands (tag ∷ mem) left)
                      (read_field (tag / 2 ^ 3) n (drop c mem) e) _
                      (read_field-Ensures faults (tag / 2 ^ 3) n (drop c mem) e
                        (Room-drop faults n (entry_left + 10) c mem (omega arith) room))
                      (λ e' _.
                        Ensures-mono faults (Lands (drop n (drop c mem)) (left - (1 + c + n)))
                          (Lands (tag ∷ mem) left) _ (Lands-shift n c tag mem left)
                          (parse_fields-Ensures faults fuel (drop n (drop c mem))
                            (entry_left - (c + n)) (left - (1 + c + n)) e' (omega arith)
                            (λ more.
                              Room-drop faults _ (entry_left + 10 - c) n (drop c mem) (omega arith)
                                (Room-drop faults _ (entry_left + 10) c mem (omega arith) room)))))
          ]))

Lands-later :
    (c : ℕ) (mem : Bytes) (left : ℕ) (r : Entry × Bytes × ℕ)
    → Lands (drop c mem) (left - c) r
    → Lands mem left r
Lands-later c mem left (e, mem', left') (k, em, el) = (c + k, em ∙ drop-drop k c mem, omega arith)

parse_entry-Ensures :
    (faults : Bool) (mem : Bytes) (left : ℕ)
    → Room faults (left + 20) mem
    → Ensures faults (Lands mem left) (parse_entry mem left)
unfolding parse_entry
parse_entry-Ensures faults mem left room =
    Ensures-bind faults (IsDecoded left) (Lands mem left) (decode_varint mem left) _
      (decode_varint-Ensures faults mem left
        (Room-weaken faults left (left + 20) mem (omega arith) room))
      (elim [
        | none ↦ λ _. tt
        | some (n, c) ↦ λ d.
            Ensures-if faults (Lands mem left) (ltb left n) _ _ (λ _. tt)
              (λ fits.
                let n_fits : n ≤ left = ground arith in
                Ensures-mono faults (Lands (drop c mem) (left - c)) (Lands mem left) _
                  (λ r l. Lands-later c mem left r l)
                  (parse_fields-Ensures faults n (drop c mem) n (left - c) no_entry (omega arith)
                    (λ _. Room-drop faults (n + 10) (left + 20) c mem (omega arith) room)))
      ])

-- `decodeMetadata` answers one of two results.
abbrev pub IsAnswer : ParseResult × Metadata → Type 0
IsAnswer (r, m) = (r ≡ ok) ⊎ (r ≡ metadata_parse_error)

decode_entries-Ends :
    (faults : Bool) (fuel : ℕ) (mem : Bytes) (left : ℕ) (meta : Metadata)
    → left ≤ fuel
    → (0 < left → Room faults (left + 20) mem)
    → Ends faults IsAnswer (decode_entries fuel mem left meta)
unfolding decode_entries
decode_entries-Ends faults fuel mem zero meta hf h = inl refl
decode_entries-Ends faults zero mem (suc left) meta hf h = absurd (omega arith)
decode_entries-Ends true (suc fuel) [] (suc left) meta hf h = tt
decode_entries-Ends false (suc fuel) [] (suc left) meta hf h =
    let room : suc left + 20 ≤ 0 = h (omega arith) in absurd (omega arith)
decode_entries-Ends faults (suc fuel) (tag ∷ mem) (suc left) meta hf h =
    let room : Room faults (left + 20) mem = Room-tail faults (left + 20) tag mem (
      Room-weaken faults (suc (left + 20)) (suc left + 20) (tag ∷ mem) (omega arith)
        (h (omega arith))) in
    Ends-if faults IsAnswer (not (tag == 0x0A)) _ _ (λ _. inr refl)
      (λ _.
        Ends-on_refusal faults (Lands mem left) IsAnswer (parse_entry mem left) _ _
          (parse_entry-Ensures faults mem left room) (inr refl)
          (λ (e, mem', left') (c, em, el).
            Ends-if faults IsAnswer e.has_key _ _
              (λ _.
                decode_entries-Ends faults fuel mem' left' (set e.key e.value meta) (omega arith)
                  (λ more.
                    subst (Room faults (left' + 20)) (sym em)
                      (Room-drop faults (left' + 20) (left + 20) c mem (omega arith) room)))
              (λ _. inr refl)))

module _ (mem : Bytes) (length_field : ℕ) (meta : Metadata) where
  -- Where at least 20 bytes behind the payload are readable, the decoder reads no further than the
  -- readable bytes: it ends, and answers `kOk` or `kMetadataParseError`.
  pub decode_metadata_total :
      length_field + 20 ≤ length mem
      → (a : ParseResult × Metadata) × (decode_metadata mem length_field meta ≡ done a) × IsAnswer a
  unfolding decode_metadata
  decode_metadata_total h =
      Ends-done IsAnswer _
        (decode_entries-Ends false length_field mem length_field meta (omega arith) (λ _. h))

  answers : Ends true IsAnswer (decode_metadata mem length_field meta)
  unfolding decode_metadata
  answers = decode_entries-Ends true length_field mem length_field meta (omega arith) (λ _. tt)

  -- The fuel of the decoder's loops, the length of the payload, is enough on every input.
  pub decode_metadata-ne-out_of_fuel : decode_metadata mem length_field meta ≢ out_of_fuel
  decode_metadata-ne-out_of_fuel = Ends-ne-out_of_fuel true IsAnswer _ answers

  pub decode_metadata-IsAnswer :
      {a : ParseResult × Metadata} → decode_metadata mem length_field meta ≡ done a → IsAnswer a
  decode_metadata-IsAnswer e = Ends-value true IsAnswer _ answers e
