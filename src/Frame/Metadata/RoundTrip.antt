-- ===== src/Frame/Metadata/RoundTrip.antt =====
-- `decodeMetadata` reads back what `encodeMetadata` wrote.
use nexus_rpc.Common.{
  ℕ, zero, suc, ◌+◌, ◌-◌, ◌/◌, ◌^◌, ◌≤◌, ◌<◌, ◌≡◌, refl, ap, ◌∙◌, arith, bit_and,
}
use nexus_rpc.Common.{Bytes, [], ◌∷◌, ◌++◌, length, drop, append_assoc, length-append}
use nexus_rpc.Common.{take-append_left, drop-append_left, le→ltb, true}
use nexus_rpc.Common.Outcome.{done}
use nexus_rpc.Common.ByteMap.{set, set_all, IsSorted, set_all_sorted}
use nexus_rpc.Frame.Constants.{ok}
use nexus_rpc.Frame.Varint.{varint_byte_size}
use nexus_rpc.Frame.Varint.Groups.{groups, length-groups}
use nexus_rpc.Frame.Varint.RoundTrip.{decode_varint-groups}
use nexus_rpc.Frame.Metadata.{Metadata, Entry, no_entry, assign, read_field, parse_fields}
use nexus_rpc.Frame.Metadata.{parse_entry, decode_entries, decode_metadata, encode_metadata}
use nexus_rpc.Frame.Metadata.{tag_metadata_entry, tag_entry_key, tag_entry_value}
use nexus_rpc.Frame.Metadata.Wire.{field, entry, Fits, wire, length-field, parts_fit}
use nexus_rpc.Frame.Metadata.Wire.{length-entry, encode_metadata-wire}

read_field_here :
    (f : ℕ) (x rest : Bytes) (e : Entry)
    → read_field f (length x) (x ++ rest) e ≡ done (assign f x e)
unfolding read_field
read_field_here f x rest e =
    rw
      (
        le→ltb (length (x ++ rest)) (length x) (omega (arith, length-append x rest)),
        take-append_left x rest,
      )
      (ground arith)

module _ (tag : ℕ) (x rest : Bytes) (len_delim : bit_and tag 0x07 ≡ 2) (h : length x < 2 ^ 32) where
  abbrev size : ℕ
  size = varint_byte_size (length x)

  skip_length : drop size (groups 4 (length x) ++ (x ++ rest)) ≡ x ++ rest
  skip_length =
      rw (← length-groups (length x) h) (drop-append_left (groups 4 (length x)) (x ++ rest))

  -- A field is taken whole, and its value assigned.
  parse_fields-field :
      (fuel n more left : ℕ) (e : Entry)
      → n ≡ size + length x + more
      → parse_fields (suc fuel) (field tag x ++ rest) (suc n) left e
        ≡ parse_fields fuel rest more (left - (1 + size + length x)) (assign (tag / 2 ^ 3) x e)
  unfolding parse_fields field
  parse_fields-field fuel n more left e en =
      rw
        (
          len_delim,
          append_assoc (groups 4 (length x)) x rest,
          decode_varint-groups (length x) n (x ++ rest) h (omega arith),
          le→ltb n (length x) (omega arith),
          append_assoc (groups 4 (length x)) x rest,
          skip_length,
          read_field_here,
          drop-append_left x rest,
        )
        (ap
          (λ k. parse_fields fuel rest k (left - (1 + size + length x)) (assign (tag / 2 ^ 3) x e))
          (omega arith))

module _ (key value rest : Bytes) (h : length (entry key value) < 2 ^ 32) where
  abbrev read_entry : Entry
  read_entry = record { key = key; value = value; has_key = true }

  parse_fields-entry :
      (fuel n left : ℕ)
      → 2 ≤ fuel
      → n ≡ length (entry key value)
      → parse_fields fuel (entry key value ++ rest) n left no_entry
        ≡ done (read_entry, rest, left - n)
  unfolding entry assign parse_fields
  parse_fields-entry zero n left hf en = absurd (omega arith)
  parse_fields-entry (suc zero) n left hf en = absurd (omega arith)
  parse_fields-entry (suc (suc fuel)) zero left hf en =
      absurd (omega (arith, length-entry key value h))
  parse_fields-entry (suc (suc fuel)) (suc n) left hf en =
      let (hk, hv) = parts_fit key value h in
      let vl = varint_byte_size (length value) + length value in
      rw (append_assoc (field tag_entry_key key) (field tag_entry_value value) rest) (
        parse_fields-field tag_entry_key key (field tag_entry_value value ++ rest) refl hk
          (suc fuel) n (suc vl) left no_entry (omega (arith, length-entry key value h))
        ∙ parse_fields-field tag_entry_value value rest refl hv fuel vl 0 _ _ (omega arith)
        ∙ ap (λ (k : ℕ). done (read_entry, rest, k)) (omega (arith, length-entry key value h)))

  -- The length before the entry is read, and the fields behind it.
  parse_entry-entry :
      (left : ℕ)
      → varint_byte_size (length (entry key value)) + length (entry key value) ≤ left
      → parse_entry (groups 4 (length (entry key value)) ++ (entry key value ++ rest)) left
        ≡ done (
          read_entry,
          rest,
          left - (varint_byte_size (length (entry key value)) + length (entry key value)),
        )
  unfolding parse_entry
  parse_entry-entry left fits =
      let l = length (entry key value) in
      let two : 2 ≤ l = omega (arith, length-entry key value h) in
      rw
        (
          decode_varint-groups l left (entry key value ++ rest) h (omega arith),
          le→ltb left l (omega arith),
          ← length-groups l h,
          drop-append_left (groups 4 l) (entry key value ++ rest),
          parse_fields-entry l l _ two refl,
        )
        (ap (λ (k : ℕ). done (read_entry, rest, k)) (omega (arith, length-groups l h)))

length-wire :
    (key value : Bytes) (meta : Metadata)
    → length (entry key value) < 2 ^ 32
    → length (wire ((key, value) ∷ meta))
      ≡ 1
        + varint_byte_size (length (entry key value))
        + length (entry key value)
        + length (wire meta)
unfolding wire
length-wire key value meta h = omega (
  arith,
  length-append (field tag_metadata_entry (entry key value)) (wire meta),
  length-field tag_metadata_entry (entry key value) h,
)

-- What is decoded from an encoding, with the entries that were in the map before.
decode_entries-wire :
    (meta : Metadata) (fuel left : ℕ) (rest : Bytes) (acc : Metadata)
    → Fits meta
    → left ≡ length (wire meta)
    → left ≤ fuel
    → decode_entries fuel (wire meta ++ rest) left acc ≡ done (ok, set_all acc meta)
unfolding decode_entries wire field
decode_entries-wire [] fuel zero rest acc f el hf = refl
decode_entries-wire [] fuel (suc left) rest acc f el hf = absurd (omega arith)
decode_entries-wire ((key, value) ∷ meta) zero left rest acc (h, f) el hf =
    absurd (omega (arith, length-wire key value meta h))
decode_entries-wire ((key, value) ∷ meta) (suc fuel) zero rest acc (h, f) el hf =
    absurd (omega (arith, length-wire key value meta h))
decode_entries-wire ((key, value) ∷ meta) (suc fuel) (suc left) rest acc (h, f) el hf =
    let e = entry key value in
    let count = groups 4 (length e) in
    rw
      (
        append_assoc (count ++ e) (wire meta) rest,
        append_assoc count e (wire meta ++ rest),
        parse_entry-entry key value (wire meta ++ rest) h left
            (omega (arith, length-wire key value meta h)),
      )
      (decode_entries-wire meta fuel (left - (varint_byte_size (length e) + length e)) rest
        (set key value acc) f (omega (arith, length-wire key value meta h)) (omega arith))

-- Decoding an encoding whose entries fit 32-bit lengths succeeds, whatever bytes follow it: it
-- writes the entries into the map in order, and reads no further than the length that it is given.
pub decode_metadata-encode_metadata :
    (meta acc : Metadata) (rest : Bytes)
    → Fits meta
    → decode_metadata (encode_metadata meta ++ rest) (length (encode_metadata meta)) acc
      ≡ done (ok, set_all acc meta)
unfolding decode_metadata
decode_metadata-encode_metadata meta acc rest f =
    rw (encode_metadata-wire meta f)
      (decode_entries-wire meta _ (length (wire meta)) rest acc f refl (omega arith))

-- An encoded map in the order of its keys, whose entries fit 32-bit lengths, is the map again when it
-- is decoded into an empty map, whatever bytes follow it.
pub decode_metadata_inverse :
    (meta : Metadata) (rest : Bytes)
    → IsSorted meta
    → Fits meta
    → decode_metadata (encode_metadata meta ++ rest) (length (encode_metadata meta)) []
      ≡ done (ok, meta)
decode_metadata_inverse meta rest s f =
    decode_metadata-encode_metadata meta [] rest f ∙ rw (set_all_sorted meta s)
