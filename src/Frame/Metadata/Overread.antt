-- ===== src/Frame/Metadata/Overread.antt =====
-- `decodeMetadata` compares a length with the distance to the end before it steps over the varint
-- that holds the length, so that a value may reach beyond the end.
use nexus_rpc.Common.{ℕ, suc, ◌+◌, ◌-◌, ◌≤◌, ◌<◌, ◌≡◌, refl, ap, ◌∙◌, arith, true}
use nexus_rpc.Common.{
  Bytes, [], ◌∷◌, ◌++◌, length, take, drop, append-nil, length-append, le→ltb, lt→ltb,
}
use nexus_rpc.Common.Outcome.{done, out_of_bounds, ◌>>=◌}
use nexus_rpc.Common.ByteMap.{set}
use nexus_rpc.Frame.Constants.{ok}
use nexus_rpc.Frame.Varint.RoundTrip.{decode_varint_byte}
use nexus_rpc.Frame.Metadata.{Metadata, no_entry, assign, read_field, parse_fields, parse_entry}
use nexus_rpc.Frame.Metadata.{decode_entries, decode_metadata, tag_metadata_entry, tag_entry_key}

-- An entry with the key `k` alone whose key length is one too large.
abbrev pub long_key : Bytes → Bytes
long_key k = tag_metadata_entry ∷ suc (suc (length k)) ∷ tag_entry_key ∷ suc (length k) ∷ k

take_one_more :
    (k : Bytes) (b : ℕ) (more : Bytes) → take (suc (length k)) (k ++ b ∷ more) ≡ k ++ b ∷ []
take_one_more [] b more = refl
take_one_more (x ∷ k) b more = ap (λ t. x ∷ t) (take_one_more k b more)

drop_one_more : (k : Bytes) (b : ℕ) (more : Bytes) → drop (suc (length k)) (k ++ b ∷ more) ≡ more
drop_one_more [] b more = refl
drop_one_more (x ∷ k) b more = drop_one_more k b more

module _ (k : Bytes) (short : length k < 126) where
  -- The one field of the entry, in front of the bytes `rest`.
  first_field :
      (rest : Bytes) (left : ℕ)
      → parse_fields
          (suc (suc (length k)))
          (tag_entry_key ∷ suc (length k) ∷ (k ++ rest))
          (suc (suc (length k)))
          left
          no_entry
        ≡ (read_field 1 (suc (length k)) (k ++ rest) no_entry >>= λ e.
            parse_fields
              (suc (length k))
              (drop (suc (length k)) (k ++ rest))
              (suc (length k) - (1 + suc (length k)))
              (left - (1 + 1 + suc (length k)))
              e)
  unfolding parse_fields
  first_field rest left = rw (
    decode_varint_byte (suc (length k)) (length k) (k ++ rest) (omega arith),
    le→ltb (suc (length k)) (suc (length k)) (omega arith),
  )

  whole_entry :
      (rest : Bytes) (left : ℕ)
      → suc (suc (length k)) ≤ suc left
      → parse_entry (suc (suc (length k)) ∷ tag_entry_key ∷ suc (length k) ∷ (k ++ rest)) (suc left)
        ≡ parse_fields
            (suc (suc (length k)))
            (tag_entry_key ∷ suc (length k) ∷ (k ++ rest))
            (suc (suc (length k)))
            (suc left - 1)
            no_entry
  unfolding parse_entry
  whole_entry rest left h = rw (
    decode_varint_byte (suc (suc (length k))) left (tag_entry_key ∷ suc (length k) ∷ (k ++ rest))
        (omega arith),
    le→ltb (suc left) (suc (suc (length k))) h,
  )

  entry_over :
      (b : ℕ) (more : Bytes)
      → parse_entry
          (suc (suc (length k)) ∷ tag_entry_key ∷ suc (length k) ∷ (k ++ b ∷ more))
          (suc (suc (suc (length k))))
        ≡ done (record { key = k ++ b ∷ []; value = []; has_key = true }, more, 0)
  unfolding read_field assign parse_fields
  entry_over b more =
      whole_entry (b ∷ more) (suc (suc (length k))) (omega arith)
      ∙ first_field (b ∷ more) (suc (suc (suc (length k))) - 1)
      ∙ rw
          (
            le→ltb (length (k ++ b ∷ more)) (suc (length k))
                (omega (arith, length-append k (b ∷ more))),
            take_one_more k b more,
            drop_one_more k b more,
            gone,
          )
          (ap (λ (n : ℕ). done (record { key = k ++ b ∷ []; value = []; has_key = true }, more, n))
            (omega arith))
    where
      gone : suc (length k) - (1 + suc (length k)) ≡ 0
      gone = omega arith

  entry_fault :
      parse_entry
        (suc (suc (length k)) ∷ tag_entry_key ∷ suc (length k) ∷ (k ++ []))
        (suc (suc (suc (length k))))
      ≡ out_of_bounds
  unfolding read_field
  entry_fault =
      whole_entry [] (suc (suc (length k))) (omega arith)
      ∙ first_field [] (suc (suc (suc (length k))) - 1)
      ∙ rw (lt→ltb (length (k ++ [])) (suc (length k)) (omega (arith, length-append k [])))

  -- A payload that is one entry with a key of less than 126 bytes, its length one too large, is
  -- accepted, and the key that is stored ends with the first byte behind the payload.
  pub decode_metadata_overread :
      (b : ℕ) (more : Bytes) (meta : Metadata)
      → decode_metadata (long_key k ++ b ∷ more) (length (long_key k)) meta
        ≡ done (ok, set (k ++ b ∷ []) [] meta)
  unfolding decode_metadata decode_entries
  decode_metadata_overread b more meta = rw (entry_over b more)

  -- Where no byte lies behind such a payload, the decoder reads out of bounds.
  pub decode_metadata_fault :
      (meta : Metadata) → decode_metadata (long_key k) (length (long_key k)) meta ≡ out_of_bounds
  unfolding decode_metadata decode_entries
  decode_metadata_fault meta = rw (rw append-nil at entry_fault)
