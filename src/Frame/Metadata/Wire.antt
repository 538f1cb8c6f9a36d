-- ===== src/Frame/Metadata/Wire.antt =====
-- What `encodeMetadata` writes: for each entry a length-delimited field that holds two such fields.
use nexus_rpc.Common.{ℕ, ◌+◌, ◌^◌, ◌≤◌, ◌<◌, ◌≡◌, sym, ◌∙◌, arith}
use nexus_rpc.Common.{Bytes, [], ◌∷◌, ◌++◌, length, append_assoc, length-append, append-nil}
use nexus_rpc.Frame.Varint.{varint_byte_size, append_varint32}
use nexus_rpc.Frame.Varint.Groups.{groups, append_varint32-groups, length-groups}
use nexus_rpc.Frame.Metadata.{Metadata, tag_metadata_entry, tag_entry_key, tag_entry_value}
use nexus_rpc.Frame.Metadata.{append_entry, append_entries, encode_metadata}
use native.Mathlib.Nat.{mod-eq_of_lt}

-- A length-delimited field.
unfoldable pub field : ℕ → Bytes → Bytes
field tag x = tag ∷ groups 4 (length x) ++ x

unfoldable pub entry : Bytes → Bytes → Bytes
entry key value = field tag_entry_key key ++ field tag_entry_value value

-- The size of an entry is a 32-bit number, as `encodeMetadata` computes it.
abbrev pub Fits : Metadata → Type 0
Fits [] = Unit
Fits ((key, value) ∷ meta) = (length (entry key value) < 2 ^ 32) × Fits meta

unfoldable pub wire : Metadata → Bytes
wire [] = []
wire ((key, value) ∷ meta) = field tag_metadata_entry (entry key value) ++ wire meta

module _ (tag : ℕ) (x : Bytes) (h : length x < 2 ^ 32) where
  pub length-field : length (field tag x) ≡ 1 + varint_byte_size (length x) + length x
  unfolding field
  length-field = omega (arith, length-append (groups 4 (length x)) x, length-groups (length x) h)

  append-field :
      (buf : Bytes) → append_varint32 (buf ++ (tag ∷ [])) (length x) ++ x ≡ buf ++ field tag x
  unfolding field
  append-field buf =
      rw (append_varint32-groups (buf ++ (tag ∷ [])) (length x) h) (simp append_assoc)

pub length-field-le : (tag : ℕ) (x : Bytes) → length x ≤ length (field tag x)
unfolding field
length-field-le tag x = omega (arith, length-append (groups 4 (length x)) x)

pub parts_fit :
    (key value : Bytes)
    → length (entry key value) < 2 ^ 32
    → (length key < 2 ^ 32) × (length value < 2 ^ 32)
unfolding entry
parts_fit key value h = omega (
  arith,
  length-append (field tag_entry_key key) (field tag_entry_value value),
  length-field-le tag_entry_key key,
  length-field-le tag_entry_value value,
)

pub length-entry :
    (key value : Bytes)
    → length (entry key value) < 2 ^ 32
    → 2
        + varint_byte_size (length key)
        + length key
        + varint_byte_size (length value)
        + length value
      ≡ length (entry key value)
unfolding entry
length-entry key value h =
    let (hk, hv) = parts_fit key value h in
    omega (
      arith,
      length-append (field tag_entry_key key) (field tag_entry_value value),
      length-field tag_entry_key key hk,
      length-field tag_entry_value value hv,
    )

append_entry-wire :
    (buf key value : Bytes)
    → length (entry key value) < 2 ^ 32
    → append_entry buf key value ≡ buf ++ field tag_metadata_entry (entry key value)
unfolding append_entry entry
append_entry-wire buf key value h =
    let (hk, hv) = parts_fit key value h in
    let wrapped = append_varint32 (buf ++ (tag_metadata_entry ∷ [])) (length (entry key value)) in
    rw (
      mod-eq_of_lt hk,
      mod-eq_of_lt hv,
      length-entry key value h,
      mod-eq_of_lt h,
      append-field tag_entry_key key hk wrapped,
      append-field tag_entry_value value hv (wrapped ++ field tag_entry_key key),
      append_assoc wrapped (field tag_entry_key key) (field tag_entry_value value),
      append-field tag_metadata_entry (entry key value) h buf,
    )

append_entries-wire :
    (buf : Bytes) (meta : Metadata) → Fits meta → append_entries buf meta ≡ buf ++ wire meta
unfolding append_entries wire
append_entries-wire buf [] f = sym (append-nil buf)
append_entries-wire buf ((key, value) ∷ meta) (h, f) =
    append_entries-wire (append_entry buf key value) meta f
    ∙ rw (append_entry-wire buf key value h) (append_assoc buf _ (wire meta))

pub encode_metadata-wire : (meta : Metadata) → Fits meta → encode_metadata meta ≡ wire meta
unfolding encode_metadata
encode_metadata-wire meta f = append_entries-wire [] meta f
