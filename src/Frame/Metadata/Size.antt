-- ===== src/Frame/Metadata/Size.antt =====
-- The length of an encoding bounds the lengths of the strings in it.
use nexus_rpc.Common.{ℕ, ◌+◌, ◌%◌, ◌^◌, ◌≤◌, ◌<◌, ◌≡◌, refl, arith}
use nexus_rpc.Common.{Bytes, [], ◌∷◌, ◌++◌, length, length-append}
use nexus_rpc.Frame.Varint.{varint_byte_size, append_varint32}
use nexus_rpc.Frame.Varint.Groups.{groups, append_varint32-groups, varint_byte_size-le}
use nexus_rpc.Frame.Metadata.{Metadata, tag_metadata_entry, tag_entry_key, tag_entry_value}
use nexus_rpc.Frame.Metadata.{append_entry, append_entries, encode_metadata}
use nexus_rpc.Frame.Metadata.Wire.{field, entry, Fits, length-field}

-- An encoding is no shorter than its strings, so that a short one has entries that fit.
push_le :
    (buf : Bytes) (tag v : ℕ)
    → v < 2 ^ 32
    → length buf + 1 ≤ length (append_varint32 (buf ++ (tag ∷ [])) v)
push_le buf tag v h =
    rw (append_varint32-groups (buf ++ (tag ∷ [])) v h)
      (omega (arith, length-append (buf ++ (tag ∷ [])) (groups 4 v), length-append buf (tag ∷ [])))

append_entry-le :
    (buf key value : Bytes)
    → length buf + 1 + length key + length value ≤ length (append_entry buf key value)
unfolding append_entry
append_entry-le buf key value =
    let key_len = length key % 2 ^ 32 in
    let val_len = length value % 2 ^ 32 in
    let inner_size =
      (2 + varint_byte_size key_len + key_len + varint_byte_size val_len + val_len) % 2 ^ 32 in
    let wrapped = append_varint32 (buf ++ (tag_metadata_entry ∷ [])) inner_size in
    let keyed = append_varint32 (wrapped ++ (tag_entry_key ∷ [])) key_len in
    omega (
      arith,
      push_le buf tag_metadata_entry inner_size (omega arith),
      push_le wrapped tag_entry_key key_len (omega arith),
      length-append keyed key,
      push_le (keyed ++ key) tag_entry_value val_len (omega arith),
      length-append (append_varint32 (keyed ++ key ++ (tag_entry_value ∷ [])) val_len) value,
    )

append_entries-le : (buf : Bytes) (meta : Metadata) → length buf ≤ length (append_entries buf meta)
unfolding append_entries
append_entries-le buf [] = omega arith
append_entries-le buf ((key, value) ∷ meta) =
    omega
      (arith, append_entry-le buf key value, append_entries-le (append_entry buf key value) meta)

short_entry :
    (key value : Bytes) → length key + length value < 2 ^ 31 → length (entry key value) < 2 ^ 32
unfolding entry
short_entry key value h = omega (
  arith,
  length-append (field tag_entry_key key) (field tag_entry_value value),
  length-field tag_entry_key key (omega arith),
  length-field tag_entry_value value (omega arith),
  varint_byte_size-le (length key),
  varint_byte_size-le (length value),
)

short_entries :
    (buf : Bytes) (meta : Metadata) → length (append_entries buf meta) < 2 ^ 31 → Fits meta
unfolding append_entries
short_entries buf [] h = tt
short_entries buf ((key, value) ∷ meta) h = (
  short_entry key value (
      omega (
        arith,
        append_entry-le buf key value,
        append_entries-le (append_entry buf key value) meta,
      )),
  short_entries (append_entry buf key value) meta h,
)

pub Fits-of_length : (meta : Metadata) → length (encode_metadata meta) < 2 ^ 31 → Fits meta
unfolding encode_metadata
Fits-of_length meta h = short_entries [] meta h

pub empty_of_length : (meta : Metadata) → length (encode_metadata meta) ≡ 0 → meta ≡ []
unfolding encode_metadata append_entries
empty_of_length [] h = refl
empty_of_length ((key, value) ∷ meta) h = absurd (
    omega (arith, append_entry-le [] key value, append_entries-le (append_entry [] key value) meta))
