-- ===== src/Frame/Metadata.antt =====
-- The metadata map of src/rpc/frame_codec.cpp: `encodeMetadata` and `decodeMetadata`.
-- A pointer is the list of the readable bytes from it on; the distance to an end pointer is a number
-- beside it, and is 0 where the pointer has passed that end.
pub mod Wire
pub mod Size
pub mod RoundTrip
pub mod Reads
pub mod Overread
use nexus_rpc.Common.{ℕ, zero, suc, ◌+◌, ◌-◌, ◌/◌, ◌%◌, ◌^◌, bit_and, Bool, true, false, not}
use nexus_rpc.Common.{Bytes, List, [], ◌∷◌, ◌++◌, length, take, drop, Option, none, some, ltb, leb}
use nexus_rpc.Common.{◌==◌, if◌then◌else◌, ◌||◌, ◌&&◌}
use nexus_rpc.Common.Outcome.{Outcome, done, refused, out_of_bounds, out_of_fuel, on_refusal, ◌>>=◌}
use nexus_rpc.Common.ByteMap.{set}
use nexus_rpc.Frame.Constants.{ParseResult, metadata_parse_error}
use nexus_rpc.Frame.Varint.{varint_byte_size, append_varint32, decode_varint}

abbrev pub Metadata : Type 0
Metadata = List (Bytes × Bytes)

abbrev pub wire_type_len_delim : ℕ
wire_type_len_delim = 2

abbrev pub tag_metadata_entry : ℕ
tag_metadata_entry = 0x0A

abbrev pub tag_entry_key : ℕ
tag_entry_key = 0x0A

abbrev pub tag_entry_value : ℕ
tag_entry_value = 0x12

-- The buffer after one round of the loop; the lengths are cast to 32 bits.
pub append_entry : Bytes → Bytes → Bytes → Bytes
append_entry buf key value =
    let key_len = length key % 2 ^ 32 in
    let val_len = length value % 2 ^ 32 in
    let inner_size =
      (2 + varint_byte_size key_len + key_len + varint_byte_size val_len + val_len) % 2 ^ 32 in
    let wrapped = append_varint32 (buf ++ (tag_metadata_entry ∷ [])) inner_size in
    let keyed = append_varint32 (wrapped ++ (tag_entry_key ∷ [])) key_len ++ key in
    append_varint32 (keyed ++ (tag_entry_value ∷ [])) val_len ++ value

append_entries : Bytes → Metadata → Bytes
append_entries buf [] = buf
append_entries buf ((key, value) ∷ meta) = append_entries (append_entry buf key value) meta

pub encode_metadata : Metadata → Bytes
encode_metadata meta = append_entries [] meta

-- The locals of one round of `decodeMetadata`.
pub record Entry : Type 0 where
  pub key : Bytes
  pub value : Bytes
  pub has_key : Bool

abbrev pub no_entry : Entry
no_entry = record { key = []; value = []; has_key = false }

-- What a field of number `field_num` does to them.
pub assign : ℕ → Bytes → Entry → Entry
assign field_num bytes e =
    if field_num == 1
    then record e { key = bytes; has_key = true }
    else if field_num == 2
    then record e { value = bytes }
    else e

-- `key.assign(pos, n)` or `value.assign(pos, n)`, which reads `n` bytes; other fields are not read.
pub read_field : ℕ → ℕ → Bytes → Entry → Outcome Entry
read_field field_num n mem e =
    if (field_num == 1 || field_num == 2) && ltb (length mem) n
    then out_of_bounds
    else done (assign field_num (take n mem) e)

-- The fields of one entry. `entry_left` is `entry_end - pos`, `left` is `end - pos`; the result has
-- the locals, the memory from `pos` on and `end - pos`.
pub parse_fields : ℕ → Bytes → ℕ → ℕ → Entry → Outcome (Entry × Bytes × ℕ)
parse_fields fuel mem zero left e = done (e, mem, left)
parse_fields zero mem (suc entry_left) left e = out_of_fuel
parse_fields (suc fuel) [] (suc entry_left) left e = out_of_bounds
parse_fields (suc fuel) (tag ∷ mem) (suc entry_left) left e =
    let field = (do
      r ← decode_varint mem entry_left
      elim r [
        | none ↦ refused
        | some (field_len, consumed) ↦ if ltb entry_left field_len then refused else (do
          let pos = drop consumed mem
          e' ← read_field (tag / 2 ^ 3) field_len pos e
          parse_fields fuel (drop field_len pos) (entry_left - (consumed + field_len))
              (left - (1 + consumed + field_len)) e')
      ]) in
    if not (bit_and tag 0x07 == wire_type_len_delim) then refused else field

-- One entry behind its tag. Each field takes a byte at least, so `entry_len` rounds are enough.
pub parse_entry : Bytes → ℕ → Outcome (Entry × Bytes × ℕ)
parse_entry mem left = do
  r ← decode_varint mem left
  elim r [
    | none ↦ refused
    | some (entry_len, consumed) ↦
        if ltb left entry_len
        then refused
        else parse_fields entry_len (drop consumed mem) entry_len (left - consumed) no_entry
  ]

-- `decodeMetadata` writes into `meta` as it goes, also before it refuses.
pub decode_entries : ℕ → Bytes → ℕ → Metadata → Outcome (ParseResult × Metadata)
decode_entries fuel mem zero meta = done (ParseResult.ok, meta)
decode_entries zero mem (suc left) meta = out_of_fuel
decode_entries (suc fuel) [] (suc left) meta = out_of_bounds
decode_entries (suc fuel) (tag ∷ mem) (suc left) meta =
    let refusal : Outcome (ParseResult × Metadata) = done (metadata_parse_error, meta) in
    let entry = on_refusal (parse_entry mem left) refusal λ (e, mem', left').
      let next = decode_entries fuel mem' left' (set e.key e.value meta) in
      if e.has_key then next else refusal in
    if not (tag == tag_metadata_entry) then refusal else entry

-- `data` points at `mem`; `length_field` bytes of it are the payload.
pub decode_metadata : Bytes → ℕ → Metadata → Outcome (ParseResult × Metadata)
decode_metadata mem length_field meta = decode_entries length_field mem length_field meta
