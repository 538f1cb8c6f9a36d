-- ===== src/Frame/Header/Prefix.antt =====
-- `decodeHeader` reads the first 32 bytes alone, and no answer of it asks for more.
use nexus_rpc.Common.{ℕ, ◌+◌, ◌≤◌, ◌≡◌, ◌≢◌, arith, Bytes, ◌++◌, length, drop}
use nexus_rpc.Common.{get_or-append_left, drop-append_le, length-drop}
use nexus_rpc.Frame.Constants.{RpcFrameHeader, need_more_data}
use nexus_rpc.Frame.BigEndian.{read_u32_be, read_u64_be, read_u32_be-append, read_u64_be-append}
use nexus_rpc.Frame.Header.{read_header, decode_header, validate_header, validate_common}
use nexus_rpc.Frame.Header.{validate_lengths}

module _ (xs ys : Bytes) (h : 32 ≤ length xs) where
  word : (k : ℕ) → k + 4 ≤ 32 → read_u32_be (drop k (xs ++ ys)) ≡ read_u32_be (drop k xs)
  word k hk =
      rw (drop-append_le k xs ys (omega arith))
        (read_u32_be-append (drop k xs) ys (omega (arith, length-drop k xs)))

  long_word : read_u64_be (drop 12 (xs ++ ys)) ≡ read_u64_be (drop 12 xs)
  long_word =
      rw (drop-append_le 12 xs ys (omega arith))
        (read_u64_be-append (drop 12 xs) ys (omega (arith, length-drop 12 xs)))

  read_header-append : read_header (xs ++ ys) ≡ read_header xs
  unfolding read_header
  read_header-append = λ i. record {
    magic = word 0 (omega arith) i;
    version = get_or-append_left xs ys 4 0 (omega arith) i;
    msg_type = get_or-append_left xs ys 5 0 (omega arith) i;
    compress_type = get_or-append_left xs ys 6 0 (omega arith) i;
    serialize_type = get_or-append_left xs ys 7 0 (omega arith) i;
    total_length = word 8 (omega arith) i;
    request_id = long_word i;
    meta_length = word 20 (omega arith) i;
    body_length = word 24 (omega arith) i;
    reserved = word 28 (omega arith) i;
  }

  pub decode_header-append : decode_header (xs ++ ys) ≡ decode_header xs
  unfolding decode_header
  decode_header-append = rw read_header-append

pub validate_header-ne-need_more_data : (h : RpcFrameHeader) → validate_header h ≢ need_more_data
unfolding validate_header validate_common validate_lengths
validate_header-ne-need_more_data h = ground arith
