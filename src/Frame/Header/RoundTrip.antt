-- ===== src/Frame/Header/RoundTrip.antt =====
-- `encodeHeader` and `decodeHeader` undo one another.
use nexus_rpc.Common.{
  ℕ, zero, suc, append-nil, append_assoc, sym, ap, take-append-drop, length-drop, ◌≤◌, ◌+◌, ◌≡◌,
  refl, ◌∙◌, arith, Bytes, IsByte, length, drop, take, All, [], ◌∷◌, ◌++◌,
}
use nexus_rpc.Frame.Constants.{RpcFrameHeader, InRange}
use nexus_rpc.Frame.BigEndian.{write_u32_be, write_u64_be, read_u32_be-write_u32_be}
use nexus_rpc.Frame.BigEndian.{read_u64_be-write_u64_be, read_u32_be, read_u64_be, at}
use nexus_rpc.Frame.BigEndian.{write_u32_be-read_u32_be, write_u64_be-read_u64_be}
use nexus_rpc.Frame.Header.{encode_header, read_header, decode_header, validate_header}

read_header-encode_header :
    (h : RpcFrameHeader) (rest : Bytes) → InRange h → read_header (encode_header h ++ rest) ≡ h
unfolding read_header encode_header write_u32_be write_u64_be
read_header-encode_header h rest v =
    let bytes = encode_header h ++ rest in
    λ i. record {
      magic = read_u32_be-write_u32_be h.magic (drop 4 bytes) v.magic_fits i;
      version = h.version;
      msg_type = h.msg_type;
      compress_type = h.compress_type;
      serialize_type = h.serialize_type;
      total_length = read_u32_be-write_u32_be h.total_length (drop 12 bytes) v.total_length_fits i;
      request_id = read_u64_be-write_u64_be h.request_id (drop 20 bytes) v.request_id_fits i;
      meta_length = read_u32_be-write_u32_be h.meta_length (drop 24 bytes) v.meta_length_fits i;
      body_length = read_u32_be-write_u32_be h.body_length (drop 28 bytes) v.body_length_fits i;
      reserved = read_u32_be-write_u32_be h.reserved (drop 32 bytes) v.reserved_fits i;
    }

pub length-encode_header : (h : RpcFrameHeader) → length (encode_header h) ≡ 32
unfolding encode_header write_u32_be write_u64_be
length-encode_header h = refl

-- Adjacent parts of a sequence.
take_rest : (n k m : ℕ) (xs : Bytes) → m ≡ k + n → take n (drop k xs) ++ drop m xs ≡ drop k xs
take_rest n zero m xs e =
    ap (λ t. take n xs ++ drop t xs) {y = n} (omega arith) ∙ take-append-drop n xs
take_rest n (suc k) zero xs e = absurd (omega arith)
take_rest zero (suc k) (suc m) [] e = refl
take_rest (suc n) (suc k) (suc m) [] e = refl
take_rest n (suc k) (suc m) (x ∷ xs) e = take_rest n k m xs (omega arith)

-- The first eight bytes, four by their indices.
first_eight :
    (xs : Bytes)
    → 8 ≤ length xs
    → take 4 xs ++ (at xs 4 ∷ at xs 5 ∷ at xs 6 ∷ at xs 7 ∷ []) ++ drop 8 xs ≡ xs
first_eight [] h = absurd (omega arith)
first_eight (b0 ∷ []) h = absurd (omega arith)
first_eight (b0 ∷ b1 ∷ []) h = absurd (omega arith)
first_eight (b0 ∷ b1 ∷ b2 ∷ []) h = absurd (omega arith)
first_eight (b0 ∷ b1 ∷ b2 ∷ b3 ∷ []) h = absurd (omega arith)
first_eight (b0 ∷ b1 ∷ b2 ∷ b3 ∷ b4 ∷ []) h = absurd (omega arith)
first_eight (b0 ∷ b1 ∷ b2 ∷ b3 ∷ b4 ∷ b5 ∷ []) h = absurd (omega arith)
first_eight (b0 ∷ b1 ∷ b2 ∷ b3 ∷ b4 ∷ b5 ∷ b6 ∷ []) h = absurd (omega arith)
first_eight (b0 ∷ b1 ∷ b2 ∷ b3 ∷ b4 ∷ b5 ∷ b6 ∷ b7 ∷ rest) h = refl

All-drop : (n : ℕ) (xs : Bytes) → All IsByte xs → All IsByte (drop n xs)
All-drop zero xs v = v
All-drop (suc n) [] v = v
All-drop (suc n) (x ∷ xs) v = All-drop n xs v.1

drop-length : (n : ℕ) (xs : Bytes) → length xs ≡ n → drop n xs ≡ []
drop-length zero [] e = refl
drop-length zero (x ∷ xs) e = absurd (omega arith)
drop-length (suc n) [] e = refl
drop-length (suc n) (x ∷ xs) e = drop-length n xs (omega arith)

module _ (xs : Bytes) (bytes : All IsByte xs) (size : length xs ≡ 32) where
  word : (k : ℕ) → k + 4 ≤ 32 → write_u32_be (read_u32_be (drop k xs)) ≡ take 4 (drop k xs)
  word k h =
      write_u32_be-read_u32_be (drop k xs) (All-drop k xs bytes) (omega (arith, length-drop k xs))

  long_word : write_u64_be (read_u64_be (drop 12 xs)) ≡ take 8 (drop 12 xs)
  long_word =
      write_u64_be-read_u64_be (drop 12 xs) (All-drop 12 xs bytes)
        (omega (arith, length-drop 12 xs))

  -- Encoding the header that is read from 32 bytes gives these bytes back.
  pub encode_header-read_header : encode_header (read_header xs) ≡ xs
  unfolding encode_header read_header
  encode_header-read_header =
      simp
        (
          word 0 (omega arith),
          word 8 (omega arith),
          long_word,
          word 20 (omega arith),
          word 24 (omega arith),
          word 28 (omega arith),
          append_assoc,
        )
        (rw
          (
            last,
            take_rest 4 24 28 xs refl,
            take_rest 4 20 24 xs refl,
            take_rest 8 12 20 xs refl,
            take_rest 4 8 12 xs refl,
          )
          (simp append_assoc at (first_eight xs (omega arith))))
    where
      last : take 4 (drop 28 xs) ≡ drop 28 xs
      last =
          sym (append-nil (take 4 (drop 28 xs)))
          ∙ ap (λ t. take 4 (drop 28 xs) ++ t) (sym (drop-length 32 xs size))
          ∙ take_rest 4 28 32 xs refl

-- Decoding the encoding of any header whose fields are in the range of their types, whatever bytes
-- follow, gives the header back with the answer of its validation.
pub decode_header-encode_header :
    (h : RpcFrameHeader) (rest : Bytes)
    → InRange h
    → decode_header (encode_header h ++ rest) ≡ (validate_header h, h)
unfolding decode_header
decode_header-encode_header h rest v = rw (read_header-encode_header h rest v)
