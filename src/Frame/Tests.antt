-- ===== src/Frame/Tests.antt =====
-- Runs of the codec on small inputs, and its theorems at them.
use nexus_rpc.Common.{ℕ, ◌≡◌, ◌≢◌, refl, sym, ap, arith, [], ◌∷◌, ◌++◌}
use nexus_rpc.Common.{Bytes, IsByte, All, length, take, drop, Option, some, true, ◌↔◌}
use nexus_rpc.Common.Outcome.{done, out_of_bounds, out_of_fuel}
use nexus_rpc.Frame.Constants.{default_header, InRange, response, ok}
use nexus_rpc.Frame.Constants.{ParseResult, need_more_data, need_payload}
use nexus_rpc.Frame.Header.{validate_header, encode_header, read_header, decode_header}
use nexus_rpc.Frame.Header.{validate_common, validate_lengths, is_known_message_type}
use nexus_rpc.Frame.BigEndian.{write_u32_be, write_u64_be, read_u32_be, read_u64_be}
use nexus_rpc.Frame.Varint.{decode_varint, append_varint32, encode_varint32, varint_byte_size}
use nexus_rpc.Frame.Varint.Groups.{groups, encode_varint32-append_varint32}
use nexus_rpc.Frame.Varint.RoundTrip.{decode_varint-append_varint32}
use nexus_rpc.Frame.Varint.Reads.{IsDecoded, decode_varint_total}
use nexus_rpc.Frame.Header.Valid.{IsVersion1, validate_header-ok_iff}
use nexus_rpc.Frame.Header.RoundTrip.{encode_header-read_header, decode_header-encode_header}
use nexus_rpc.Frame.Metadata.{Metadata, encode_metadata, decode_metadata}
use nexus_rpc.Frame.Metadata.Wire.{Fits, wire, field, entry, encode_metadata-wire}
use nexus_rpc.Frame.Metadata.RoundTrip.{decode_metadata-encode_metadata, decode_metadata_inverse}
use nexus_rpc.Frame.Metadata.Reads.{decode_metadata_total, decode_metadata-ne-out_of_fuel, IsAnswer}
use nexus_rpc.Frame.Metadata.Overread.{decode_metadata_overread, decode_metadata_fault}
use nexus_rpc.Frame.Encode.{frame_header, encode_frame}
use nexus_rpc.Frame.Parser.{FrameParser, new_parser, bytes, null, feed, reset}
use nexus_rpc.Frame.Parser.{advance, feed_header, accept_header, after_header, feed_payload}
use nexus_rpc.Frame.Parser.Sent.{IsReady, IsSendable, parsed}
use nexus_rpc.Frame.Parser.Frames.{feed-encode_frame, feed-reset}
use nexus_rpc.Frame.Parser.Incremental.{feed_resumes}
use nexus_rpc.Frame.Parser.Chunks.{feed_all, feed_all-encode_frame}

-- Two entries, "a" = "xy" and "b" = "".
abbrev two_entries : Metadata
two_entries = (97 ∷ [], 120 ∷ 121 ∷ []) ∷ (98 ∷ [], []) ∷ []

abbrev two_entries_wire : Bytes
two_entries_wire = 10 ∷ 7 ∷ 10 ∷ 1 ∷ 97 ∷ 18 ∷ 2 ∷ 120 ∷ 121 ∷ 10 ∷ 5 ∷ 10 ∷ 1 ∷ 98 ∷ 18 ∷ 0 ∷ []

abbrev hello : Bytes
hello = 104 ∷ 105 ∷ []

two_entries-Fits : Fits two_entries
unfolding entry field groups
two_entries-Fits = (omega arith, (omega arith, tt))

encode_two_entries : encode_metadata two_entries ≡ two_entries_wire
unfolding wire entry field groups
encode_two_entries = encode_metadata-wire two_entries two_entries-Fits

abbrev hello_header : Bytes
hello_header =
    78 ∷ 82 ∷ 80 ∷ 67 ∷ 1 ∷ 1 ∷ 0 ∷ 0 ∷ 0 ∷ 0 ∷ 0 ∷ 50 ∷ 0 ∷ 0 ∷ 0 ∷ 0 ∷ 0 ∷ 0 ∷ 0 ∷ 7 ∷ 0 ∷ 0 ∷ 0
    ∷ 16 ∷ 0 ∷ 0 ∷ 0 ∷ 2 ∷ 0 ∷ 0 ∷ 0 ∷ 0 ∷ []

abbrev hello_frame : Bytes
hello_frame = hello_header ++ two_entries_wire ++ hello

encode_hello : encode_frame 7 response two_entries hello ≡ hello_frame
unfolding encode_frame encode_header frame_header write_u32_be write_u64_be
encode_hello = rw encode_two_entries refl

hello-IsSendable : IsSendable 7 two_entries hello
hello-IsSendable = record {
  id_fits = omega arith;
  sorted = ((refl, tt), (tt, tt));
  metadata_fits = omega (arith, ap length encode_two_entries);
  body_fits = omega arith;
}

new-IsReady : IsReady new_parser
new-IsReady = record { at_header = refl; no_metadata = refl; no_body = refl; open_parser = refl }

-- The first 40 bytes of the frame: the header, and a part of the payload.
abbrev hello_part : Bytes
hello_part = hello_header ++ take 8 two_entries_wire

abbrev hello_rest : Bytes
hello_rest = drop 8 two_entries_wire ++ hello

abbrev waiting : FrameParser
waiting = record new_parser {
  state = need_payload;
  header = read_header hello_header;
  buffer = take 8 two_entries_wire;
}

feed-hello_part : feed new_parser (bytes hello_part) ≡ done (waiting, need_more_data)
unfolding feed advance feed_header accept_header after_header feed_payload decode_header read_header
    validate_header validate_common validate_lengths is_known_message_type read_u32_be read_u64_be
feed-hello_part = refl

feed_resumes_example :
    feed waiting (bytes hello_rest) ≡ feed new_parser (bytes (hello_part ++ hello_rest))
feed_resumes_example = feed_resumes new_parser hello_part hello_rest feed-hello_part

feed-encode_frame_example :
    feed new_parser (bytes (hello_frame ++ 1 ∷ 2 ∷ []))
    ≡ done (parsed 7 response two_entries hello (1 ∷ 2 ∷ []), ok)
feed-encode_frame_example =
    feed-encode_frame 7 response two_entries hello new_parser (hello_frame ++ 1 ∷ 2 ∷ [])
      (1 ∷ 2 ∷ []) hello-IsSendable new-IsReady (ap (λ t. t ++ 1 ∷ 2 ∷ []) (sym encode_hello))

-- A parser that has parsed a frame and holds the next one, twice over.
abbrev holding : FrameParser
holding = record new_parser { buffer = hello_frame ++ hello_frame; complete = true }

feed-reset_example :
    feed (reset holding) (null 0) ≡ done (parsed 7 response two_entries hello hello_frame, ok)
feed-reset_example =
    feed-reset 7 response two_entries hello holding hello_frame hello-IsSendable
      (ap (λ t. t ++ hello_frame) (sym encode_hello))

feed_all-encode_frame_example :
    feed_all new_parser ((78 ∷ []) ∷ [] ∷ drop 1 hello_part ∷ hello_rest ∷ [])
    ≡ done (parsed 7 response two_entries hello [], ok)
feed_all-encode_frame_example =
    feed_all-encode_frame 7 response two_entries hello new_parser
      ((78 ∷ []) ∷ [] ∷ drop 1 hello_part ∷ []) hello_rest hello-IsSendable new-IsReady refl
      (λ e. cc) (sym encode_hello)

hello-IsVersion1 : IsVersion1 (read_header hello_header)
unfolding read_header read_u32_be read_u64_be
hello-IsVersion1 = record {
  magic_is = refl;
  version_is = refl;
  uncompressed = refl;
  protobuf = refl;
  reserved_is = refl;
  type_is = (response, refl);
  meta_fits = omega arith;
  body_fits = omega arith;
  total_is = refl;
}

validate_header-ok_iff_example : (validate_header default_header ≡ ok) ↔ IsVersion1 default_header
validate_header-ok_iff_example = validate_header-ok_iff default_header

default_header-InRange : InRange default_header
default_header-InRange = omega arith

decode_header-encode_header_example :
    decode_header (encode_header default_header ++ hello)
    ≡ (validate_header default_header, default_header)
decode_header-encode_header_example =
    decode_header-encode_header default_header hello default_header-InRange

hello_header-IsByte : All IsByte hello_header
hello_header-IsByte = omega arith

encode_header-read_header_example : encode_header (read_header hello_header) ≡ hello_header
encode_header-read_header_example = encode_header-read_header hello_header hello_header-IsByte refl

decode_metadata_inverse_example :
    decode_metadata (encode_metadata two_entries ++ hello) (length (encode_metadata two_entries)) []
    ≡ done (ok, two_entries)
decode_metadata_inverse_example =
    decode_metadata_inverse two_entries hello hello-IsSendable.sorted two_entries-Fits

decode_metadata-encode_metadata_example :
    decode_metadata
      (encode_metadata two_entries ++ hello)
      (length (encode_metadata two_entries))
      ((97 ∷ [], 1 ∷ []) ∷ (99 ∷ [], 2 ∷ []) ∷ [])
    ≡ done (ok, two_entries ++ (99 ∷ [], 2 ∷ []) ∷ [])
decode_metadata-encode_metadata_example =
    decode_metadata-encode_metadata two_entries ((97 ∷ [], 1 ∷ []) ∷ (99 ∷ [], 2 ∷ []) ∷ []) hello
      two_entries-Fits

decode_metadata_total_example :
    (a : ParseResult × Metadata) × (decode_metadata hello_frame 30 [] ≡ done a) × IsAnswer a
decode_metadata_total_example = decode_metadata_total hello_frame 30 [] (omega arith)

decode_metadata-ne-out_of_fuel_example : decode_metadata (10 ∷ 3 ∷ []) 9 [] ≢ out_of_fuel
decode_metadata-ne-out_of_fuel_example = decode_metadata-ne-out_of_fuel (10 ∷ 3 ∷ []) 9 []

decode_metadata_overread_example :
    decode_metadata (10 ∷ 4 ∷ 10 ∷ 3 ∷ 104 ∷ 105 ∷ 33 ∷ []) 6 []
    ≡ done (ok, (104 ∷ 105 ∷ 33 ∷ [], []) ∷ [])
decode_metadata_overread_example = decode_metadata_overread hello (omega arith) 33 [] []

decode_metadata_fault_example :
    decode_metadata (10 ∷ 4 ∷ 10 ∷ 3 ∷ 104 ∷ 105 ∷ []) 6 [] ≡ out_of_bounds
decode_metadata_fault_example = decode_metadata_fault hello (omega arith) []

decode_varint-append_varint32_example :
    decode_varint (append_varint32 [] 300 ++ hello) 2 ≡ done (some (300, 2))
unfolding varint_byte_size
decode_varint-append_varint32_example =
    decode_varint-append_varint32 300 2 hello (omega arith) (omega arith)

decode_varint_total_example :
    (r : Option (ℕ × ℕ)) × (decode_varint (172 ∷ 2 ∷ hello) 3 ≡ done r) × IsDecoded 3 r
decode_varint_total_example = decode_varint_total (172 ∷ 2 ∷ hello) 3 (omega arith)

encode_varint32-append_varint32_example :
    (hello ++ (encode_varint32 300).0 ≡ append_varint32 hello 300)
    × ((encode_varint32 300).1 ≡ varint_byte_size 300)
encode_varint32-append_varint32_example = encode_varint32-append_varint32 hello 300 (omega arith)
