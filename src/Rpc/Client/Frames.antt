-- ===== src/Rpc/Client/Frames.antt =====
-- The client on the frame of a response whose metadata holds a status.
use nexus_rpc.Common.{ℕ, ◌+◌, ◌-◌, ◌%◌, ◌^◌, ◌≡◌, refl, sym, ap, ◌∙◌, arith}
use nexus_rpc.Common.{true, false, if◌then◌else◌, ltb, ◌==◌, ==_iff, Bool-cases, inl, inr, le→ltb}
use nexus_rpc.Common.{
  Bytes, [], ◌∷◌, ◌++◌, length, take, drop, length-append, append_assoc, append-nil,
}
use nexus_rpc.Common.{take-append_left, drop-append_left, some}
use nexus_rpc.Common.Outcome.{done}
use nexus_rpc.Frame.Constants.{RpcFrameHeader, MessageType, ok}
use nexus_rpc.Frame.Header.{encode_header, decode_header}
use nexus_rpc.Frame.Header.RoundTrip.{length-encode_header}
use nexus_rpc.Frame.Metadata.{Metadata, encode_metadata, decode_metadata}
use nexus_rpc.Frame.Metadata.Size.{Fits-of_length, empty_of_length}
use nexus_rpc.Frame.Metadata.RoundTrip.{decode_metadata_inverse}
use nexus_rpc.Frame.Encode.{frame_header, encode_frame}
use nexus_rpc.Frame.Parser.{assign_range}
use nexus_rpc.Frame.Parser.Sent.{IsSendable, decoded, lengths}
use nexus_rpc.Rpc.Message.{Status, ok_status, is_ok, CallResult, failure, value}
use nexus_rpc.Rpc.Client.{Returned, read_all, finish_call, conclude}
use nexus_rpc.Rpc.Client.{with_metadata, read_payload, receive_payload, check_header, receive}
use nexus_rpc.Rpc.Client.Carried.{Carries}

-- The result of a call whose response has this status, metadata and body.
abbrev pub result_of : Status → Metadata → Bytes → CallResult
result_of status metadata body =
    if is_ok status
    then value (record { status = ok_status; metadata = metadata; body = body })
    else failure status

empty_of_zero : (b : Bytes) → length b ≡ 0 → b ≡ []
empty_of_zero [] e = refl
empty_of_zero (x ∷ b) e = absurd (omega arith)

module _ (id : ℕ) (metadata : Metadata) (body : Bytes) (s : IsSendable id metadata body)
    (status : Status) (carried : Carries metadata status) where
  abbrev header : RpcFrameHeader
  header = frame_header id MessageType.response metadata body

  abbrev payload : Bytes
  payload = encode_metadata metadata ++ body

  abbrev pub result : Returned
  result = (result_of status metadata body, false)

  sizes :
      (header.meta_length ≡ length (encode_metadata metadata))
      × (header.body_length ≡ length body)
      × (header.total_length ≡ 32 + length (encode_metadata metadata) + length body)
  sizes = lengths id MessageType.response metadata body s

  length-payload : length payload ≡ length (encode_metadata metadata) + length body
  length-payload = length-append (encode_metadata metadata) body

  body_assigned : assign_range payload header.meta_length header.body_length ≡ done body
  unfolding assign_range
  body_assigned =
      let inside : ltb (length payload) (length (encode_metadata metadata) + length body) ≡ false =
        le→ltb _ _ (omega (arith, length-payload)) in
      let whole : take (length body) body ≡ body =
        ap (take (length body)) (sym (append-nil body)) ∙ take-append_left body [] in
      rw (sizes.0, sizes.1, inside, drop-append_left (encode_metadata metadata) body, whole)

  concluded : conclude header payload metadata ≡ done result
  unfolding conclude finish_call
  concluded = elim (Bool-cases (is_ok status)) [
    | inr failed ↦ rw (carried, failed)
    | inl fine ↦ elim (Bool-cases (header.body_length == 0)) [
      | inl none_there ↦
          let empty : body ≡ [] = empty_of_zero body (ground (arith, sizes)) in
          rw (carried, fine, none_there)
            (ap
              (λ b.
                done (value (record { status = ok_status; metadata = metadata; body = b }), false))
              (sym empty))
      | inr some_there ↦ rw (carried, fine, some_there, body_assigned)
    ]
  ]

  payload_read : read_payload header payload ≡ done result
  unfolding read_payload with_metadata
  payload_read = elim (Bool-cases (header.meta_length == 0)) [
    | inl none_there ↦
        let empty : metadata ≡ [] = empty_of_length metadata (ground (arith, sizes)) in
        rw none_there (ap (conclude header payload) (sym empty) ∙ concluded)
    | inr some_there ↦
        let there : decode_metadata payload header.meta_length [] ≡ done (ok, metadata) =
          ap (λ n. decode_metadata payload n []) sizes.0
          ∙ decode_metadata_inverse metadata body s.sorted
              (Fits-of_length metadata (omega (arith, s))) in
        rw (some_there, there) concluded
  ]

  module _ (lost : Status) (rest : Bytes) where
    payload_received : receive_payload lost header (payload ++ rest) ≡ done result
    unfolding receive_payload read_all
    payload_received =
        let size : (header.total_length + 2 ^ 32 - 32) % 2 ^ 32 ≡ length payload =
          omega (arith, sizes, length-payload, s) in
        elim (Bool-cases (length payload == 0)) [
          | inl none_there ↦
              let empty : payload ≡ [] = empty_of_zero payload (ground arith) in
              rw (size, none_there) (ap (read_payload header) (sym empty) ∙ payload_read)
          | inr some_there ↦
              let arrived : ltb (length (payload ++ rest)) (length payload) ≡ false =
                le→ltb _ _ (omega (arith, length-append payload rest)) in
              rw (size, some_there, arrived, take-append_left payload rest) payload_read
        ]

    header_read :
        read_all (encode_header header ++ (payload ++ rest)) 32
        ≡ some (encode_header header, payload ++ rest)
    unfolding read_all
    header_read =
        let h = encode_header header in
        let size = length-encode_header header in
        let long : ltb (length (h ++ (payload ++ rest))) 32 ≡ false =
          le→ltb _ _ (omega (arith, length-append h (payload ++ rest), size)) in
        let front : take 32 (h ++ (payload ++ rest)) ≡ h =
          ap (λ n. take n (h ++ (payload ++ rest))) (sym size)
          ∙ take-append_left h (payload ++ rest) in
        let behind : drop 32 (h ++ (payload ++ rest)) ≡ payload ++ rest =
          ap (λ n. drop n (h ++ (payload ++ rest))) (sym size)
          ∙ drop-append_left h (payload ++ rest) in
        rw (long, front, behind)

    header_checked : check_header lost id (ok, header) (payload ++ rest) ≡ done result
    unfolding check_header frame_header
    header_checked =
        let same : (id == id) ≡ true = (==_iff id id).1 refl in rw same payload_received

    pub received_frame :
        receive lost id (encode_frame id MessageType.response metadata body ++ rest) ≡ done result
    unfolding receive encode_frame
    received_frame =
        let h = encode_header header in
        let split : (h ++ encode_metadata metadata ++ body) ++ rest ≡ h ++ (payload ++ rest) =
          ap (λ t. t ++ rest) (append_assoc h (encode_metadata metadata) body)
          ∙ append_assoc h payload rest in
        let head : decode_header h ≡ (ok, header) =
          ap decode_header (sym (append-nil h))
          ∙ decoded id MessageType.response metadata body s [] in
        rw (split, receive, header_read, head) header_checked
