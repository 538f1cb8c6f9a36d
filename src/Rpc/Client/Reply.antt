-- ===== src/Rpc/Client/Reply.antt =====
-- What the client makes of the frames that the server answers with.
use nexus_rpc.Common.{ℕ, ◌^◌, ◌<◌, ◌≡◌, refl, ap, arith}
use nexus_rpc.Common.{true, false, if◌then◌else◌, ltb, Bool-cases, inl, inr}
use nexus_rpc.Common.{Bytes, [], ◌++◌, length}
use nexus_rpc.Common.{some}
use nexus_rpc.Common.Outcome.{done}
use nexus_rpc.Common.ByteMap.{IsSorted, set-IsSorted}
use nexus_rpc.Frame.Metadata.{Metadata}
use nexus_rpc.Frame.Metadata.Wire.{Fits, wire, entry, field, encode_metadata-wire}
use nexus_rpc.Frame.Varint.Groups.{groups}
use nexus_rpc.Frame.Parser.Sent.{IsSendable}
use nexus_rpc.Rpc.Strings.{status_code_metadata_key, status_message_metadata_key}
use nexus_rpc.Rpc.Message.{Status, RpcResponse, failure}
use nexus_rpc.Rpc.Message.{resource_exhausted}
use nexus_rpc.Rpc.Decimal.{to_string, digits_from}
use nexus_rpc.Rpc.Response.{status_code_to_string, is_frame_encodable, with_status, limit_response}
use nexus_rpc.Rpc.Response.{limit_status, sent_response, make_response_frame}
use nexus_rpc.Rpc.Client.{receive}
use nexus_rpc.Rpc.Client.Carried.{Carries, with_status-Carries, Carries-found, reported}
use nexus_rpc.Rpc.Client.Frames.{received_frame, result_of}

sendable :
    (id : ℕ) (metadata : Metadata) (body : Bytes)
    → id < 2 ^ 64
    → IsSorted metadata
    → is_frame_encodable metadata body ≡ true
    → IsSendable id metadata body
unfolding is_frame_encodable
sendable id metadata body fits sorted small = record {
  id_fits = fits;
  sorted = sorted;
  metadata_fits = ground arith;
  body_fits = ground arith;
}

abbrev limit_metadata : Metadata
limit_metadata = limit_response.metadata

limit_Fits : Fits limit_metadata
unfolding limit_response status_code_to_string to_string digits_from entry field groups
limit_Fits = (omega arith, (omega arith, tt))

limit_IsSendable : (id : ℕ) → id < 2 ^ 64 → IsSendable id limit_metadata []
unfolding limit_response status_code_to_string to_string digits_from wire entry field groups
limit_IsSendable id fits = record {
  id_fits = fits;
  sorted = ((refl, tt), (tt, tt));
  metadata_fits = omega (arith, ap length (encode_metadata-wire limit_metadata limit_Fits));
  body_fits = omega arith;
}

limit-Carries : Carries limit_metadata limit_status
unfolding limit_response
limit-Carries =
    Carries-found limit_metadata resource_exhausted (some limit_status.message) refl refl

kept_body : (response : RpcResponse) → (with_status response).body ≡ response.body
unfolding with_status
kept_body response = refl

module _ (id : ℕ) (response : RpcResponse) (sorted : IsSorted response.metadata) where
  tagged-IsSorted : IsSorted (with_status response).metadata
  unfolding with_status
  tagged-IsSorted =
      let code = status_code_to_string response.status.code in
      let first = set-IsSorted status_code_metadata_key code response.metadata sorted in
      elim (Bool-cases (ltb 0 (length response.status.message))) [
        | inl spoken ↦
            rw spoken (set-IsSorted status_message_metadata_key response.status.message _ first)
        | inr silent ↦ rw silent first
      ]

  -- The frame of any response, with an identifier of 64 bits and metadata in the order of a
  -- `std::map`, gives the client that waits for this identifier the status of the response with the
  -- message it reports if the status is not `kOk`, and otherwise the body with the metadata to which
  -- the server has added the status; if these exceed the limits of the protocol, the client gets
  -- `kResourceExhausted`. The connection stays open, and what follows the frame does not matter.
  pub receive-make_response_frame :
      (lost : Status) (rest : Bytes)
      → id < 2 ^ 64
      → receive lost id (make_response_frame id response ++ rest)
        ≡ done (
          if is_frame_encodable (with_status response).metadata response.body
              then result_of (reported response) (with_status response).metadata response.body
              else failure limit_status,
          false,
        )
  unfolding make_response_frame sent_response limit_response
  receive-make_response_frame lost rest fits =
      let tagged = with_status response in
      elim (Bool-cases (is_frame_encodable tagged.metadata response.body)) [
        | inl small ↦
            rw (kept_body response, small)
              (received_frame id tagged.metadata response.body
                (sendable id tagged.metadata response.body fits tagged-IsSorted small)
                (reported response) (with_status-Carries response) lost rest)
        | inr large ↦
            rw (kept_body response, large)
              (received_frame id limit_metadata [] (limit_IsSendable id fits) limit_status
                limit-Carries lost rest)
      ]
