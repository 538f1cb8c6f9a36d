-- ===== src/Rpc/Server/Tests.antt =====
-- The theorem about `onMessage` on two requests.
use nexus_rpc.Common.{◌≡◌, refl, ap, arith, true, false, [], ◌∷◌, length}
use nexus_rpc.Common.Outcome.{done}
use nexus_rpc.Frame.Metadata.{Metadata}
use nexus_rpc.Frame.Metadata.Wire.{Fits, wire, entry, field, encode_metadata-wire}
use nexus_rpc.Frame.Varint.Groups.{groups}
use nexus_rpc.Frame.Parser.{new_parser}
use nexus_rpc.Rpc.Strings.{service_metadata_key, method_metadata_key}
use nexus_rpc.Rpc.Message.{RpcRequest}
use nexus_rpc.Rpc.Server.{Connection, stays_open, on_message, names}
use nexus_rpc.Rpc.Server.Drain.{IsCall, frames, on_message-frames}

abbrev call_metadata : Metadata
call_metadata = (method_metadata_key, 109 ∷ []) ∷ (service_metadata_key, 115 ∷ []) ∷ []

abbrev first_call : RpcRequest
first_call = record {
  service = 115 ∷ [];
  method = 109 ∷ [];
  metadata = call_metadata;
  body = 1 ∷ 2 ∷ [];
  request_id = 7;
}

abbrev second_call : RpcRequest
second_call = record first_call { body = []; request_id = 8 }

abbrev connected : Connection
connected = record {
  registered = true;
  parser = new_parser;
  pending_requests = 3;
  work_queue = [];
  stopping = false;
  sent = [];
  ending = stays_open;
}

call_metadata-Fits : Fits call_metadata
unfolding entry field groups
call_metadata-Fits = (omega arith, (omega arith, tt))

first_call-IsCall : IsCall first_call
unfolding wire entry field groups names
first_call-IsCall = record {
  sendable = record {
    id_fits = omega arith;
    sorted = ((refl, tt), (tt, tt));
    metadata_fits =
        omega (arith, ap length (encode_metadata-wire call_metadata call_metadata-Fits));
    body_fits = omega arith;
  };
  named = refl;
}

second_call-IsCall : IsCall second_call
second_call-IsCall = record {
  sendable = record {
    id_fits = omega arith;
    sorted = first_call-IsCall.sendable.sorted;
    metadata_fits = first_call-IsCall.sendable.metadata_fits;
    body_fits = omega arith;
  };
  named = first_call-IsCall.named;
}

on_message-frames_example :
    on_message 2 (frames (first_call ∷ second_call ∷ [])) connected
    ≡ done (record connected { pending_requests = 5; work_queue = first_call ∷ second_call ∷ [] })
on_message-frames_example =
    on_message-frames 2 first_call (second_call ∷ []) connected refl
      (record { at_header = refl; no_metadata = refl; no_body = refl; open_parser = refl }) refl
      first_call-IsCall (second_call-IsCall, tt)
      (record { working = refl; pending_room = omega arith; queue_room = omega arith })
      (omega arith)
