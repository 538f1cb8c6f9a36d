-- ===== src/Mcp/Runs.antt =====
-- How many lines a run of the MCP server writes.
use nexus_rpc.Common.{
  ℕ, ◌+◌, ◌≡◌, refl, ap, ◌∙◌, arith, true, false, not, ◌&&◌, if◌then◌else◌, Bool-cases, inl, inr,
}
use nexus_rpc.Common.{Bytes, List, [], ◌∷◌, length}
use nexus_rpc.Common.ByteMap.{bytes_eq, bytes_eq_iff}
use nexus_rpc.Rpc.Message.{CallResult}
use nexus_rpc.Json.Value.{JsonValue, Doubles}
use nexus_rpc.Json.Print.{serialize}
use nexus_rpc.Json.Message.{
  JsonRpcRequest, JsonRpcResponse, is_notification, Validated, accepted, refused, parse_request,
  serialize_message, response_value, serialize_parse_error,
}
use nexus_rpc.Mcp.Words.{initialize_text, initialized_text}
use nexus_rpc.Mcp.Convert.{Server}
use nexus_rpc.Mcp.Server.{SessionState, Input, write_line, dispatch, reply, handle_line, run}
use nexus_rpc.Mcp.Session.{Responds, dispatch-Responds}

-- How many responses the code writes: none to `notifications/initialized`, one to all else.
abbrev answered : Validated → ℕ
answered (refused message) = 1
answered (accepted request) = if bytes_eq request.method initialized_text then 0 else 1

-- How many responses docs/mcp.md wants: none to a request without an id, which is a notification, one
-- to any other request and to a text that is no request.
abbrev pub required : Validated → ℕ
required (refused message) = 1
required (accepted request) = if is_notification request then 0 else 1

-- A request without an id whose method is not `notifications/initialized`.
abbrev pub unnoticed : Validated → ℕ
unnoticed (refused message) = 0
unnoticed (accepted request) =
    if is_notification request && not (bytes_eq request.method initialized_text) then 1 else 0

-- A request with an id whose method is `notifications/initialized`.
abbrev pub mistaken : Validated → ℕ
mistaken (refused message) = 0
mistaken (accepted request) =
    if not (is_notification request) && bytes_eq request.method initialized_text then 1 else 0

abbrev pub count_line : (Validated → ℕ) → Doubles → Bytes → ℕ
count_line f lib [] = 0
count_line f lib (c ∷ line) = f (parse_request lib (c ∷ line))

-- The lines that are read up to a call of `stop`, added up by what each counts for; an empty line is
-- skipped.
abbrev pub count_lines : (Validated → ℕ) → Doubles → List Input → ℕ
count_lines f lib [] = 0
count_lines f lib (input ∷ inputs) =
    let rest = count_lines f lib inputs in
    if input.stopped then 0 else count_line f lib input.line + rest

answered-required : (v : Validated) → answered v + mistaken v ≡ required v + unnoticed v
answered-required (refused message) = refl
answered-required (accepted request) = elim (Bool-cases (is_notification request)) [
  | inl none ↦ elim (Bool-cases (bytes_eq request.method initialized_text)) [
    | inl e ↦ rw (none, e) refl
    | inr e ↦ rw (none, e) refl
  ]
  | inr some ↦ elim (Bool-cases (bytes_eq request.method initialized_text)) [
    | inl e ↦ rw (some, e) refl
    | inr e ↦ rw (some, e) refl
  ]
]

line-required :
    (lib : Doubles) (line : Bytes)
    → count_line answered lib line + count_line mistaken lib line
      ≡ count_line required lib line + count_line unnoticed lib line
line-required lib [] = refl
line-required lib (c ∷ line) = answered-required (parse_request lib (c ∷ line))

lines-required :
    (lib : Doubles) (inputs : List Input)
    → count_lines answered lib inputs + count_lines mistaken lib inputs
      ≡ count_lines required lib inputs + count_lines unnoticed lib inputs
lines-required lib [] = refl
lines-required lib (input ∷ inputs) =
    let line = line-required lib input.line in
    let later = lines-required lib inputs in
    elim (Bool-cases input.stopped) [ inl e ↦ rw e refl | inr e ↦ rw e (omega arith) ]

message-written :
    (lib : Doubles) (r : JsonRpcResponse) (lines : List Bytes)
    → length (write_line (serialize_message lib r) lines) ≡ 1 + length lines
unfolding serialize_message serialize response_value
message-written lib r lines = omega arith

response-written :
    (lib : Doubles) (id : JsonValue) (text : Bytes) (lines : List Bytes)
    → Responds lib id text
    → length (write_line text lines) ≡ 1 + length lines
response-written lib id text lines r =
    ap (λ t. length (write_line t lines)) r.printed ∙ message-written lib r.response lines

module _ {D : Type 0} (server : Server D) where
  notification-silent :
      (call : Bytes → Bytes → Bytes → CallResult) (state : SessionState) (request : JsonRpcRequest)
      → bytes_eq request.method initialized_text ≡ true
      → (dispatch server call state request).0 ≡ []
  unfolding dispatch
  notification-silent call state request h =
      let name : request.method ≡ initialized_text =
        (bytes_eq_iff request.method initialized_text).0 h in
      let first : bytes_eq request.method initialize_text ≡ false =
        ap (λ m. bytes_eq m initialize_text) name in
      rw (h, first) refl

  reply-written :
      (call : Bytes → Bytes → Bytes → CallResult) (state : SessionState) (v : Validated)
      (lines : List Bytes)
      → length (write_line (reply server call state v).0 lines) ≡ answered v + length lines
  unfolding serialize_parse_error
  reply-written call state (refused message) lines = message-written server.lib _ lines
  reply-written call state (accepted request) lines =
      elim (Bool-cases (bytes_eq request.method initialized_text)) [
        | inl e ↦ rw (e, notification-silent call state request e) (omega arith)
        | inr e ↦ rw e (
            response-written server.lib request.id _ lines
              (dispatch-Responds server call state request e))
      ]

  line-written :
      (call : Bytes → Bytes → Bytes → CallResult) (state : SessionState) (line : Bytes)
      (lines : List Bytes)
      → length (write_line (handle_line server call state line).0 lines)
        ≡ count_line answered server.lib line + length lines
  unfolding handle_line
  line-written call state [] lines = omega arith
  line-written call state (c ∷ line) lines =
      reply-written call state (parse_request server.lib (c ∷ line)) lines

  run-answered_lines :
      (state : SessionState) (inputs : List Input)
      → length (run server state inputs).0 ≡ count_lines answered server.lib inputs
  unfolding run
  run-answered_lines state [] = refl
  run-answered_lines state (input ∷ inputs) = elim (Bool-cases input.stopped) [
    | inl e ↦ rw e refl
    | inr e ↦
        let next = (handle_line server input.call state input.line).1 in
        rw e (
          line-written input.call state input.line (run server next inputs).0
          ∙ ap (λ n. count_line answered server.lib input.line + n)
              (run-answered_lines next inputs))
  ]

  -- A run writes as many responses as it reads lines that docs/mcp.md wants answered (a text that is no
  -- request, or a request with an id), up to a call of `stop`, but for two divergences: one more for each
  -- request without an id whose method is not `notifications/initialized`, which docs/mcp.md forbids, and
  -- one less for each request with an id whose method is that.
  pub run-required_lines :
      (state : SessionState) (inputs : List Input)
      → length (run server state inputs).0 + count_lines mistaken server.lib inputs
        ≡ count_lines required server.lib inputs + count_lines unnoticed server.lib inputs
  run-required_lines state inputs =
      ap (λ n. n + count_lines mistaken server.lib inputs) (run-answered_lines state inputs)
      ∙ lines-required server.lib inputs
