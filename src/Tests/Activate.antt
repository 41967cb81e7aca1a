-- ===== src/Tests/Activate.antt =====
-- The theorems of Consumer/Activate and Consumer/Metering at concrete inputs.
use sparkl_router.Common.{
  ℕ, ◌≤◌, ◌≡◌, ◌↔◌, refl, true, false, Option, none, some, List, [], ◌∷◌, arith, Text, codes,
  text_eq, if◌then◌else◌, split_text, replicate, ◌++◌, trim, trim_end, trim_start,
}
use mathlib.Core.List.Memᴰ.{head}
use sparkl_router.Json.{Json}
use sparkl_router.Mpsc.{Mpsc}
use sparkl_router.Protocol.{InboundFrame}
use sparkl_router.Tunnel.{NodeTunnel}
use sparkl_router.Chain.Session.{ChainSession}
use sparkl_router.Consumer.Sse.{ParsedUsage, closes}
use sparkl_router.Consumer.Metering.{
  iter_sse_event_values, event_values, event_value, sparkl_receipt_output_tokens,
  extract_usage_from_sse_body,
}
use sparkl_router.Consumer.Metering.Covers.{Reported, extract_usage_from_sse_body-covers}
use sparkl_router.Consumer.Activate.{
  ActivateBody, activated, activate_session, parse_session_id, session_id_hex,
}
use sparkl_router.Consumer.Activate.SessionId.{parse_session_id-session_id_hex}
use sparkl_router.Consumer.Activate.Granted.{IsGranted, activate_session_iff}
use sparkl_router.Tests.Queue.{Queue, queue}
use sparkl_router.Tests.Values.{Value, fields, field, no_fields, string, json, hex}

parse_session_id-session_id_hex_example :
    parse_session_id hex.decode (session_id_hex 3000) ≡ some 3000
parse_session_id-session_id_hex_example =
    parse_session_id-session_id_hex hex.decode 3000 (omega arith)

abbrev q : Mpsc (InboundFrame (Unit {0}))
q = queue (InboundFrame (Unit {0}))

abbrev tunnel : NodeTunnel (Unit {0}) (Queue (InboundFrame (Unit {0})))
tunnel = record {
  node_id = 1;
  moniker = none;
  sender = [];
  sender_open = true;
  pending = [];
  channels = λ _. q.channel 256;
  created = 0;
  last_pong_at = 0;
  last_models_refresh_at = 0;
  model_count = 0;
  shutdown = false;
}

abbrev session : ChainSession
session = record {
  user = 77;
  node_id = 1;
  model_id = 2;
  tier = 0;
  locked_internal = 100;
  usage_recorded = 0;
  input_tokens_recorded = 0;
  output_tokens_recorded = 0;
  settled = false;
}

abbrev body : ActivateBody
body = record { signature = []; block_number = 24; message = none }

abbrev frames : List (InboundFrame (Unit {0}))
frames = InboundFrame.chunk [] ∷ InboundFrame.activate_response (codes "key") ∷ []

-- Every signature is taken for one of user 77, under a hash that keeps its input.
abbrev decode : Text → Option (List ℕ)
decode s = some (replicate 65 0)

abbrev recover : List ℕ → List ℕ → ℕ → Option (List ℕ)
recover digest signature v = some (replicate 13 0 ++ 77 ∷ [])

activate_session_iff_example :
    (activate_session decode
        (λ b. b)
        (λ n. [])
        recover
        (λ id. some session)
        q
        (λ n. some tunnel)
        5
        (codes "3")
        body
        frames
        closes
      ≡ activated (codes "key") (session_id_hex 3))
    ↔ IsGranted decode
        (λ b. b)
        (λ n. [])
        recover
        (λ id. some session)
        q
        (λ n. some tunnel)
        (codes "3")
        body
        frames
        (codes "key")
        (session_id_hex 3)
activate_session_iff_example =
    activate_session_iff decode (λ b. b) (λ n. []) recover (λ id. some session) q (λ n. some tunnel)
      5 (codes "3") body frames closes (codes "key") (session_id_hex 3)

-- `{"sparkl": {"receipt": "AA"}}` where "AA" is a receipt for 9 tokens.
abbrev event : Value
event = fields (
    field (codes "sparkl") (fields (field (codes "receipt") (string (codes "AA")) no_fields))
      no_fields)

abbrev j : Json
j = json (λ s. if text_eq s (codes "R") then some event else none)

abbrev base64 : Text → Option (List ℕ)
base64 s = some (9 ∷ [])

abbrev receipt : List ℕ → Option ℕ
receipt [] = none
receipt (n ∷ ns) = some n

abbrev stream : Text
stream = codes "data: R"

extract_usage_from_sse_body-covers_example :
    (u : ParsedUsage) × ((extract_usage_from_sse_body j base64 receipt stream ≡ some u)
      × ((9 ≤ u.output_tokens)
          × Reported j base64 receipt (iter_sse_event_values j stream) u.output_tokens))
unfolding iter_sse_event_values event_values event_value split_text trim trim_end trim_start
    sparkl_receipt_output_tokens
extract_usage_from_sse_body-covers_example =
    extract_usage_from_sse_body-covers j base64 receipt stream event 9 (head refl) refl
      (omega arith)
