-- ===== src/Tests/Consumer.antt =====
-- The theorems of Consumer.antt at concrete inputs: a node that answers in two chunks.
use sparkl_router.Common.{
  ◌≡◌, refl, inl, true, false, Option, none, some, List, [], ◌∷◌, ◌++◌, arith, codes, Text,
  contains,
}
use sparkl_router.Protocol.{InboundFrame}
use sparkl_router.Tunnel.{NodeTunnel, fail_all_pending}
use sparkl_router.Consumer.Sse.{
  ParsedUsage, received, closed, ok, err, closes, times_out, collect_http_response,
  sse_from_pending_with_guard, releases_guard, completes,
}
use sparkl_router.Consumer.Sse.Collect.{collect_cases}
use sparkl_router.Consumer.Sse.Complete.{CompletedOnce, completes_once, stream_end}
use sparkl_router.Consumer.Sse.Overflow.{full_disconnect_succeeds}
use sparkl_router.Tests.Queue.{Queue, queue}

abbrev Frame : Type 0
Frame = InboundFrame (Unit {0})

abbrev chunk : Frame
chunk = InboundFrame.chunk (1 ∷ 2 ∷ [])

abbrev frames : List Frame
frames = InboundFrame.response 201 tt ∷ chunk ∷ chunk ∷ []

abbrev no_usage : Text → Option ParsedUsage
no_usage text = none

abbrev quote : Text → Text
quote text = text

collect_cases_example :
    (collect_http_response some (frames ++ InboundFrame.end 200 ∷ []) closes
      ≡ ok (record { status = 200; body = 1 ∷ 2 ∷ 1 ∷ 2 ∷ [] }))
    × (collect_http_response some (frames ++ InboundFrame.error 500 (9 ∷ []) ∷ []) closes
        ≡ err 500 (9 ∷ []))
    × (collect_http_response some frames times_out ≡ err 504 (codes "upstream timeout"))
    × (collect_http_response some frames closes
        ≡ ok (record { status = 201; body = 1 ∷ 2 ∷ 1 ∷ 2 ∷ [] }))
collect_cases_example = collect_cases some frames [] closes 200 500 (9 ∷ []) tt

completes_once_example :
    CompletedOnce
      (sse_from_pending_with_guard no_usage quote
        (received true chunk ∷ received true chunk ∷ closed ∷ [])).completion
completes_once_example =
    completes_once no_usage quote (received true chunk ∷ received true chunk ∷ closed ∷ [])

stream_end_example :
    sse_from_pending_with_guard no_usage quote
      (received true chunk ∷ received true chunk ∷ received true (InboundFrame.end 200) ∷ [])
    ≡ record {
      output = (1 ∷ 2 ∷ []) ∷ (1 ∷ 2 ∷ []) ∷ [];
      completion = record {
        guard = false;
        on_complete = false;
        fired = true;
        effects = releases_guard ∷ completes none 4 false ∷ [];
      };
    }
unfolding contains
stream_end_example = stream_end no_usage quote ((1 ∷ 2 ∷ []) ∷ (1 ∷ 2 ∷ []) ∷ []) true 200 []

-- The tunnel of one request whose channel, of bound 2, is full.
abbrev full_tunnel : NodeTunnel (Unit {0}) (Queue Frame)
full_tunnel = record {
  node_id = 1;
  moniker = none;
  sender = [];
  sender_open = true;
  pending = (5, 0) ∷ [];
  channels = λ _. record { items = chunk ∷ chunk ∷ []; size = 2; is_open = true };
  created = 1;
  last_pong_at = 0;
  last_models_refresh_at = 0;
  model_count = 0;
  shutdown = false;
}

full_disconnect_succeeds_example :
    (((fail_all_pending (queue Frame) full_tunnel).channels 0).items ≡ chunk ∷ chunk ∷ [])
    × ((fail_all_pending (queue Frame) full_tunnel).pending ≡ [])
    × (collect_http_response some (chunk ∷ chunk ∷ []) closes
        ≡ ok (record { status = 200; body = 1 ∷ 2 ∷ 1 ∷ 2 ∷ [] }))
full_disconnect_succeeds_example =
    full_disconnect_succeeds (queue Frame) some full_tunnel 5 0 (chunk ∷ chunk ∷ [])
      (inl (refl, refl, tt)) refl (omega arith) tt
