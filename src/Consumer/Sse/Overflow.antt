-- ===== src/Consumer/Sse/Overflow.antt =====
-- A full channel at the end of a tunnel: `fail_all_pending` (src/tunnel/dispatch.rs) and
-- `collect_http_response` (src/consumer/sse.rs) together.
use sparkl_router.Common.{ℕ, ◌≤◌, ◌≡◌, refl, ap, ◌∙◌, Option, List, [], arith, length}
use sparkl_router.Mpsc.{Mpsc}
use sparkl_router.Protocol.{InboundFrame}
use sparkl_router.Tunnel.{NodeTunnel, disconnected, fail_all_pending, send_or_lose}
use sparkl_router.Tunnel.Entries.{Owns}
use sparkl_router.Tunnel.Delivery.{fail_entries-Owns}
use sparkl_router.Consumer.Sse.{ok, closes, collect_http_response}
use sparkl_router.Consumer.Sse.Collect.{Quiet, body_of, status_of, collect_cases}

-- If the tunnel ends while the channel of a request is full of frames that decide nothing, the error
-- 502 does not reach the request: its channel is unchanged, no sender is left, and the collection of
-- those frames is a success with the part of the body that they hold.
pub full_disconnect_succeeds :
    {V : Type 0} (q : Mpsc (InboundFrame V)) (from_u16 : ℕ → Option ℕ) (t : NodeTunnel V q.Chan)
    (rid rx : ℕ) (fs : List (InboundFrame V))
    → Owns rid rx t.pending
    → q.contents (t.channels rx) ≡ fs
    → q.bound (t.channels rx) ≤ length fs
    → Quiet fs
    → (q.contents ((fail_all_pending q t).channels rx) ≡ fs)
      × ((fail_all_pending q t).pending ≡ [])
      × (collect_http_response from_u16 fs closes
          ≡ ok (record { status = status_of from_u16 200 fs; body = body_of fs }))
unfolding fail_all_pending send_or_lose
full_disconnect_succeeds q from_u16 t rid rx fs owns held full quiet =
    let refused =
      q.try_send_full (disconnected q) (t.channels rx) (omega (arith, ap length held)) in
    let same = fail_entries-Owns q (record { rid = rid; rx = rx }) t.pending t.channels owns in
    (
      ap q.contents (same ∙ rw (refused, send_or_lose) refl) ∙ held,
      refl,
      (collect_cases from_u16 fs [] closes 0 0 [] quiet).3,
    )
