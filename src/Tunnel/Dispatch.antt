-- ===== src/Tunnel/Dispatch.antt =====
-- src/tunnel/dispatch.rs: a request to a node is entered, then its frame is sent; if the sending
-- fails the request is dropped at once. The wait of the sender is not modelled.
use sparkl_router.Common.{ℕ, Option, none, some, Text}
use sparkl_router.Mpsc.{Mpsc}
use sparkl_router.Protocol.{InboundFrame, RouterToNodeFrame}
use sparkl_router.Tunnel.{NodeTunnel, PendingRequest, register_pending, drop_pending, send_frame}

module _ {V : Type 0} (q : Mpsc (InboundFrame V)) where
  unfoldable pub send_or_drop :
      RouterToNodeFrame V
      → NodeTunnel V q.Chan × PendingRequest
      → NodeTunnel V q.Chan × Option PendingRequest
  unfolding send_frame drop_pending
  send_or_drop frame (t, pending) = elim (send_frame frame t) [
    | none ↦ (drop_pending q pending t, none)
    | some sent ↦ (sent, some pending)
  ]

  -- `rid` is the new `Uuid`.
  unfoldable pub forward_http_request :
      ℕ
      → (method path : Text) → V
      → Option Text
      → NodeTunnel V q.Chan
      → NodeTunnel V q.Chan × Option PendingRequest
  unfolding send_or_drop register_pending
  forward_http_request rid method path headers body t =
      send_or_drop (RouterToNodeFrame.request rid method path headers body)
        (register_pending q rid t)

  unfoldable pub forward_activate :
      ℕ
      → (session_id signature : Text) → ℕ
      → Option Text
      → NodeTunnel V q.Chan
      → NodeTunnel V q.Chan × Option PendingRequest
  unfolding send_or_drop register_pending
  forward_activate rid session_id signature block_number message t =
      send_or_drop
        (RouterToNodeFrame.activate_request rid session_id signature block_number message)
        (register_pending q rid t)
