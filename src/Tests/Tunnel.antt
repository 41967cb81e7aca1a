-- ===== src/Tests/Tunnel.antt =====
-- The theorems of Tunnel.antt at concrete inputs: a request whose node sends a chunk, its end, and
-- then one frame too many.
use sparkl_router.Common.{◌≡◌, true, false, none, List, [], ◌∷◌, ◌++◌, arith, codes}
use sparkl_router.Mpsc.{Mpsc}
use sparkl_router.Protocol.{InboundFrame}
use sparkl_router.Tunnel.{NodeTunnel, register_pending}
use sparkl_router.Tunnel.Events.{Event, arrives, reads, registers, run, meant_for, upto_terminal}
use sparkl_router.Tunnel.Delivery.{registered, received_prefix, received_all}
use sparkl_router.Tests.Queue.{Queue, queue}

abbrev Frame : Type 0
Frame = InboundFrame (Unit {0})

abbrev chunk : Frame
chunk = InboundFrame.chunk (codes "hi")

abbrev end : Frame
end = InboundFrame.end 200

abbrev q : Mpsc Frame
q = queue Frame

abbrev tunnel : NodeTunnel (Unit {0}) (Queue Frame)
tunnel = record {
  node_id = 1;
  moniker = none;
  sender = [];
  sender_open = true;
  pending = [];
  channels = λ _. q.channel 256;
  created = 0;
  last_pong_at = 0;
  last_models_refresh_at = 0;
  model_count = 0;
  shutdown = false;
}

abbrev events : List (Event (Unit {0}))
events =
    arrives 5 chunk
    ∷ registers 6
    ∷ arrives 6 end
    ∷ reads
    ∷ arrives 5 end
    ∷ arrives 5 chunk
    ∷ reads
    ∷ []

received_prefix_example :
    (zs : List Frame) × ((run q (register_pending q 5 tunnel).1 events (registered q 5 tunnel)).log
        ++ zs
      ≡ upto_terminal (meant_for q 5 events))
unfolding register_pending
received_prefix_example =
    received_prefix q 5 tunnel tt events
      (tt, ((λ e. absurd (omega (arith, e))), (tt, (tt, (tt, (tt, (tt, tt)))))))

received_all_example :
    (run q (register_pending q 5 tunnel).1 events (registered q 5 tunnel)).log
      ++ q.contents
          ((run q (register_pending q 5 tunnel).1 events (registered q 5 tunnel)).tunnel.channels 0)
    ≡ chunk ∷ end ∷ []
unfolding register_pending meant_for upto_terminal
received_all_example =
    received_all q 5 tunnel tt events
      (tt, ((λ e. absurd (omega (arith, e))), (tt, (tt, (tt, (tt, (tt, tt))))))) (omega arith)
