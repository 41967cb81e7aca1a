-- ===== src/Tunnel/Events.antt =====
-- What happens to a tunnel while one request waits (src/tunnel/dispatch.rs): frames of the node,
-- reads of the request, other requests that come and go, the end of the tunnel.
use sparkl_router.Common.{ℕ, ◌≢◌, List, [], ◌∷◌, ◌++◌, ◌==◌, if◌then◌else◌}
use sparkl_router.Mpsc.{Mpsc}
use sparkl_router.Protocol.{InboundFrame, is_terminal_frame}
use sparkl_router.Tunnel.{
  NodeTunnel, PendingRequest, Received, register_pending, drop_pending, route_inbound,
  fail_all_pending, disconnected, recv,
}

pub data Event (V : Type 0) : Type 0 where
  arrives : (rid : ℕ) → InboundFrame V → Event V
  reads : Event V
  registers : (rid : ℕ) → Event V
  drops : PendingRequest → Event V
  disconnects : Event V

-- The tunnel, and the frames that the request has read.
pub record State (V C : Type 0) : Type 0 where
  pub tunnel : NodeTunnel V C
  pub log : List (InboundFrame V)

abbrev pub logged : {V : Type 0} → Received V → List (InboundFrame V)
logged (Received.received f) = f ∷ []
logged _ = []

module _ {V : Type 0} (q : Mpsc (InboundFrame V)) (p : PendingRequest) where
  unfoldable pub step : Event V → State V q.Chan → State V q.Chan
  step (arrives rid f) s = record s { tunnel = route_inbound q rid f s.tunnel }
  step reads s = let (t, r) = recv q p s.tunnel in record { tunnel = t; log = s.log ++ logged r }
  step (registers rid) s = record s { tunnel = (register_pending q rid s.tunnel).0 }
  step (drops other) s = record s { tunnel = drop_pending q other s.tunnel }
  step disconnects s = record s { tunnel = fail_all_pending q s.tunnel }

  unfoldable pub run : List (Event V) → State V q.Chan → State V q.Chan
  run [] s = s
  run (e ∷ es) s = run es (step e s)

-- The frames of the events that are meant for a request, the end of the tunnel being one.
abbrev pub meant_for1 : {V : Type 0} → Mpsc (InboundFrame V) → ℕ → Event V → List (InboundFrame V)
meant_for1 q r (arrives rid f) = if rid == r then f ∷ [] else []
meant_for1 q r disconnects = disconnected q ∷ []
meant_for1 q r _ = []

unfoldable pub meant_for :
    {V : Type 0} → Mpsc (InboundFrame V) → ℕ → List (Event V) → List (InboundFrame V)
meant_for q r [] = []
meant_for q r (e ∷ es) = meant_for1 q r e ++ meant_for q r es

-- The frames up to the first terminal one, that one included.
unfoldable pub upto_terminal : {V : Type 0} → List (InboundFrame V) → List (InboundFrame V)
upto_terminal [] = []
upto_terminal (f ∷ fs) = f ∷ (if is_terminal_frame f then [] else upto_terminal fs)

-- The ids of requests are fresh, and nobody drops the request while it waits.
abbrev pub Foreign1 : {V : Type 0} → PendingRequest → Event V → Type 0
Foreign1 p (registers rid) = rid ≢ p.rid
Foreign1 p (drops other) = (other.rid ≢ p.rid) × (other.rx ≢ p.rx)
Foreign1 p _ = Unit {0}

abbrev pub Foreign : {V : Type 0} → PendingRequest → List (Event V) → Type 0
Foreign p [] = Unit {0}
Foreign p (e ∷ es) = Foreign1 p e × Foreign p es
