-- ===== src/Tunnel.antt =====
-- src/state.rs and src/tunnel/dispatch.rs: the tunnel of one node, and the requests that wait for
-- its frames. `pending` maps a request id to the channel whose sending half it holds; the receiving
-- half belongs to the `PendingRequest`. Channels are numbered in the order of their creation.
pub mod Events
pub mod Entries
mod Frames
mod Views
pub mod Delivery
pub mod Dispatch
use sparkl_router.Common.{
  ℕ, suc, Bool, true, false, Option, none, some, List, [], ◌∷◌, ◌++◌, ltb, ◌==◌, if◌then◌else◌,
  length, Map, lookup, insert, remove, nat_eq, Text, codes,
}
use sparkl_router.Mpsc.{Mpsc}
use sparkl_router.Protocol.{InboundFrame, RouterToNodeFrame, is_terminal_frame}

pub data Received (V : Type 0) : Type 0 where
  received : InboundFrame V → Received V
  closed : Received V
  pends : Received V

-- The fields of `NodeTunnel` that its operations read or write, with `C` for a channel. `sender` is
-- the queue of outbound frames; `shutdown` says whether the shutdown message is there. Timestamps are
-- seconds of the epoch. The first `created` numbers are those of the channels made so far.
pub record NodeTunnel (V C : Type 0) : Type 0 where
  pub node_id : ℕ
  pub moniker : Option Text
  pub sender : List (RouterToNodeFrame V)
  pub sender_open : Bool
  pub pending : Map ℕ ℕ
  pub channels : ℕ → C
  pub created : ℕ
  pub last_pong_at : ℕ
  pub last_models_refresh_at : ℕ
  pub model_count : ℕ
  pub shutdown : Bool

pub record PendingRequest : Type 0 where
  pub rid : ℕ
  pub rx : ℕ

abbrev pub update {ℓ} : {A : Type ℓ} → (ℕ → A) → ℕ → A → ℕ → A
update f i a j = if i == j then a else f j

-- Whether some entry still holds the sending half of a channel.
unfoldable pub has_sender : ℕ → Map ℕ ℕ → Bool
has_sender c [] = false
has_sender c ((rid, d) ∷ m) = if d == c then true else has_sender c m

module _ {V C : Type 0} where
  abbrev pub touch_pong : ℕ → NodeTunnel V C → NodeTunnel V C
  touch_pong now t = record t { last_pong_at = now }

  abbrev pub in_flight_count : NodeTunnel V C → ℕ
  in_flight_count t = length t.pending

  abbrev pub signal_shutdown : NodeTunnel V C → NodeTunnel V C
  signal_shutdown t = record t { shutdown = true }

  -- `none` is the error "tunnel send channel closed". The wait for room in the queue is not modelled.
  unfoldable pub send_frame : RouterToNodeFrame V → NodeTunnel V C → Option (NodeTunnel V C)
  send_frame frame t =
      if t.sender_open then some (record t { sender = t.sender ++ frame ∷ [] }) else none

module _ {V : Type 0} (q : Mpsc (InboundFrame V)) where
  unfoldable pub new_tunnel : ℕ → Option Text → ℕ → NodeTunnel V q.Chan
  new_tunnel node_id moniker now = record {
    node_id = node_id;
    moniker = moniker;
    sender = [];
    sender_open = true;
    pending = [];
    channels = λ _. q.channel 256;
    created = 0;
    last_pong_at = now;
    last_models_refresh_at = 0;
    model_count = 0;
    shutdown = false;
  }

  -- `let _ = tx.try_send(frame)`
  unfoldable pub send_or_lose : InboundFrame V → q.Chan → q.Chan
  send_or_lose frame c = elim (q.try_send frame c) [ none ↦ c | some d ↦ d ]

  unfoldable pub register_pending : ℕ → NodeTunnel V q.Chan → NodeTunnel V q.Chan × PendingRequest
  register_pending rid t = (
    record t {
      pending = insert rid t.created t.pending;
      channels = update t.channels t.created (q.channel 256);
      created = suc t.created;
    },
    record { rid = rid; rx = t.created },
  )

  -- The drop of a `PendingRequest`: its receiver goes, then `PendingCleanup` removes the entry.
  unfoldable pub drop_pending : PendingRequest → NodeTunnel V q.Chan → NodeTunnel V q.Chan
  drop_pending p t = record t {
    pending = remove p.rid t.pending;
    channels = update t.channels p.rx (q.close (t.channels p.rx));
  }

  unfoldable pub route_inbound : ℕ → InboundFrame V → NodeTunnel V q.Chan → NodeTunnel V q.Chan
  unfolding send_or_lose
  route_inbound rid frame t = elim (lookup rid t.pending) [
    | none ↦ t
    | some c ↦
        if is_terminal_frame frame
        then record t {
          pending = remove rid t.pending;
          channels = update t.channels c (send_or_lose frame (t.channels c));
        }
        else elim (q.try_send frame (t.channels c)) [
          | some sent ↦ record t { channels = update t.channels c sent }
          | none ↦ record t { pending = remove rid t.pending }
        ]
  ]

  abbrev pub disconnected : InboundFrame V
  disconnected = InboundFrame.error 502 (codes "node disconnected")

  unfoldable pub fail_entries : Map ℕ ℕ → (ℕ → q.Chan) → ℕ → q.Chan
  unfolding send_or_lose
  fail_entries [] channels = channels
  fail_entries ((rid, c) ∷ m) channels =
      fail_entries m (update channels c (send_or_lose disconnected (channels c)))

  unfoldable pub fail_all_pending : NodeTunnel V q.Chan → NodeTunnel V q.Chan
  unfolding fail_entries
  fail_all_pending t = record t { pending = []; channels = fail_entries t.pending t.channels }

  -- One poll of `rx.recv()`.
  unfoldable pub recv : PendingRequest → NodeTunnel V q.Chan → NodeTunnel V q.Chan × Received V
  unfolding has_sender
  recv p t = elim (q.recv (t.channels p.rx)) [
    | none ↦ (t, if has_sender p.rx t.pending then Received.pends else Received.closed)
    | some (f, rest) ↦ (record t { channels = update t.channels p.rx rest }, Received.received f)
  ]
