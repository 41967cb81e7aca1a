-- ===== src/Lifecycle.antt =====
-- src/tunnel/registry.rs, the end of `handle_node_connect` in src/tunnel/connect.rs, and
-- src/tunnel/lifecycle.rs: the tunnels of the nodes as they come, are replaced and go. A tunnel
-- (`Arc<NodeTunnel>`) is an address, for it outlives its entry in the registry. The catalog of models,
-- telemetry and metrics, which these functions also inform, are not part of the state.
pub mod Teardown
pub mod Pinger
use sparkl_router.Common.{
  ℕ, suc, ◌+◌, ◌-◌, ◌*◌, ◌^◌, leb, Bool, true, false, Option, none, some, List, [], ◌∷◌, ltb, ◌==◌,
  if◌then◌else◌, max, length, Map, lookup, insert, remove, nat_eq, Text,
}
use sparkl_router.Mpsc.{Mpsc}
use sparkl_router.Protocol.{NodeToRouterFrame, RouterToNodeFrame, InboundFrame}
use sparkl_router.Tunnel.{
  NodeTunnel, new_tunnel, update, touch_pong, signal_shutdown, send_frame, route_inbound,
  fail_all_pending,
}
use sparkl_router.Capacity.{CapacityTracker, clear_node}

-- `TunnelRegistry`, whose operations are those of its map.
abbrev pub TunnelRegistry : Type 0
TunnelRegistry = Map ℕ ℕ

-- The first `made` addresses are those of the tunnels made so far.
pub record Router (V C : Type 0) : Type 0 where
  pub tunnels : TunnelRegistry
  pub heap : ℕ → NodeTunnel V C
  pub made : ℕ
  pub capacity : CapacityTracker

module _ {V : Type 0} (q : Mpsc (InboundFrame V)) where
  -- What a reconnect does to the tunnel that was registered.
  abbrev pub retire : NodeTunnel V q.Chan → NodeTunnel V q.Chan
  retire t = fail_all_pending q (signal_shutdown t)

  abbrev pub retire_old : ℕ → Router V q.Chan → Router V q.Chan
  retire_old node_id r = elim (lookup node_id r.tunnels) [
    | none ↦ r
    | some a ↦ record r {
      tunnels = remove node_id r.tunnels;
      heap = update r.heap a (retire (r.heap a));
    }
  ]

  -- From the removal of the old tunnel to the registration of the new one.
  unfoldable pub install : ℕ → Option Text → ℕ → Router V q.Chan → Router V q.Chan
  unfolding new_tunnel fail_all_pending
  install node_id moniker now r =
      let cleared = retire_old node_id r in
      record cleared {
        tunnels = insert node_id cleared.made cleared.tunnels;
        heap = update cleared.heap cleared.made (new_tunnel q node_id moniker now);
        made = suc cleared.made;
      }

  -- The ready frame could not be sent.
  abbrev pub ready_failed : ℕ → Router V q.Chan → Router V q.Chan
  ready_failed node_id r = record r { tunnels = remove node_id r.tunnels }

  -- The end of `run_tunnel_lifecycle` for the tunnel at an address.
  unfoldable pub teardown : ℕ → ℕ → Router V q.Chan → Router V q.Chan
  unfolding fail_all_pending clear_node
  teardown node_id a r = record r {
    heap = update r.heap a (fail_all_pending q (r.heap a));
    capacity = clear_node r.capacity node_id;
    tunnels = remove node_id r.tunnels;
  }

  -- `handle_inbound_text` for a frame that parses.
  unfoldable pub handle_inbound :
      ℕ → NodeToRouterFrame V → NodeTunnel V q.Chan → NodeTunnel V q.Chan
  unfolding route_inbound
  handle_inbound now NodeToRouterFrame.pong t = touch_pong now t
  handle_inbound now (NodeToRouterFrame.response rid status headers) t =
      route_inbound q rid (InboundFrame.response status headers) t
  handle_inbound now (NodeToRouterFrame.chunk rid text) t =
      route_inbound q rid (InboundFrame.chunk text) t
  handle_inbound now (NodeToRouterFrame.end rid status) t =
      route_inbound q rid (InboundFrame.end status) t
  handle_inbound now (NodeToRouterFrame.error rid code message) t =
      route_inbound q rid (InboundFrame.error code message) t
  handle_inbound now (NodeToRouterFrame.activate_response rid api_key) t =
      route_inbound q rid (InboundFrame.activate_response api_key) t
  handle_inbound now (NodeToRouterFrame.auth node_id signature key moniker) t = t

-- `now - last > limit as i64`, where a limit from 2^63 on becomes negative.
abbrev pub is_overdue : ℕ → ℕ → ℕ → Bool
is_overdue limit now last =
    if ltb limit (2 ^ 63) then ltb (last + limit) now else ltb (last + limit) (now + 2 ^ 64)

abbrev pub pong_limit : ℕ → ℕ → ℕ
pong_limit ping_interval_secs pong_timeout_secs = max ping_interval_secs 1 + max pong_timeout_secs 1

-- One tick of the pinger: the tunnel, and whether the pinger goes on. A sum of the settings that is no
-- `Duration` panics, which ends the pinger.
unfoldable pub ping_tick : {V C : Type 0} → ℕ → ℕ → ℕ → NodeTunnel V C → NodeTunnel V C × Bool
unfolding send_frame
ping_tick ping_interval_secs pong_timeout_secs now t =
    if leb (2 ^ 64) (pong_limit ping_interval_secs pong_timeout_secs)
    then (t, false)
    else if is_overdue (pong_limit ping_interval_secs pong_timeout_secs) now t.last_pong_at
    then (signal_shutdown t, false)
    else elim (send_frame RouterToNodeFrame.ping t) [ none ↦ (t, false) | some sent ↦ (sent, true) ]

-- The loop of the pinger, with the times of its ticks.
unfoldable pub pinger : {V C : Type 0} → ℕ → ℕ → List ℕ → NodeTunnel V C → NodeTunnel V C
unfolding ping_tick
pinger ping_interval_secs pong_timeout_secs [] t = t
pinger ping_interval_secs pong_timeout_secs (now ∷ nows) t =
    let (t', goes_on) = ping_tick ping_interval_secs pong_timeout_secs now t in
    elim goes_on [ true ↦ pinger ping_interval_secs pong_timeout_secs nows t' | false ↦ t' ]
