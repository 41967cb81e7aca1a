-- ===== src/Status/Snapshot.antt =====
-- src/status/subscribe.rs and src/consumer/models.rs: the first message to a subscriber, with all nodes
-- and all models.
use sparkl_router.Common.{ℕ, Bool, none, some, List, [], ◌∷◌, Text, codes, Map, lookup, sort_by}
use sparkl_router.Json.{Json}
use sparkl_router.Capacity.{CapacityTracker, ModelCapacityKey, key_eq, snapshot, all_snapshots}
use sparkl_router.Tunnel.{NodeTunnel, in_flight_count}
use sparkl_router.Lifecycle.{Router, TunnelRegistry}
use sparkl_router.Models.Offering.{number_at, tunnel_status_for_pong}
use sparkl_router.Models.Merge.{Listing}
use sparkl_router.Models.Catalog.{ModelsCatalog, listings, text_le}
use sparkl_router.Models.Query.{key_of}
use sparkl_router.Telemetry.{
  NodeStatusEvent, ModelCapacityEvent, TelemetryEvent, snapshot_event, capacity_event, status_event,
  event_le,
}

-- The counts of a key: from the snapshot, or from the tracker as it is now.
unfoldable pub counts :
    Map ModelCapacityKey (ℕ × ℕ) → CapacityTracker → ModelCapacityKey → CapacityTracker × (ℕ × ℕ)
counts tracker_snap t key = elim (lookup key tracker_snap) [
  | some c ↦ (t, c)
  | none ↦ let (t', snap) = snapshot t key in (t', (snap.active_requests, snap.queued_requests))
]

abbrev pub node_le : NodeStatusEvent → NodeStatusEvent → Bool
node_le a b = text_le a.node_id b.node_id

module _ (j : Json) (encode : List ℕ → Text) where
  unfoldable pub listing_events :
      Map ModelCapacityKey (ℕ × ℕ)
      → CapacityTracker
      → List (Listing j.Value)
      → CapacityTracker × List ModelCapacityEvent
  unfolding counts capacity_event
  listing_events tracker_snap t [] = (t, [])
  listing_events tracker_snap t (l ∷ ls) =
      let (read, c) = counts tracker_snap t (key_of l) in
      let (all, events) = listing_events tracker_snap read ls in
      (
        all,
        capacity_event encode (key_of l) c.0 c.1 (number_at j l.entry (codes "concurrency"))
            ∷ events,
      )

  unfoldable pub model_capacity_events :
      Map ModelCapacityKey (ℕ × ℕ)
      → CapacityTracker
      → ModelsCatalog j.Value
      → CapacityTracker × List ModelCapacityEvent
  unfolding listing_events listings sort_by text_le
  model_capacity_events tracker_snap t catalog =
      let (read, events) = listing_events tracker_snap t (listings catalog.by_node) in
      (read, sort_by event_le events)

  module _ {V C : Type 0} where
    unfoldable pub node_events :
        ℕ → ℕ → (ℕ → NodeTunnel V C) → TunnelRegistry → List NodeStatusEvent
    unfolding status_event tunnel_status_for_pong
    node_events now stale heap [] = []
    node_events now stale heap ((node, a) ∷ m) =
        status_event encode (heap a).node_id (heap a).moniker
          (tunnel_status_for_pong now (heap a).last_pong_at stale) (in_flight_count (heap a))
          (heap a).model_count
        ∷ node_events now stale heap m

    -- The message of `send_snapshot`, and the tracker after it.
    unfoldable pub build_snapshot :
        ℕ → ℕ → Router V C → ModelsCatalog j.Value → CapacityTracker × TelemetryEvent
    unfolding node_events model_capacity_events all_snapshots sort_by text_le
    build_snapshot now stale r catalog =
        let (read, models) = model_capacity_events (all_snapshots r.capacity) r.capacity catalog in
        (read, snapshot_event (sort_by node_le (node_events now stale r.heap r.tunnels)) models)
