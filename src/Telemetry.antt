-- ===== src/Telemetry.antt =====
-- src/telemetry/mod.rs: the events of the bus. `hex::encode` is a parameter. `TelemetryBus` only wraps
-- the sender of a broadcast channel.
use sparkl_router.Common.{
  ℕ, Bool, Option, List, [], ◌∷◌, Text, Map, text_eq, if◌then◌else◌, sort_by,
}
use sparkl_router.Capacity.{ModelCapacityKey}
use sparkl_router.Models.Offering.{node_id_key}
use sparkl_router.Models.Catalog.{text_le}

pub record ModelCapacityEvent : Type 0 where
  pub node_id : Text
  pub model_id : Text
  pub active_requests : ℕ
  pub queued_requests : ℕ
  pub concurrency : ℕ

pub record NodeStatusEvent : Type 0 where
  pub node_id : Text
  pub moniker : Option Text
  pub status : Text
  pub in_flight_requests : ℕ
  pub model_count : ℕ

pub data TelemetryEvent : Type 0 where
  snapshot_event : List NodeStatusEvent → List ModelCapacityEvent → TelemetryEvent
  model_capacity : ModelCapacityEvent → TelemetryEvent
  node_status : NodeStatusEvent → TelemetryEvent

-- What `emit_model_capacity` and `emit_node_status` send.
unfoldable pub capacity_event : (List ℕ → Text) → ModelCapacityKey → ℕ → ℕ → ℕ → ModelCapacityEvent
unfolding node_id_key
capacity_event encode key active queued concurrency = record {
  node_id = node_id_key encode key.node_id;
  model_id = key.model_id;
  active_requests = active;
  queued_requests = queued;
  concurrency = concurrency;
}

unfoldable pub status_event : (List ℕ → Text) → ℕ → Option Text → Text → ℕ → ℕ → NodeStatusEvent
unfolding node_id_key
status_event encode node_id moniker status in_flight model_count = record {
  node_id = node_id_key encode node_id;
  moniker = moniker;
  status = status;
  in_flight_requests = in_flight;
  model_count = model_count;
}

-- The order by model and then by node.
abbrev pub event_le : ModelCapacityEvent → ModelCapacityEvent → Bool
event_le a b =
    if text_eq a.model_id b.model_id
    then text_le a.node_id b.node_id
    else text_le a.model_id b.model_id

unfoldable pub events_of :
    (List ℕ → Text)
    → (ModelCapacityKey → ℕ)
    → Map ModelCapacityKey (ℕ × ℕ)
    → List ModelCapacityEvent
unfolding capacity_event
events_of encode concurrency_lookup [] = []
events_of encode concurrency_lookup ((key, (active, queued)) ∷ m) =
    capacity_event encode key active queued (concurrency_lookup key)
    ∷ events_of encode concurrency_lookup m

unfoldable pub model_capacity_events_from_tracker :
    (List ℕ → Text)
    → Map ModelCapacityKey (ℕ × ℕ)
    → (ModelCapacityKey → ℕ)
    → List ModelCapacityEvent
unfolding events_of sort_by text_le
model_capacity_events_from_tracker encode tracker_snapshots concurrency_lookup =
    sort_by event_le (events_of encode concurrency_lookup tracker_snapshots)
