-- ===== src/Tests/Models.antt =====
-- The theorems of Models at concrete inputs: two nodes that offer one model.
use sparkl_router.Common.{
  ℕ, ◌≡◌, ◌↔◌, refl, true, false, none, some, List, [], ◌∷◌, arith, Text, codes, Map, lookup,
  text_key, is_some,
}
use mathlib.Core.List.{Memᴰ}
use sparkl_router.Json.{Json}
use sparkl_router.Tunnel.{NodeTunnel}
use sparkl_router.Lifecycle.{Router}
use sparkl_router.Models.Merge.{Listing}
use sparkl_router.Models.Catalog.{ModelsCatalog, listings, listings_of, contains, rebuild_union}
use sparkl_router.Models.Entries.{offered}
use sparkl_router.Models.Aggregate.{Shows}
use sparkl_router.Models.Replay.{
  Event, upsert, removal, advertised, replay, rebuild_union-Shows, contains-replay,
}
use sparkl_router.Models.Panic.{rebuild_union_panics}
use sparkl_router.Models.Filters.{ProviderQueryFilters}
use sparkl_router.Models.Query.{query_providers}
use sparkl_router.Models.Hits.{IsHit}
use sparkl_router.Models.Answer.{seen, query_providers-IsHit}
use sparkl_router.Tests.Values.{Value, fields, field, no_fields, number, json, hex}

abbrev j : Json
j = json (λ s. none)

-- `{"id": …, "sparkl": {"concurrency": c, "active_requests": a}}`
abbrev entry : ℕ → ℕ → Value
entry c a = fields (
    field (codes "context_length") (number 8192) (
      field (codes "sparkl")
        (fields (
          field (codes "concurrency") (number c)
            (field (codes "active_requests") (number a) no_fields)))
        no_fields))

abbrev models : ℕ → ℕ → Map Text Value
models c a = (codes "llama", entry c a) ∷ []

abbrev catalog : ModelsCatalog Value
catalog = record {
  by_node = (1, models 4 1) ∷ (2, models 2 2) ∷ [];
  union = [];
  offerings = [];
  last_refresh = none;
}

rebuild_union-Shows_example :
    ((rebuild_union j hex.encode 7 catalog).by_node ≡ catalog.by_node)
    × ((rebuild_union j hex.encode 7 catalog).last_refresh ≡ some 7)
    × ((id : Text)
        → Shows j hex.encode
            (rebuild_union j hex.encode 7 catalog).union
            id
            (offered id (listings catalog.by_node)))
unfolding listings listings_of
rebuild_union-Shows_example =
    rebuild_union-Shows j hex.encode 7 catalog ((_, refl, (_, refl)), ((_, refl, (_, refl)), tt))

-- Node 1 comes, node 2 comes, node 1 goes: the latest event first.
abbrev history : List (Event Value)
history = removal 9 1 ∷ upsert 8 2 (models 2 2) ∷ upsert 7 1 (models 4 1) ∷ []

contains-replay_example : (contains (replay j hex.encode history) (codes "llama") ≡ true) ↔ (
    (n : ℕ) × ((ms : Map Text Value) × ((advertised history n ≡ some ms)
        × (is_some (lookup (codes "llama") ms) ≡ true))))
unfolding listings_of
contains-replay_example =
    contains-replay j hex.encode history (codes "llama")
      (((_, refl, (_, refl)), tt), (((_, refl, (_, refl)), tt), tt))

-- `{"sparkl": 1}`
abbrev bad : Value
bad = fields (field (codes "sparkl") (number 1) no_fields)

abbrev stuck : ModelsCatalog Value
stuck = record {
  by_node =
      (3, models 4 1) ∷ (4, (codes "bad", bad) ∷ []) ∷ (5, (codes "new", entry 1 0) ∷ []) ∷ [];
  union = [];
  offerings = [];
  last_refresh = none;
}

rebuild_union_panics_example : rebuild_union j hex.encode 7 stuck ≡ stuck
unfolding listings listings_of
rebuild_union_panics_example =
    rebuild_union_panics j hex.encode 7 stuck
      (record { node_id = 3; model_id = codes "llama"; entry = entry 4 1 } ∷ [])
      (record { node_id = 5; model_id = codes "new"; entry = entry 1 0 } ∷ [])
      (record { node_id = 4; model_id = codes "bad"; entry = bad }) refl ((_, refl, (_, refl)), tt)
      refl (_, (refl, refl))

abbrev filters : ProviderQueryFilters
filters = record {
  model = some (codes "llama");
  features_any = [];
  features_all = [];
  feature_value_contains = [];
  quantization = none;
  parameter_count = none;
  min_context_length = some 4096;
  min_available_slots = some 1;
  online_only = false;
}

abbrev tunnel : NodeTunnel (Unit {0}) (Unit {0})
tunnel = record {
  node_id = 1;
  moniker = none;
  sender = [];
  sender_open = true;
  pending = [];
  channels = λ _. tt;
  created = 0;
  last_pong_at = 90;
  last_models_refresh_at = 0;
  model_count = 0;
  shutdown = false;
}

-- Node 1 is connected, node 2 is not.
abbrev router : Router (Unit {0}) (Unit {0})
router = record {
  tunnels = (1, 0) ∷ [];
  heap = λ _. tunnel;
  made = 1;
  capacity = record { slots = []; heap = [] };
}

abbrev first : Listing Value
first = record { node_id = 1; model_id = codes "llama"; entry = entry 4 1 }

query_providers-IsHit_example :
    Memᴰ
      (seen j hex 100 30 router first)
      (query_providers j hex.encode hex.decode filters 100 30 router catalog).1
    ↔ ((l : Listing Value) × (Memᴰ l (listings catalog.by_node)
          × ((seen j hex 100 30 router first ≡ seen j hex 100 30 router l)
              × IsHit filters (seen j hex 100 30 router first))))
unfolding listings listings_of
query_providers-IsHit_example =
    query_providers-IsHit j hex filters 100 30 router catalog (seen j hex 100 30 router first)
      (omega arith, (omega arith, tt))
