-- ===== src/Models/Query.antt =====
-- src/consumer/models.rs and src/consumer/catalog.rs: the filtered offerings with the status of their
-- tunnels and the router's own counts.
use sparkl_router.Common.{
  ℕ, Bool, true, false, not, ◌&&◌, ◌||◌, Option, none, some, List, [], ◌∷◌, Text, codes, Map,
  lookup, text_key, nat_eq, text_eq, ltb, is_some, sort_by, contains as contains_text,
}
use mathlib.Core.List.{filter_map}
use sparkl_router.Json.{Json, object}
use sparkl_router.Capacity.{CapacityTracker, ModelCapacityKey, snapshot}
use sparkl_router.Lifecycle.{Router}
use sparkl_router.Handshake.{parse_node_id_hex}
use sparkl_router.Models.Offering.{
  ProviderOffering, build_offering_with_load, tunnel_status_for_pong,
}
use sparkl_router.Models.Merge.{Listing, text_values}
use sparkl_router.Models.Catalog.{ModelsCatalog, listings, offering_le, text_le}
use sparkl_router.Models.Filters.{ProviderQueryFilters, from_query_map}

abbrev pub key_of : {V : Type 0} → Listing V → ModelCapacityKey
key_of l = record { node_id = l.node_id; model_id = l.model_id }

module _ (j : Json) (encode : List ℕ → Text) where
  -- The first loops; each reads the tracker, which makes the slots that are missing.
  unfoldable pub offerings_with_load :
      CapacityTracker → List (Listing j.Value) → CapacityTracker × List ProviderOffering
  offerings_with_load t [] = (t, [])
  offerings_with_load t (l ∷ ls) =
      let (read, snap) = snapshot t (key_of l) in
      let (all, os) = offerings_with_load read ls in
      (
        all,
        build_offering_with_load j encode l.node_id l.model_id l.entry (codes "unknown")
              (some snap.active_requests) (some snap.queued_requests)
            ∷ os,
      )

abbrev pub differs : Option Text → Text → Bool
differs none s = false
differs (some wanted) s = not (text_eq s wanted)

abbrev pub is_less : Option ℕ → ℕ → Bool
is_less none n = false
is_less (some least) n = ltb n least

unfoldable pub any_feature : Map Text Text → List Text → Bool
any_feature features [] = false
any_feature features (k ∷ ks) = is_some (lookup k features) || any_feature features ks

unfoldable pub lacks_feature : Map Text Text → List Text → Bool
lacks_feature features [] = false
lacks_feature features (k ∷ ks) = not (is_some (lookup k features)) || lacks_feature features ks

abbrev pub value_contains : Option Text → Text → Bool
value_contains none needle = false
value_contains (some v) needle = contains_text needle v

unfoldable pub lacks_value : Map Text Text → Map Text Text → Bool
lacks_value features [] = false
lacks_value features ((k, needle) ∷ wanted) =
    not (value_contains (lookup k features) needle) || lacks_value features wanted

-- `if test { return None; }` before the rest.
abbrev pub none_if : Bool → Option ProviderOffering → Option ProviderOffering
none_if true rest = none
none_if false rest = rest

abbrev pub is_empty : {A : Type 0} → List A → Bool
is_empty [] = true
is_empty (x ∷ xs) = false

unfoldable pub keep_if_hit : ProviderQueryFilters → ProviderOffering → Option ProviderOffering
unfolding any_feature lacks_feature lacks_value
keep_if_hit filters o = none_if (filters.online_only && text_eq o.tunnel_status (codes "offline")) (
    none_if (differs filters.model o.model_id) (
      none_if (differs filters.quantization o.quantization) (
        none_if (differs filters.parameter_count o.parameter_count) (
          none_if (is_less filters.min_context_length o.context_length) (
            none_if (is_less filters.min_available_slots o.available_slots) (
              none_if
                (not (is_empty filters.features_any)
                  && not (any_feature o.features filters.features_any))
                (none_if (lacks_feature o.features filters.features_all)
                  (none_if (lacks_value o.features filters.feature_value_contains) (some o)))))))))

module _ {V C : Type 0} where
  unfoldable pub status_of : ℕ → ℕ → Router V C → ℕ → Text
  unfolding tunnel_status_for_pong
  status_of now stale_secs r node = elim (lookup node r.tunnels) [
    | none ↦ codes "offline"
    | some a ↦ tunnel_status_for_pong now (r.heap a).last_pong_at stale_secs
  ]

  -- The closure of `filter_map`; `decode` is `hex::decode`.
  unfoldable pub visit :
      (Text → Option (List ℕ))
      → ProviderQueryFilters
      → ℕ
      → ℕ
      → Router V C
      → ProviderOffering
      → Option ProviderOffering
  unfolding status_of keep_if_hit parse_node_id_hex
  visit decode filters now stale_secs r o = elim (parse_node_id_hex decode o.node_id) [
    | none ↦ none
    | some node ↦ keep_if_hit filters (record o { tunnel_status = status_of now stale_secs r node })
  ]

module _ (j : Json) where
  -- `ProviderOffering` as `serde` writes it.
  abbrev pub offering_value : ProviderOffering → j.Value
  offering_value o = j.of_object (
      object j (
        (codes "node_id", j.of_str o.node_id)
        ∷ (codes "model_id", j.of_str o.model_id)
        ∷ (codes "tunnel_status", j.of_str o.tunnel_status)
        ∷ (codes "context_length", j.of_u64 o.context_length)
        ∷ (codes "quantization", j.of_str o.quantization)
        ∷ (codes "parameter_count", j.of_str o.parameter_count)
        ∷ (codes "source_url", j.of_str o.source_url)
        ∷ (codes "features", j.of_object (object j (text_values j o.features)))
        ∷ (codes "concurrency", j.of_u64 o.concurrency)
        ∷ (codes "active_requests", j.of_u64 o.active_requests)
        ∷ (codes "queued_requests", j.of_u64 o.queued_requests)
        ∷ (codes "active_sessions", j.of_u64 o.active_sessions)
        ∷ (codes "available_slots", j.of_u64 o.available_slots)
        ∷ []))

  abbrev pub offering_values : List ProviderOffering → List j.Value
  offering_values [] = []
  offering_values (o ∷ os) = offering_value o ∷ offering_values os

module _ (j : Json) (encode : List ℕ → Text) (decode : Text → Option (List ℕ)) {V C : Type 0} where
  unfoldable pub query_providers :
      ProviderQueryFilters
      → ℕ
      → ℕ
      → Router V C
      → ModelsCatalog j.Value
      → Router V C × List ProviderOffering
  unfolding offerings_with_load listings sort_by text_le visit
  query_providers filters now stale_secs r t =
      let (read, base) = offerings_with_load j encode r.capacity (listings t.by_node) in
      (
        record r { capacity = read },
        filter_map (visit decode filters now stale_secs r) (sort_by offering_le base),
      )

  unfoldable pub list_providers :
      Map Text Text → ℕ → ℕ → Router V C → ModelsCatalog j.Value → Router V C × j.Value
  unfolding query_providers from_query_map
  list_providers query now stale_secs r t =
      let (read, providers) = query_providers (from_query_map query) now stale_secs r t in
      (
        read,
        j.of_object (
            object j (
              (codes "object", j.of_str (codes "provider_list"))
              ∷ (codes "data", j.of_array (offering_values j providers))
              ∷ [])),
      )
