-- ===== src/Models/Merge.antt =====
-- src/consumer/models.rs: the entry that the union shows for a model which several nodes offer. A
-- panic, that of `expect`, is `none`.
use sparkl_router.Common.{
  ℕ, ◌-◌, Bool, Option, none, some, List, [], ◌∷◌, ◌++◌, Text, codes, Map, lookup, insert, text_key,
  ltb, ◌||◌, false, if◌then◌else◌, saturating_add,
}
use sparkl_router.Json.{Json, ◌>>=◌, or_else, unwrap_or, get, object}
use sparkl_router.Models.Offering.{ProviderOffering, build_offering_with_load}

-- One entry of one node: the inner loops' variables.
pub record Listing (V : Type 0) : Type 0 where
  pub node_id : ℕ
  pub model_id : Text
  pub entry : V

module _ (j : Json) where
  -- `HashMap<String, String>` as JSON.
  abbrev pub text_values : Map Text Text → Map Text j.Value
  text_values [] = []
  text_values ((k, s) ∷ m) = (k, j.of_str s) ∷ text_values m

  abbrev pub offering_json : ProviderOffering → j.Value
  offering_json o = j.of_object (
      object j (
        (codes "node_id", j.of_str o.node_id)
        ∷ (codes "model_id", j.of_str o.model_id)
        ∷ (codes "context_length", j.of_u64 o.context_length)
        ∷ (codes "quantization", j.of_str o.quantization)
        ∷ (codes "parameter_count", j.of_str o.parameter_count)
        ∷ (codes "source_url", j.of_str o.source_url)
        ∷ (codes "features", j.of_object (object j (text_values o.features)))
        ∷ (codes "active_requests", j.of_u64 o.active_requests)
        ∷ (codes "active_sessions", j.of_u64 o.active_sessions)
        ∷ (codes "queued_requests", j.of_u64 o.queued_requests)
        ∷ (codes "concurrency", j.of_u64 o.concurrency)
        ∷ (codes "available_slots", j.of_u64 o.available_slots)
        ∷ []))

  -- The offering that a listing makes without the router's own counts.
  abbrev pub plain_offering : (List ℕ → Text) → Listing j.Value → ProviderOffering
  plain_offering encode l =
      build_offering_with_load j encode l.node_id l.model_id l.entry (codes "unknown") none none

  unfoldable pub provider_snapshot : (List ℕ → Text) → Listing j.Value → j.Value
  provider_snapshot encode l = offering_json (plain_offering encode l)

  abbrev pub provider_active : j.Value → ℕ
  provider_active p =
      unwrap_or
        (or_else (get j p (codes "active_requests")) (get j p (codes "active_sessions"))
          >>= j.as_u64)
        0

  abbrev pub provider_concurrency : j.Value → ℕ
  provider_concurrency p = unwrap_or (get j p (codes "concurrency") >>= j.as_u64) 0

  unfoldable pub total_active : List j.Value → ℕ → ℕ
  total_active [] n = n
  total_active (p ∷ ps) n = total_active ps (saturating_add n (provider_active p))

  unfoldable pub total_available : List j.Value → ℕ → ℕ
  total_available [] n = n
  total_available (p ∷ ps) n = total_available ps (
      if ltb 0 (provider_concurrency p)
      then saturating_add n (provider_concurrency p - provider_active p)
      else n)

  unfoldable pub any_limited : List j.Value → Bool
  any_limited [] = false
  any_limited (p ∷ ps) = ltb 0 (provider_concurrency p) || any_limited ps

  unfoldable pub apply_aggregated_load : j.Object → List j.Value → j.Object
  unfolding total_active total_available any_limited
  apply_aggregated_load sparkl providers =
      let active = j.of_u64 (total_active providers 0) in
      let available = total_available providers 0 in
      let loaded =
        j.put (codes "active_sessions") active (j.put (codes "active_requests") active sparkl) in
      if ltb 0 available || any_limited providers
      then j.put (codes "available_slots") (j.of_u64 available) loaded
      else loaded

  -- `obj.entry(key).or_insert_with(…)`
  abbrev pub or_insert : Text → j.Value → j.Object → j.Value
  or_insert key v o = unwrap_or (j.find o key) v

  abbrev pub put_sparkl : j.Object → j.Object → j.Value
  put_sparkl sparkl o = j.of_object (j.put (codes "sparkl") (j.of_object sparkl) o)

  abbrev pub sparkl_of : j.Object → Option j.Object
  sparkl_of o = j.as_object (or_insert (codes "sparkl") (j.of_object j.empty) o)

  unfoldable pub merge_model_entry :
      (List ℕ → Text) → Map Text j.Value → Listing j.Value → Option (Map Text j.Value)
  unfolding provider_snapshot apply_aggregated_load
  merge_model_entry encode merged l =
      let provider = provider_snapshot encode l in
      elim (lookup l.model_id merged) [
        | none ↦ elim (j.as_object l.entry) [
          | none ↦ some (insert l.model_id l.entry merged)
          | some obj ↦ do
            sparkl ← sparkl_of obj
            let shown = j.put (codes "providers") (j.of_array (provider ∷ [])) sparkl
            let loaded = apply_aggregated_load shown (provider ∷ [])
            some (insert l.model_id (put_sparkl loaded obj) merged)
        ]
        | some existing ↦ elim (j.as_object existing) [
          | none ↦ some merged
          | some obj ↦ do
            sparkl ← sparkl_of obj
            before ← j.as_array (or_insert (codes "providers") (j.of_array []) sparkl)
            let providers = before ++ provider ∷ []
            let shown = j.put (codes "providers") (j.of_array providers) sparkl
            let loaded = apply_aggregated_load shown providers
            some (insert l.model_id (put_sparkl loaded obj) merged)
        ]
      ]

  unfoldable pub merge_all :
      (List ℕ → Text) → List (Listing j.Value) → Map Text j.Value → Option (Map Text j.Value)
  unfolding merge_model_entry
  merge_all encode [] merged = some merged
  merge_all encode (l ∷ ls) merged = do
    next ← merge_model_entry encode merged l
    merge_all encode ls next
