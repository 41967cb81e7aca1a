-- ===== src/Models/Offering.antt =====
-- src/consumer/offerings.rs: one model of one node, read from the entry that the node sent.
use sparkl_router.Common.{
  ℕ, ◌+◌, ◌-◌, ◌*◌, ◌^◌, ◌%◌, Bool, Option, none, some, List, [], ◌∷◌, ◌++◌, Text, codes, Map,
  insert, text_key, ltb, leb, if◌then◌else◌, to_be,
}
use sparkl_router.Json.{Json, ◌>>=◌, or_else, unwrap_or, get, pointer}

pub record ProviderOffering : Type 0 where
  pub node_id : Text
  pub model_id : Text
  pub tunnel_status : Text
  pub context_length : ℕ
  pub quantization : Text
  pub parameter_count : Text
  pub source_url : Text
  pub features : Map Text Text
  pub concurrency : ℕ
  pub active_requests : ℕ
  pub queued_requests : ℕ
  pub active_sessions : ℕ
  pub available_slots : ℕ

-- `as u32`
abbrev pub as_u32 : ℕ → ℕ
as_u32 n = n % 2 ^ 32

abbrev pub max_u32 : ℕ
max_u32 = 2 ^ 32 - 1

-- `hex::encode` is a parameter.
unfoldable pub node_id_key : (List ℕ → Text) → ℕ → Text
node_id_key encode node_id = codes "0x" ++ encode (to_be 32 node_id)

module _ (j : Json) where
  unfoldable pub feature_entries : Map Text j.Value → Map Text Text → Map Text Text
  feature_entries [] out = out
  feature_entries ((k, v) ∷ m) out =
      feature_entries m (elim (j.as_str v) [ none ↦ out | some s ↦ insert k s out ])

  unfoldable pub parse_features_map : Option j.Value → Map Text Text
  unfolding feature_entries
  parse_features_map v = elim (v >>= j.as_object) [
    | none ↦ []
    | some o ↦ feature_entries (j.entries o) []
  ]

  abbrev pub number_at : j.Value → Text → ℕ
  number_at entry key = as_u32 (unwrap_or (pointer j entry (codes "sparkl") key >>= j.as_u64) 0)

  abbrev pub catalog_active : j.Value → ℕ
  catalog_active entry = as_u32 (
      unwrap_or
        (or_else (pointer j entry (codes "sparkl") (codes "active_requests"))
            (pointer j entry (codes "sparkl") (codes "active_sessions"))
          >>= j.as_u64)
        0)

  abbrev pub text_at : j.Value → Text → Text
  text_at entry key = unwrap_or (pointer j entry (codes "sparkl") key >>= j.as_str) []

  -- `concurrency.saturating_sub(active)`, or no bound.
  abbrev pub free_slots : ℕ → ℕ → ℕ
  free_slots concurrency active = if ltb 0 concurrency then concurrency - active else max_u32

  unfoldable pub build_offering_with_load :
      (List ℕ → Text) → ℕ → Text → j.Value → Text → Option ℕ → Option ℕ → ProviderOffering
  unfolding node_id_key parse_features_map
  build_offering_with_load encode node_id model_id entry tunnel_status router_active router_queued =
      let active_requests = unwrap_or router_active (catalog_active entry) in
      let concurrency = number_at entry (codes "concurrency") in
      record {
        node_id = node_id_key encode node_id;
        model_id = model_id;
        tunnel_status = tunnel_status;
        context_length = as_u32 (unwrap_or (get j entry (codes "context_length") >>= j.as_u64) 0);
        quantization = text_at entry (codes "quantization");
        parameter_count = text_at entry (codes "parameter_count");
        source_url = text_at entry (codes "source_url");
        features = parse_features_map (pointer j entry (codes "sparkl") (codes "features"));
        concurrency = concurrency;
        active_requests = active_requests;
        queued_requests = unwrap_or router_queued 0;
        active_sessions = active_requests;
        available_slots = free_slots concurrency active_requests;
      }

-- Whether `now - last_pong`, a signed number, is at most `bound as i64` for a `u64` bound.
abbrev pub age_le : ℕ → ℕ → ℕ → Bool
age_le now last_pong bound =
    if ltb bound (2 ^ 63)
    then leb now (last_pong + bound)
    else leb (now + 2 ^ 64) (last_pong + bound)

unfoldable pub tunnel_status_for_pong : ℕ → ℕ → ℕ → Text
tunnel_status_for_pong now last_pong stale_secs =
    if age_le now last_pong stale_secs
    then codes "online"
    else if age_le now last_pong ((stale_secs * 2) % 2 ^ 64)
    then codes "degraded"
    else codes "offline"
