-- ===== src/Models/Filters.antt =====
-- src/consumer/catalog.rs: the filters of `GET /v1/sparkl/providers`.
use sparkl_router.Common.{
  ℕ, ◌-◌, ◌^◌, Bool, true, not, ◌&&◌, Option, none, some, List, [], ◌∷◌, Text, codes, Map, lookup,
  insert, text_key, text_eq, if◌then◌else◌, trim, strip_prefix, from_str_radix, split,
}
use sparkl_router.Json.{◌>>=◌}

pub record ProviderQueryFilters : Type 0 where
  pub model : Option Text
  pub features_any : List Text
  pub features_all : List Text
  pub feature_value_contains : Map Text Text
  pub quantization : Option Text
  pub parameter_count : Option Text
  pub min_context_length : Option ℕ
  pub min_available_slots : Option ℕ
  pub online_only : Bool

unfoldable pub trimmed : List Text → List Text
unfolding trim
trimmed [] = []
trimmed (s ∷ parts) =
    let rest = trimmed parts in if text_eq (trim s) [] then rest else trim s ∷ rest

unfoldable pub split_csv : Option Text → List Text
unfolding split trimmed
split_csv none = []
split_csv (some t) = trimmed (split 44 t)

-- `s.parse::<u32>().ok()`
abbrev pub parse_u32 : Text → Option ℕ
parse_u32 s = from_str_radix 10 (2 ^ 32 - 1) s

unfoldable pub feature_values : Map Text Text → Map Text Text → Map Text Text
feature_values [] out = out
feature_values ((k, v) ∷ query) out =
    feature_values query (elim (strip_prefix (codes "feature_") k) [
      | none ↦ out
      | some key ↦ if text_eq key [] then out else insert key v out
    ])

abbrev pub wants_online : Option Text → Bool
wants_online none = true
wants_online (some s) = not (text_eq s (codes "false")) && not (text_eq s (codes "0"))

unfoldable pub from_query_map : Map Text Text → ProviderQueryFilters
unfolding split_csv feature_values
from_query_map query = record {
  model = lookup (codes "model") query;
  features_any = split_csv (lookup (codes "features_any") query);
  features_all = split_csv (lookup (codes "features_all") query);
  feature_value_contains = feature_values query [];
  quantization = lookup (codes "quantization") query;
  parameter_count = lookup (codes "parameter_count") query;
  min_context_length = lookup (codes "min_context_length") query >>= parse_u32;
  min_available_slots = lookup (codes "min_available_slots") query >>= parse_u32;
  online_only = wants_online (lookup (codes "online_only") query);
}
