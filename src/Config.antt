-- ===== src/Config.antt =====
-- src/config.rs: the sections of the configuration, and what stands for a setting that the file leaves
-- out. The `config` crate reads the file and the environment. `queue_depth_ratio`, a number with a
-- point, has the type `R`.
use sparkl_router.Common.{ℕ, Bool, true, false, not, ◌&&◌, Option, [], Text, codes, text_eq, trim}
use sparkl_router.Json.{unwrap_or}

pub record ServerConfig : Type 0 where
  pub bind : Text
  pub router_url : Text
  pub upstream_timeout_secs : ℕ

pub record ChainConfig : Type 0 where
  pub rpc_url : Text
  pub registry_contract : Text
  pub escrow_contract : Text
  pub session_cache_ttl_secs : ℕ
  pub enabled : Bool

pub record NodeAuthConfig : Type 0 where
  pub ping_interval_secs : ℕ
  pub pong_timeout_secs : ℕ

pub record MetricsConfig : Type 0 where
  pub bind : Text

pub record PortalConfig : Type 0 where
  pub admin_token : Text
  pub stale_threshold_secs : ℕ
  pub models_refresh_on_pong_secs : ℕ

pub record CapacityConfig (R : Type 0) : Type 0 where
  pub queue_depth_ratio : R
  pub queue_wait_timeout_secs : ℕ

pub record SettlementConfig : Type 0 where
  pub data_dir : Text
  pub enabled : Bool
  pub record_usage_private_key : Text
  pub registry_owner_private_key : Text
  pub record_usage_enabled : Bool
  pub record_usage_token_chunk : ℕ
  pub record_usage_flush_interval_secs : ℕ
  pub enforce_session_budget : Bool

pub record Config (R : Type 0) : Type 0 where
  pub server : ServerConfig
  pub chain : ChainConfig
  pub node_auth : NodeAuthConfig
  pub metrics : MetricsConfig
  pub portal : PortalConfig
  pub capacity : CapacityConfig R
  pub settlement : SettlementConfig

-- The sections from the settings that may be left out.
unfoldable pub server_config : Text → Option Text → Option ℕ → ServerConfig
server_config bind router_url timeout = record {
  bind = bind;
  router_url = unwrap_or router_url (codes "http://127.0.0.1:3001");
  upstream_timeout_secs = unwrap_or timeout 120;
}

unfoldable pub chain_config : Text → Text → Text → Option ℕ → Option Bool → ChainConfig
chain_config rpc_url registry escrow ttl enabled = record {
  rpc_url = rpc_url;
  registry_contract = registry;
  escrow_contract = escrow;
  session_cache_ttl_secs = unwrap_or ttl 12;
  enabled = unwrap_or enabled true;
}

unfoldable pub node_auth_config : Option ℕ → Option ℕ → NodeAuthConfig
node_auth_config ping pong = record {
  ping_interval_secs = unwrap_or ping 30;
  pong_timeout_secs = unwrap_or pong 10;
}

unfoldable pub portal_config : Text → Option ℕ → Option ℕ → PortalConfig
portal_config admin_token stale refresh = record {
  admin_token = admin_token;
  stale_threshold_secs = unwrap_or stale 40;
  models_refresh_on_pong_secs = unwrap_or refresh 60;
}

-- `one` is 1.0.
unfoldable pub default_capacity : {R : Type 0} → R → CapacityConfig R
default_capacity one = record { queue_depth_ratio = one; queue_wait_timeout_secs = 60 }

abbrev pub default_settlement : SettlementConfig
default_settlement = record {
  data_dir = [];
  enabled = false;
  record_usage_private_key = [];
  registry_owner_private_key = [];
  record_usage_enabled = true;
  record_usage_token_chunk = 10000;
  record_usage_flush_interval_secs = 60;
  enforce_session_budget = true;
}

unfoldable pub is_active : Bool → SettlementConfig → Bool
unfolding trim
is_active chain_enabled s =
    chain_enabled
    && (s.enabled && (s.record_usage_enabled && not (text_eq (trim s.record_usage_private_key) [])))
