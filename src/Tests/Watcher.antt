-- ===== src/Tests/Watcher.antt =====
-- The theorems of Chain/Watcher.antt at concrete inputs: session 4 is released in block 11.
use sparkl_router.Common.{ℕ, refl, false, Option, none, some, List, [], ◌∷◌, arith, nat_eq}
use sparkl_router.Config.{SettlementConfig, default_settlement}
use sparkl_router.Chain.Session.{ChainSession}
use sparkl_router.UsageBatch.{SessionBatch}
use sparkl_router.Chain.Watcher.{Watcher, Provider, poll_once, watch}
use sparkl_router.Chain.Watcher.Blocks.{Reads, watch-Reads}

abbrev config : SettlementConfig
config = record default_settlement {
  record_usage_token_chunk = 40;
  record_usage_flush_interval_secs = 60;
}

abbrev session : ChainSession
session = record {
  user = 1;
  node_id = 2;
  model_id = 3;
  tier = 1;
  locked_internal = 100;
  usage_recorded = 5;
  input_tokens_recorded = 7;
  output_tokens_recorded = 9;
  settled = false;
}

abbrev provider : Option (List ℕ) → Provider
provider released = record {
  get_block_number = some 12;
  opened = λ from_block to_block. some (5 ∷ []);
  released = λ from_block to_block. released;
  fetch = λ id. some session;
  flush_fetches = λ id. record { init = none; refresh = some session; warm = some session };
  remove_fetches = λ id. record { init = none; refresh = none; warm = none };
}

abbrev batch : SessionBatch
batch = record {
  watermark_input = 0;
  watermark_output = 0;
  pending_input = 7;
  pending_output = 5;
  last_flush_at = 0;
  last_activity = 0;
}

abbrev watcher : Watcher
watcher = record {
  verifier = record { cache = (4, session) ∷ [] };
  usage_batcher = some (record { sessions = (4, batch) ∷ []; submitted = [] });
  last_block = 10;
  opened_read = [];
  released_read = [];
}

-- The second query of the first poll fails.
abbrev polls : List (Provider × ℕ)
polls = (provider none, 0) ∷ (provider (some (4 ∷ [])), 6) ∷ (provider (some []), 12) ∷ []

watch-Reads_example : Reads 11 watcher (watch config polls watcher).0
unfolding watch poll_once
watch-Reads_example = watch-Reads config polls watcher 11 (omega arith) refl
