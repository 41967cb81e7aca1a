-- ===== src/Tests/UsageBatch.antt =====
-- The theorems of UsageBatch.antt at concrete inputs: a session that spends 30 and 12 tokens.
use sparkl_router.Common.{
  ◌+◌, ◌≡◌, none, some, true, List, [], ◌∷◌, arith, lookup, insert, total, nat_eq,
}
use sparkl_router.Config.{SettlementConfig, default_settlement}
use sparkl_router.UsageBatch.{
  SessionBatch, Batcher, Answers, add_usage, accumulate_session, take_pending,
}
use sparkl_router.UsageBatch.Conserve.{input_total, output_total}
use sparkl_router.UsageBatch.Flush.{is_accepted}
use sparkl_router.UsageBatch.Add.{counted, BelowChunk, add_usage-totals, add_usage-BelowChunk}
use sparkl_router.UsageBatch.Runs.{
  Region, accumulates, takes, forgets, step, run, over, input_of, output_of, input_lost,
  output_lost, run_conserves,
}

abbrev config : SettlementConfig
config = record default_settlement {
  record_usage_token_chunk = 40;
  record_usage_flush_interval_secs = 60;
}

abbrev answers : Answers
answers = record {
  init = some (record { input_tokens_recorded = 0; output_tokens_recorded = 0 });
  refresh = none;
}

abbrev batch : SessionBatch
batch = record {
  watermark_input = 0;
  watermark_output = 0;
  pending_input = 7;
  pending_output = 5;
  last_flush_at = 0;
  last_activity = 0;
}

abbrev batcher : Batcher
batcher = record { sessions = (1, batch) ∷ []; submitted = [] }

add_usage-totals_example :
    (input_total 1 (add_usage config 1 30 12 answers 9 batcher)
      ≡ input_total 1 batcher + counted (is_accepted 1 answers.init batcher) 1 1 30)
    × (output_total 1 (add_usage config 1 30 12 answers 9 batcher)
        ≡ output_total 1 batcher + counted (is_accepted 1 answers.init batcher) 1 1 12)
unfolding lookup total
add_usage-totals_example =
    add_usage-totals config 1 1 30 12 answers 9 batcher (omega arith) (omega arith)

add_usage-BelowChunk_example :
    BelowChunk config (lookup 1 (add_usage config 1 30 12 answers 9 batcher).sessions)
add_usage-BelowChunk_example = add_usage-BelowChunk config 1 30 12 answers 9 batcher (omega arith)

-- Tokens that are accumulated after the last flush and before the removal.
abbrev history : List Region
history = accumulates 1 30 12 9 ∷ takes 1 true 10 ∷ accumulates 1 3 2 11 ∷ forgets 1 ∷ []

run_conserves_example :
    (input_total 1 (run config history batcher) + over input_lost config history batcher 1
      ≡ input_total 1 batcher + over input_of config history batcher 1)
    × (output_total 1 (run config history batcher) + over output_lost config history batcher 1
        ≡ output_total 1 batcher + over output_of config history batcher 1)
unfolding lookup insert total step accumulate_session take_pending
run_conserves_example =
    run_conserves config history batcher 1
      ((omega arith, omega arith), (tt, ((omega arith, omega arith), (tt, tt))))
