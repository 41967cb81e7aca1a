-- ===== src/Tests/Chain.antt =====
-- The theorems of Chain.antt at concrete inputs: one open session.
use sparkl_router.Common.{
  ℕ, zero, suc, ◌≡◌, refl, false, some, List, [], ◌∷◌, ◌++◌, arith, replicate, to_be, lookup,
  nat_eq,
}
use sparkl_router.UsageBatch.{Submission}
use sparkl_router.Chain.Session.{ChainSession, decode_session_head}
use sparkl_router.Chain.Session.Words.{join}
use sparkl_router.Chain.Session.Decode.{Skipped, IsInRange, head_words, decode_with_offset}
use sparkl_router.Chain.Cache.Fresh.{Call, gets, warms, evicts, run, answered, IsFresh, run-IsFresh}
use sparkl_router.Chain.Usage.{Outcome, confirm_fails, confirmed, Ledger, record_usage_with_retry}
use sparkl_router.Chain.Usage.Retry.{
  Counted, SentAtMost, record_usage_with_retry-bounded, failed_confirmation_sends_twice,
}

abbrev session : ChainSession
session = record {
  user = 1;
  node_id = 2;
  model_id = 3;
  tier = 1;
  locked_internal = 100;
  usage_recorded = 5;
  input_tokens_recorded = 7;
  output_tokens_recorded = 9;
  settled = false;
}

abbrev skipped : Skipped
skipped = record {
  word6 = replicate 32 0;
  word7 = replicate 32 0;
  word8 = replicate 32 0;
  word9 = replicate 32 0;
}

session-IsInRange : IsInRange session
session-IsInRange = record {
  user_bound = omega arith;
  node_id_bound = omega arith;
  model_id_bound = omega arith;
  locked_bound = omega arith;
  usage_bound = omega arith;
  input_bound = omega arith;
  output_bound = omega arith;
}

decode_with_offset_example :
    decode_session_head (to_be 32 32 ++ (join (head_words session skipped) ++ 1 ∷ []))
    ≡ some session
decode_with_offset_example =
    decode_with_offset session skipped (1 ∷ []) session-IsInRange (refl, refl, refl, refl)

abbrev calls : List Call
calls = gets 4 (some session) ∷ evicts 4 ∷ warms 4 (some session) ∷ []

run-IsFresh_example :
    IsFresh (answered 4 calls []) (lookup 4 (run calls (record { cache = [] })).cache)
run-IsFresh_example = run-IsFresh 4 calls

abbrev report : Submission
report = record { session_id = 4; input_delta = 10; output_delta = 0 }

abbrev second_time : ℕ → Outcome
second_time zero = confirmed
second_time (suc zero) = confirm_fails
second_time _ = confirmed

abbrev ledger : Ledger
ledger = record { sent = []; record_usage_success = 0; record_usage_failures = 0 }

record_usage_with_retry-bounded_example :
    Counted ledger (record_usage_with_retry report second_time ledger)
    × SentAtMost 3 report ledger (record_usage_with_retry report second_time ledger)
record_usage_with_retry-bounded_example = record_usage_with_retry-bounded report second_time ledger

failed_confirmation_sends_twice_example :
    record_usage_with_retry report second_time ledger
    ≡ record { sent = report ∷ report ∷ []; record_usage_success = 1; record_usage_failures = 0 }
failed_confirmation_sends_twice_example =
    failed_confirmation_sends_twice report second_time ledger (omega arith) refl refl
