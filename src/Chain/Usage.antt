-- ===== src/Chain/Usage.antt =====
-- src/chain/usage.rs: the transactions that report usage. What the network does with each attempt is
-- an argument; the pauses between attempts are left out.
pub mod Retry
use sparkl_router.Common.{
  ℕ, zero, suc, ◌+◌, Bool, true, false, ◌&&◌, List, [], ◌∷◌, ◌++◌, ◌==◌, if◌then◌else◌,
}
use sparkl_router.UsageBatch.{Submission}

-- The send fails, the transaction is sent and its confirmation fails, or it is confirmed.
pub data Outcome : Type 0 where
  send_fails confirm_fails confirmed : Outcome

-- The transactions that were sent, and the two counters of src/metrics.rs.
pub record Ledger : Type 0 where
  pub sent : List Submission
  pub record_usage_success : ℕ
  pub record_usage_failures : ℕ

abbrev pub send : Submission → Ledger → Ledger
send tx l = record l { sent = l.sent ++ tx ∷ [] }

-- The flag is false for an error.
unfoldable pub record_usage : Submission → Outcome → Ledger → Ledger × Bool
record_usage tx outcome l =
    if (tx.input_delta == 0) && (tx.output_delta == 0) then (l, true) else elim outcome [
      | send_fails ↦ (l, false)
      | confirm_fails ↦ (send tx l, false)
      | confirmed ↦ (send tx l, true)
    ]

abbrev pub max_attempts : ℕ
max_attempts = 3

-- The attempts that are left, and the number of the next one.
unfoldable pub attempts_from : Submission → (ℕ → Outcome) → ℕ → ℕ → Ledger → Ledger
unfolding record_usage
attempts_from tx outcomes zero attempt l = record l {
  record_usage_failures = suc l.record_usage_failures;
}
attempts_from tx outcomes (suc left) attempt l =
    let (after, ok) = record_usage tx (outcomes attempt) l in
    let rest = attempts_from tx outcomes left (suc attempt) after in
    if ok then record after { record_usage_success = suc after.record_usage_success } else rest

unfoldable pub record_usage_with_retry : Submission → (ℕ → Outcome) → Ledger → Ledger
unfolding attempts_from
record_usage_with_retry tx outcomes l = attempts_from tx outcomes max_attempts 1 l
