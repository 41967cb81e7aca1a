-- ===== src/Chain/Usage/Retry.antt =====
-- How often a report of usage is sent (src/chain/usage.rs).
use mathlib.Core.List.{append_assoc, append-nil}
use sparkl_router.Common.{
  ℕ, zero, suc, ◌+◌, ◌≤◌, ◌≡◌, ◌⊎◌, inl, inr, refl, sym, ◌∙◌, false, ◌&&◌, [], ◌∷◌, ◌++◌, arith,
  ◌==◌, replicate, Bool-cases, ◌<◌,
}
use sparkl_router.UsageBatch.{Submission}
use sparkl_router.Chain.Usage.{
  Outcome, send, send_fails, confirm_fails, confirmed, Ledger, attempts_from,
  record_usage_with_retry,
}

-- Exactly one of the two counters goes up, by one.
abbrev pub Counted : Ledger → Ledger → Type 0
Counted l after =
    ((after.record_usage_success ≡ suc l.record_usage_success)
      × (after.record_usage_failures ≡ l.record_usage_failures))
    ⊎ ((after.record_usage_success ≡ l.record_usage_success)
        × (after.record_usage_failures ≡ suc l.record_usage_failures))

-- At most `most` copies of the transaction were sent.
abbrev pub SentAtMost : ℕ → Submission → Ledger → Ledger → Type 0
SentAtMost most tx l after = (n : ℕ) × (n ≤ most) × (after.sent ≡ l.sent ++ replicate n tx)

-- What is claimed of the attempts that are left.
Bounded : Submission → (ℕ → Outcome) → ℕ → ℕ → Ledger → Type 0
Bounded tx outcomes left attempt l =
    Counted l (attempts_from tx outcomes left attempt l)
    × SentAtMost left tx l (attempts_from tx outcomes left attempt l)

round-Bounded :
    (tx : Submission) (outcomes : ℕ → Outcome) (left attempt : ℕ) (l : Ledger) (o : Outcome)
    → outcomes attempt ≡ o
    → ((tx.input_delta == 0) && (tx.output_delta == 0)) ≡ false
    → ((after : Ledger) → Bounded tx outcomes left (suc attempt) after)
    → Bounded tx outcomes (suc left) attempt l
unfolding Bounded attempts_from
round-Bounded tx outcomes left attempt l send_fails e tokens ih =
    let (counted, (n, few, sent)) = ih l in
    rw (tokens, e, attempts_from) (counted, (n, omega arith, sent))
round-Bounded tx outcomes left attempt l confirm_fails e tokens ih =
    let (counted, (n, few, sent)) = ih (send tx l) in
    rw (tokens, e, attempts_from)
      (counted, (suc n, omega arith, sent ∙ append_assoc l.sent (tx ∷ []) (replicate n tx)))
round-Bounded tx outcomes left attempt l confirmed e tokens ih =
    rw (tokens, e, attempts_from) (inl (refl, refl), (1, omega arith, refl))

attempts-Bounded :
    (tx : Submission) (outcomes : ℕ → Outcome) (left attempt : ℕ) (l : Ledger)
    → Bounded tx outcomes left attempt l
unfolding Bounded attempts_from
attempts-Bounded tx outcomes zero attempt l =
    (inr (refl, refl), (0, omega arith, sym (append-nil l.sent)))
attempts-Bounded tx outcomes (suc left) attempt l =
    elim (Bool-cases ((tx.input_delta == 0) && (tx.output_delta == 0))) [
      | inl none_spent ↦
          rw (none_spent, attempts_from)
            (inl (refl, refl), (0, omega arith, sym (append-nil l.sent)))
      | inr tokens ↦
          round-Bounded tx outcomes left attempt l (outcomes attempt) refl tokens
            (attempts-Bounded tx outcomes left (suc attempt))
    ]

-- Whatever the network does, a report counts as one success or as one failure, and its transaction is
-- sent at most three times.
pub record_usage_with_retry-bounded :
    (tx : Submission) (outcomes : ℕ → Outcome) (l : Ledger)
    → Counted l (record_usage_with_retry tx outcomes l)
      × SentAtMost 3 tx l (record_usage_with_retry tx outcomes l)
unfolding record_usage_with_retry Bounded
record_usage_with_retry-bounded tx outcomes l = attempts-Bounded tx outcomes 3 1 l

attempts-unconfirmed :
    (tx : Submission) (outcomes : ℕ → Outcome) (left attempt : ℕ) (l : Ledger)
    → ((tx.input_delta == 0) && (tx.output_delta == 0)) ≡ false
    → outcomes attempt ≡ confirm_fails
    → attempts_from tx outcomes (suc left) attempt l
      ≡ attempts_from tx outcomes left (suc attempt) (send tx l)
unfolding attempts_from
attempts-unconfirmed tx outcomes left attempt l tokens e = rw (tokens, e, attempts_from) refl

attempts-confirmed :
    (tx : Submission) (outcomes : ℕ → Outcome) (left attempt : ℕ) (l : Ledger)
    → ((tx.input_delta == 0) && (tx.output_delta == 0)) ≡ false
    → outcomes attempt ≡ confirmed
    → attempts_from tx outcomes (suc left) attempt l
      ≡ record (send tx l) { record_usage_success = suc l.record_usage_success }
unfolding attempts_from
attempts-confirmed tx outcomes left attempt l tokens e = rw (tokens, e, attempts_from) refl

-- A transaction with tokens that is sent and whose confirmation fails is sent again: if the second
-- one is confirmed, the report is one success and two transactions.
pub failed_confirmation_sends_twice :
    (tx : Submission) (outcomes : ℕ → Outcome) (l : Ledger)
    → 0 < tx.input_delta + tx.output_delta
    → outcomes 1 ≡ confirm_fails
    → outcomes 2 ≡ confirmed
    → record_usage_with_retry tx outcomes l ≡ record {
      sent = l.sent ++ tx ∷ [] ++ tx ∷ [];
      record_usage_success = suc l.record_usage_success;
      record_usage_failures = l.record_usage_failures;
    }
unfolding record_usage_with_retry
failed_confirmation_sends_twice tx outcomes l tokens first second =
    let some_tokens : ((tx.input_delta == 0) && (tx.output_delta == 0)) ≡ false = ground arith in
    attempts-unconfirmed tx outcomes 2 1 l some_tokens first
    ∙ attempts-confirmed tx outcomes 1 2 (send tx l) some_tokens second
