-- ===== src/UsageBatch/Add.antt =====
-- What `add_usage` (src/consumer/usage_batch.rs) adds, and when it submits.
use sparkl_router.Common.{
  ℕ, ◌+◌, ◌≤◌, ◌<◌, ◌^◌, ◌≡◌, ap, sym, is_some, Option-cases, ◌∙◌, inl, inr, Bool, false, ◌&&◌,
  Option, none, some, arith, leb, ◌==◌, if◌then◌else◌, Bool-cases, lookup, insert, nat_eq,
  lookup-insert, lookup-insert_self,
}
use sparkl_router.Config.{SettlementConfig}
use sparkl_router.UsageBatch.{
  Watermarks, accumulate_session, SessionBatch, Batcher, Answers, pending_total, ensure_session,
  flush_session, add_usage, accumulate, token_chunk,
}
use sparkl_router.UsageBatch.Conserve.{
  input_total, output_total, ensure_session-totals, flush_session-totals,
}
use sparkl_router.UsageBatch.Flush.{is_accepted, ensured, ensured_cases, flushed-IsEmptied}

-- What a call of `add_usage` for session `id` adds to session `k`.
abbrev pub counted : Bool → ℕ → ℕ → ℕ → ℕ
counted accepted id k n = if accepted && (id == k) then n else 0

-- The session has a batch.
abbrev pub is_known : ℕ → Batcher → Bool
is_known id b = is_some (lookup id b.sessions)

pub accumulate_session-totals :
    (config : SettlementConfig) (id k input output now : ℕ) (b : Batcher)
    → input_total id b + input < 2 ^ 64
    → output_total id b + output < 2 ^ 64
    → let b' = (accumulate_session config id input output now b).0 in
      (input_total k b' ≡ input_total k b + counted (is_known id b) id k input)
      × (output_total k b' ≡ output_total k b + counted (is_known id b) id k output)
unfolding accumulate_session
accumulate_session-totals config id k input output now b small_in small_out =
    elim (Option-cases (lookup id b.sessions)) [
      | inl missing ↦ rw (missing, accumulate_session) (omega arith, omega arith)
      | inr (g, found) ↦
          rw (found, accumulate_session)
            (
              ground (arith, found, lookup-insert id k (accumulate input output now g) b.sessions),
              ground (arith, found, lookup-insert id k (accumulate input output now g) b.sessions),
            )
    ]

is_known-ensure_session :
    (id : ℕ) (fetched : Option Watermarks) (now : ℕ) (b : Batcher)
    → is_known id (ensure_session id fetched now b) ≡ is_accepted id fetched b
is_known-ensure_session id fetched now b = elim (ensured_cases id fetched now b) [
  | inl (missing, rejected) ↦ ap is_some missing ∙ sym rejected
  | inr (g, found, accepted) ↦ ap is_some found ∙ sym accepted
]

-- Tokens of a session that is known, or that the chain answers for, are all accounted for, and those
-- of no other session change; tokens of any other session are dropped. No sum may reach 2^64.
pub add_usage-totals :
    (config : SettlementConfig) (id k input output : ℕ) (answers : Answers) (now : ℕ) (b : Batcher)
    → input_total id b + input < 2 ^ 64
    → output_total id b + output < 2 ^ 64
    → (input_total k (add_usage config id input output answers now b)
        ≡ input_total k b + counted (is_accepted id answers.init b) id k input)
      × (output_total k (add_usage config id input output answers now b)
          ≡ output_total k b + counted (is_accepted id answers.init b) id k output)
unfolding add_usage
add_usage-totals config id k input output answers now b small_in small_out =
    let b' = ensure_session id answers.init now b in
    let same = ensure_session-totals id answers.init now b in
    let added = (accumulate_session config id input output now b').0 in
    let (a_in, a_out) =
      accumulate_session-totals config id k input output now b' (omega (arith, (same id).0))
        (omega (arith, (same id).1)) in
    let known = is_known-ensure_session id answers.init now b in
    let (f_in, f_out) = flush_session-totals config id false answers now added k in
    elim (Bool-cases ((input == 0) && (output == 0))) [
      | inl nothing ↦ rw (nothing, add_usage) (ground arith, ground arith)
      | inr some_tokens ↦ elim (Bool-cases (accumulate_session config id input output now b').1) [
        | inl full ↦
            rw (some_tokens, full, ← known, add_usage)
              (omega (arith, f_in, a_in, (same k).0), omega (arith, f_out, a_out, (same k).1))
        | inr below ↦
            rw (some_tokens, below, ← known, add_usage)
              (omega (arith, a_in, (same k).0), omega (arith, a_out, (same k).1))
      ]
    ]

-- What stays pending after a call: less than a chunk.
abbrev pub BelowChunk : SettlementConfig → Option SessionBatch → Type 0
BelowChunk config none = Unit {0}
BelowChunk config (some g) = pending_total g < token_chunk config

-- A batch that has reached the chunk is submitted by a flush that is not forced.
flushed-BelowChunk :
    (config : SettlementConfig) (id : ℕ) (answers : Answers) (now : ℕ) (b : Batcher)
    (g : SessionBatch)
    → lookup id b.sessions ≡ some g
    → token_chunk config ≤ pending_total g
    → BelowChunk config (lookup id (flush_session config id false answers now b).sessions)
flushed-BelowChunk config id answers now b g here full =
    let still : lookup id (ensure_session id answers.init now b).sessions ≡ some g =
      ap (λ c. lookup id c.sessions) (ensured id answers.init now b g here) ∙ here in
    let (g', (found, (no_in, no_out))) =
      flushed-IsEmptied config id false answers now b g still (ground arith) (ground arith) in
    rw found (ground (arith, no_in, no_out))

-- After tokens are added, less than a chunk of the session is pending: a call that reaches the chunk
-- submits the whole of it at once.
pub add_usage-BelowChunk :
    (config : SettlementConfig) (id input output : ℕ) (answers : Answers) (now : ℕ) (b : Batcher)
    → 0 < input + output
    → BelowChunk config (lookup id (add_usage config id input output answers now b).sessions)
unfolding add_usage accumulate_session
add_usage-BelowChunk config id input output answers now b tokens =
    let b' = ensure_session id answers.init now b in
    let some_tokens : ((input == 0) && (output == 0)) ≡ false = ground arith in
    elim (ensured_cases id answers.init now b) [
      | inl (missing, _) ↦ rw (some_tokens, missing, add_usage, accumulate_session) (rw missing tt)
      | inr (g, found, _) ↦
          let g' = accumulate input output now g in
          let added = record b' { sessions = insert id g' b'.sessions } in
          let here = lookup-insert_self id g' b'.sessions in
          elim (Bool-cases (leb (token_chunk config) (pending_total g'))) [
            | inr below ↦
                rw (some_tokens, found, below, add_usage, accumulate_session)
                  (rw here (ground arith))
            | inl full ↦
                rw (some_tokens, found, full, add_usage, accumulate_session)
                  (flushed-BelowChunk config id answers now added g' here (ground arith))
          ]
    ]
