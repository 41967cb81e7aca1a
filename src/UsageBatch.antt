-- ===== src/UsageBatch.antt =====
-- src/consumer/usage_batch.rs: the tokens of each session are added up and submitted to the chain in
-- batches. What the chain answers and the time, in nanoseconds, are arguments. Each region under the lock
-- of a session is a function; a method composes them as one task runs them, and Runs.antt takes them in
-- any order, as several tasks do.
pub mod Conserve
pub mod Flush
pub mod Add
pub mod Runs
pub mod Cached
use sparkl_router.Common.{
  ℕ, zero, suc, ◌+◌, ◌-◌, ◌*◌, ◌≡◌, Bool, true, false, not, ◌&&◌, Option, none, some, List, [], ◌∷◌,
  ◌++◌, ltb, leb, ◌==◌, if◌then◌else◌, is_some, max, saturating_add, Map, lookup, insert, remove,
  nat_eq,
}
use sparkl_router.Config.{SettlementConfig}

-- The two counters that the batcher reads of a `ChainSession`.
pub record Watermarks : Type 0 where
  pub input_tokens_recorded : ℕ
  pub output_tokens_recorded : ℕ

pub record SessionBatch : Type 0 where
  pub watermark_input : ℕ
  pub watermark_output : ℕ
  pub pending_input : ℕ
  pub pending_output : ℕ
  pub last_flush_at : ℕ
  pub last_activity : ℕ

abbrev pub new_batch : Watermarks → ℕ → SessionBatch
new_batch w now = record {
  watermark_input = w.input_tokens_recorded;
  watermark_output = w.output_tokens_recorded;
  pending_input = 0;
  pending_output = 0;
  last_flush_at = now;
  last_activity = now;
}

abbrev pub pending_total : SessionBatch → ℕ
pending_total g = saturating_add g.pending_input g.pending_output

-- A call of `record_usage_with_retry`.
pub record Submission : Type 0 where
  pub session_id : ℕ
  pub input_delta : ℕ
  pub output_delta : ℕ

-- `submitted` lists the submissions in their order.
pub record Batcher : Type 0 where
  pub sessions : Map ℕ SessionBatch
  pub submitted : List Submission

abbrev pub flush_interval : SettlementConfig → ℕ
flush_interval config = max config.record_usage_flush_interval_secs 1 * 1_000_000_000

abbrev pub token_chunk : SettlementConfig → ℕ
token_chunk config = max config.record_usage_token_chunk 1

-- `fetched` is what `get_session` answers, an error being `none`.
unfoldable pub ensure_session : ℕ → Option Watermarks → ℕ → Batcher → Batcher
ensure_session id fetched now b = elim (lookup id b.sessions) [
  | some g ↦ b
  | none ↦ elim fetched [
    | some w ↦ record b { sessions = insert id (new_batch w now) b.sessions }
    | none ↦ b
  ]
]

-- The refresh of the watermarks after a submission.
abbrev pub refresh_watermarks : Watermarks → SessionBatch → SessionBatch
refresh_watermarks w g = record g {
  watermark_input = w.input_tokens_recorded;
  watermark_output = w.output_tokens_recorded;
}

-- The two calls of `get_session` in `flush_session`.
pub record Answers : Type 0 where
  pub init : Option Watermarks
  pub refresh : Option Watermarks

-- Whether a flush that is not forced is skipped.
abbrev pub is_early : SettlementConfig → ℕ → SessionBatch → Bool
is_early config now g =
    ltb (pending_total g) (token_chunk config)
    && ltb (now - g.last_flush_at) (flush_interval config)

abbrev pub cleared : ℕ → SessionBatch → SessionBatch
cleared now g = record g { pending_input = 0; pending_output = 0; last_flush_at = now }

-- The region of `flush_session` under the lock, and whether it submits.
unfoldable pub take_pending : SettlementConfig → ℕ → Bool → ℕ → Batcher → Batcher × Bool
take_pending config id force now b = elim (lookup id b.sessions) [
  | none ↦ (b, false)
  | some g ↦
      if pending_total g == 0
      then (b, false)
      else if not force && is_early config now g
      then (b, false)
      else (
        record {
          sessions = insert id (cleared now g) b.sessions;
          submitted =
              b.submitted
              ++ record {
                session_id = id;
                input_delta = g.pending_input;
                output_delta = g.pending_output;
              }
                ∷ [];
        },
        true,
      )
]

-- The last region of `flush_session`, with what `get_session` answers.
unfoldable pub refresh_session : ℕ → Option Watermarks → Batcher → Batcher
refresh_session id none b = b
refresh_session id (some w) b = elim (lookup id b.sessions) [
  | none ↦ b
  | some g ↦ record b { sessions = insert id (refresh_watermarks w g) b.sessions }
]

-- What a flush does to the batcher; with the cache of sessions it is `flush_cached`.
unfoldable pub flush_session : SettlementConfig → ℕ → Bool → Answers → ℕ → Batcher → Batcher
unfolding ensure_session take_pending refresh_session
flush_session config id force answers now b =
    let (taken, submits) =
      take_pending config id force now (ensure_session id answers.init now b) in
    if submits then refresh_session id answers.refresh taken else taken

abbrev pub accumulate : ℕ → ℕ → ℕ → SessionBatch → SessionBatch
accumulate input output now g = record g {
  pending_input = saturating_add g.pending_input input;
  pending_output = saturating_add g.pending_output output;
  last_activity = now;
}

-- The region of `add_usage` under the lock, and whether a chunk is reached.
unfoldable pub accumulate_session : SettlementConfig → ℕ → ℕ → ℕ → ℕ → Batcher → Batcher × Bool
accumulate_session config id input output now b = elim (lookup id b.sessions) [
  | none ↦ (b, false)
  | some g ↦ (
    record b { sessions = insert id (accumulate input output now g) b.sessions },
    leb (token_chunk config) (pending_total (accumulate input output now g)),
  )
]

unfoldable pub add_usage : SettlementConfig → ℕ → ℕ → ℕ → Answers → ℕ → Batcher → Batcher
unfolding flush_session ensure_session accumulate_session
add_usage config id input output answers now b =
    if (input == 0) && (output == 0)
    then b
    else let (added, full) =
        accumulate_session config id input output now (ensure_session id answers.init now b) in
      if full then flush_session config id false answers now added else added

abbrev pub force_flush : SettlementConfig → ℕ → Answers → ℕ → Batcher → Batcher
force_flush config id answers now b = flush_session config id true answers now b

-- `sessions.remove`
abbrev pub forget_session : ℕ → Batcher → Batcher
forget_session id b = record b { sessions = remove id b.sessions }

unfoldable pub remove_session : SettlementConfig → ℕ → Answers → ℕ → Batcher → Batcher
unfolding flush_session
remove_session config id answers now b =
    forget_session id (flush_session config id true answers now b)

-- One round of the sweep.
unfoldable pub sweep_one : SettlementConfig → (ℕ → Answers) → ℕ → ℕ → Batcher → Batcher
unfolding flush_session
sweep_one config answers now id b = elim (lookup id b.sessions) [
  | none ↦ b
  | some g ↦
      if ltb 0 (pending_total g) && leb (flush_interval config) (now - g.last_flush_at)
      then flush_session config id true (answers id) now b
      else b
]

abbrev pub ids_of : Map ℕ SessionBatch → List ℕ
ids_of [] = []
ids_of ((id, g) ∷ m) = id ∷ ids_of m

unfoldable pub sweep_ids : SettlementConfig → (ℕ → Answers) → ℕ → List ℕ → Batcher → Batcher
unfolding sweep_one
sweep_ids config answers now [] b = b
sweep_ids config answers now (id ∷ ids) b =
    sweep_ids config answers now ids (sweep_one config answers now id b)

abbrev pub sweep_timeouts : SettlementConfig → (ℕ → Answers) → ℕ → Batcher → Batcher
sweep_timeouts config answers now b = sweep_ids config answers now (ids_of b.sessions) b

unfoldable pub flush_ids : SettlementConfig → (ℕ → Answers) → ℕ → List ℕ → Batcher → Batcher
unfolding flush_session
flush_ids config answers now [] b = b
flush_ids config answers now (id ∷ ids) b =
    flush_ids config answers now ids (flush_session config id true (answers id) now b)

abbrev pub flush_all_on_shutdown : SettlementConfig → (ℕ → Answers) → ℕ → Batcher → Batcher
flush_all_on_shutdown config answers now b = flush_ids config answers now (ids_of b.sessions) b
