-- ===== src/UsageBatch/Flush.antt =====
-- When the batcher flushes (src/consumer/usage_batch.rs), and that a removal that no other task
-- interrupts loses nothing.
use sparkl_router.Common.{
  ℕ, ◌-◌, ◌≡◌, refl, ◌∙◌, ◌⊎◌, inl, inr, Bool, true, false, not, ◌&&◌, ◌||◌, Option, none, some,
  List, [], ◌∷◌, arith, ltb, leb, ◌==◌, ==_iff, is_some, Bool-cases, Option-cases, lookup, remove,
  nat_eq, lookup-insert_self, lookup-remove,
}
use sparkl_router.Config.{SettlementConfig}
use sparkl_router.UsageBatch.{
  Watermarks, SessionBatch, Batcher, Answers, new_batch, pending_total, ensure_session,
  take_pending, refresh_session, cleared, is_early, flush_session, remove_session, sweep_one,
  sweep_ids, flush_ids, refresh_watermarks, flush_interval,
}
use sparkl_router.UsageBatch.Conserve.{
  pending_input_of, pending_output_of, input_total, output_total, SameTotals, flush_session-totals,
}

pub ensured :
    (id : ℕ) (fetched : Option Watermarks) (now : ℕ) (b : Batcher) (g : SessionBatch)
    → lookup id b.sessions ≡ some g
    → ensure_session id fetched now b ≡ b
unfolding ensure_session
ensured id fetched now b g h = rw (h, ensure_session)

-- A session that the batcher has, or can learn of.
abbrev pub is_accepted : ℕ → Option Watermarks → Batcher → Bool
is_accepted id fetched b = is_some (lookup id b.sessions) || is_some fetched

pub ensured_cases :
    (id : ℕ) (fetched : Option Watermarks) (now : ℕ) (b : Batcher)
    → ((lookup id (ensure_session id fetched now b).sessions ≡ none)
        × (is_accepted id fetched b ≡ false))
      ⊎ ((g : SessionBatch) × (lookup id (ensure_session id fetched now b).sessions ≡ some g)
          × (is_accepted id fetched b ≡ true))
unfolding ensure_session
ensured_cases id fetched now b = elim (Option-cases (lookup id b.sessions)) [
  | inr (g, h) ↦ inr (g, rw (h, ensure_session) h, rw h refl)
  | inl h ↦ elim (Option-cases fetched) [
    | inl e ↦ inl (rw (h, e, ensure_session) h, rw (h, e) refl)
    | inr (w, e) ↦ inr (
      new_batch w now,
      rw (h, e, ensure_session) (lookup-insert_self id (new_batch w now) b.sessions),
      rw (h, e) refl,
    )
  ]
]

-- A session with a batch that has nothing pending.
abbrev pub IsEmptied : ℕ → Batcher → Type 0
IsEmptied id b =
    (g : SessionBatch) × ((lookup id b.sessions ≡ some g)
      × ((g.pending_input ≡ 0) × (g.pending_output ≡ 0)))

refreshed-IsEmptied :
    (id : ℕ) (fetched : Option Watermarks) (b : Batcher)
    → IsEmptied id b
    → IsEmptied id (refresh_session id fetched b)
unfolding refresh_session
refreshed-IsEmptied id none b h = h
refreshed-IsEmptied id (some w) b (g, (found, (i, o))) =
    rw (found, refresh_session)
      (refresh_watermarks w g, (lookup-insert_self id (refresh_watermarks w g) b.sessions, (i, o)))

-- A flush that submits leaves nothing of its session pending.
pub flushed-IsEmptied :
    (config : SettlementConfig) (id : ℕ) (force : Bool) (answers : Answers) (now : ℕ) (b : Batcher)
    (g : SessionBatch)
    → lookup id (ensure_session id answers.init now b).sessions ≡ some g
    → (pending_total g == 0) ≡ false
    → (not force && is_early config now g) ≡ false
    → IsEmptied id (flush_session config id force answers now b)
unfolding flush_session take_pending
flushed-IsEmptied config id force answers now b g found more late =
    let b' = ensure_session id answers.init now b in
    rw (found, more, late, flush_session, take_pending)
      (refreshed-IsEmptied id answers.refresh _
        (cleared now g, (lookup-insert_self id (cleared now g) b'.sessions, (refl, refl))))

-- After a forced flush nothing of the session is pending.
forced_empty :
    (config : SettlementConfig) (id : ℕ) (answers : Answers) (now : ℕ) (b : Batcher)
    → (pending_input_of (lookup id (flush_session config id true answers now b).sessions) ≡ 0)
      × (pending_output_of (lookup id (flush_session config id true answers now b).sessions) ≡ 0)
unfolding flush_session take_pending
forced_empty config id answers now b =
    let b' = ensure_session id answers.init now b in
    elim (Option-cases (lookup id b'.sessions)) [
      | inl missing ↦ rw (missing, flush_session, take_pending) (rw missing (refl, refl))
      | inr (g, found) ↦ elim (Bool-cases (pending_total g == 0)) [
        | inl empty ↦
            rw (found, empty, flush_session, take_pending) (rw found (ground arith, ground arith))
        | inr more ↦
            let (g', (here, none_left)) =
              flushed-IsEmptied config id true answers now b g found more refl in
            rw here none_left
      ]
    ]

removed-totals :
    (id k : ℕ) (b : Batcher)
    → pending_input_of (lookup id b.sessions) ≡ 0
    → pending_output_of (lookup id b.sessions) ≡ 0
    → (input_total k (record b { sessions = remove id b.sessions }) ≡ input_total k b)
      × (output_total k (record b { sessions = remove id b.sessions }) ≡ output_total k b)
removed-totals id k b no_in no_out = elim (Bool-cases (id == k)) [
  | inl e ↦
      let same = (==_iff id k).0 e in
      (ground (arith, lookup-remove id k b.sessions), ground (arith, lookup-remove id k b.sessions))
  | inr e ↦
      (ground (arith, lookup-remove id k b.sessions), ground (arith, lookup-remove id k b.sessions))
]

-- With no other task in between, the end of a session submits what it has pending before it forgets it.
pub remove_session-totals :
    (config : SettlementConfig) (id : ℕ) (answers : Answers) (now : ℕ) (b : Batcher)
    → SameTotals b (remove_session config id answers now b)
unfolding remove_session
remove_session-totals config id answers now b k =
    let b' = flush_session config id true answers now b in
    let (no_in, no_out) = forced_empty config id answers now b in
    let (r_in, r_out) = removed-totals id k b' no_in no_out in
    let (f_in, f_out) = flush_session-totals config id true answers now b k in
    (r_in ∙ f_in, r_out ∙ f_out)

sweep_one-totals :
    (config : SettlementConfig) (answers : ℕ → Answers) (now id : ℕ) (b : Batcher)
    → SameTotals b (sweep_one config answers now id b)
unfolding sweep_one
sweep_one-totals config answers now id b k = elim (Option-cases (lookup id b.sessions)) [
  | inl h ↦ rw (h, sweep_one) (refl, refl)
  | inr (g, h) ↦
      elim (Bool-cases
        (ltb 0 (pending_total g) && leb (flush_interval config) (now - g.last_flush_at))) [
          | inl e ↦ rw (h, e, sweep_one) (flush_session-totals config id true (answers id) now b k)
          | inr e ↦ rw (h, e, sweep_one) (refl, refl)
        ]
]

pub sweep_ids-totals :
    (config : SettlementConfig) (answers : ℕ → Answers) (now : ℕ) (ids : List ℕ) (b : Batcher)
    → SameTotals b (sweep_ids config answers now ids b)
unfolding sweep_ids
sweep_ids-totals config answers now [] b k = (refl, refl)
sweep_ids-totals config answers now (id ∷ ids) b k =
    let (r_in, r_out) =
      sweep_ids-totals config answers now ids (sweep_one config answers now id b) k in
    let (s_in, s_out) = sweep_one-totals config answers now id b k in (r_in ∙ s_in, r_out ∙ s_out)

pub flush_ids-totals :
    (config : SettlementConfig) (answers : ℕ → Answers) (now : ℕ) (ids : List ℕ) (b : Batcher)
    → SameTotals b (flush_ids config answers now ids b)
unfolding flush_ids
flush_ids-totals config answers now [] b k = (refl, refl)
flush_ids-totals config answers now (id ∷ ids) b k =
    let (r_in, r_out) =
      flush_ids-totals config answers now ids (flush_session config id true (answers id) now b) k in
    let (s_in, s_out) = flush_session-totals config id true (answers id) now b k in
    (r_in ∙ s_in, r_out ∙ s_out)
