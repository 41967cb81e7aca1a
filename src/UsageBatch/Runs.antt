-- ===== src/UsageBatch/Runs.antt =====
-- Any history of the batcher (src/consumer/usage_batch.rs): the regions of its methods, each under a
-- lock, as any number of tasks run them in any order.
use sparkl_router.Common.{
  ℕ, ◌+◌, ◌<◌, ◌^◌, ◌≡◌, refl, inl, inr, Bool, Option, List, [], ◌∷◌, arith, Bool-cases,
  if◌then◌else◌, ◌==◌, lookup, nat_eq, lookup-remove,
}
use sparkl_router.Config.{SettlementConfig}
use sparkl_router.UsageBatch.{
  Watermarks, Batcher, Answers, ensure_session, accumulate_session, take_pending, refresh_session,
  forget_session, flush_session,
}
use sparkl_router.UsageBatch.Conserve.{
  pending_input_of, pending_output_of, input_total, output_total, ensure_session-totals,
  take_pending-totals, refresh_session-totals,
}
use sparkl_router.UsageBatch.Add.{counted, is_known, accumulate_session-totals}

-- A region: of `ensure_session`, of `add_usage`, the first and the last of `flush_session`, and the
-- removal at the end of `remove_session`, with the answer of the chain and the time.
pub data Region : Type 0 where
  ensures : (id : ℕ) → Option Watermarks → (now : ℕ) → Region
  accumulates : (id input output : ℕ) → (now : ℕ) → Region
  takes : (id : ℕ) → (force : Bool) → (now : ℕ) → Region
  refreshes : (id : ℕ) → Option Watermarks → Region
  forgets : (id : ℕ) → Region

unfoldable pub step : SettlementConfig → Region → Batcher → Batcher
step config (ensures id fetched now) b = ensure_session id fetched now b
step config (accumulates id input output now) b =
    (accumulate_session config id input output now b).0
step config (takes id force now) b = (take_pending config id force now b).0
step config (refreshes id fetched) b = refresh_session id fetched b
step config (forgets id) b = forget_session id b

unfoldable pub run : SettlementConfig → List Region → Batcher → Batcher
run config [] b = b
run config (c ∷ cs) b = run config cs (step config c b)

-- What a step adds for a session of which there is a batch, and what is pending when it is removed.
abbrev pub input_of : Region → Batcher → ℕ → ℕ
input_of (accumulates id input output now) b k = counted (is_known id b) id k input
input_of _ b k = 0

abbrev pub output_of : Region → Batcher → ℕ → ℕ
output_of (accumulates id input output now) b k = counted (is_known id b) id k output
output_of _ b k = 0

abbrev pub input_lost : Region → Batcher → ℕ → ℕ
input_lost (forgets id) b k = if id == k then pending_input_of (lookup k b.sessions) else 0
input_lost _ b k = 0

abbrev pub output_lost : Region → Batcher → ℕ → ℕ
output_lost (forgets id) b k = if id == k then pending_output_of (lookup k b.sessions) else 0
output_lost _ b k = 0

-- The sum over a history of what each step adds or loses.
unfoldable pub over : (Region → Batcher → ℕ → ℕ) → SettlementConfig → List Region → Batcher → ℕ → ℕ
over f config [] b k = 0
over f config (c ∷ cs) b k = f c b k + over f config cs (step config c b) k

-- Every sum that a step builds stays below 2^64.
abbrev pub Fits1 : Region → Batcher → Type 0
Fits1 (accumulates id input output now) b =
    (input_total id b + input < 2 ^ 64) × (output_total id b + output < 2 ^ 64)
Fits1 _ b = Unit {0}

abbrev pub Fits : SettlementConfig → List Region → Batcher → Type 0
Fits config [] b = Unit {0}
Fits config (c ∷ cs) b = Fits1 c b × Fits config cs (step config c b)

step-totals :
    (config : SettlementConfig) (c : Region) (b : Batcher) (k : ℕ)
    → Fits1 c b
    → (input_total k (step config c b) + input_lost c b k ≡ input_total k b + input_of c b k)
      × (output_total k (step config c b) + output_lost c b k ≡ output_total k b + output_of c b k)
unfolding step
step-totals config (ensures id fetched now) b k fits =
    let (i, o) = ensure_session-totals id fetched now b k in (omega arith, omega arith)
step-totals config (accumulates id input output now) b k fits =
    let (i, o) = accumulate_session-totals config id k input output now b fits.0 fits.1 in
    (omega arith, omega arith)
step-totals config (takes id force now) b k fits =
    let (i, o) = take_pending-totals config id force now b k in (omega arith, omega arith)
step-totals config (refreshes id fetched) b k fits =
    let (i, o) = refresh_session-totals id fetched b k in (omega arith, omega arith)
step-totals config (forgets id) b k fits =
    (ground (arith, lookup-remove id k b.sessions), ground (arith, lookup-remove id k b.sessions))

-- However the regions of any calls of the batcher follow each other, what is pending and what was
-- submitted for a session, together with what was pending whenever the session was removed, adds up to
-- what it had before and what was accumulated for it since, for the input tokens and for the output
-- tokens, provided that no sum reaches 2^64.
pub run_conserves :
    (config : SettlementConfig) (cs : List Region) (b : Batcher) (k : ℕ)
    → Fits config cs b
    → (input_total k (run config cs b) + over input_lost config cs b k
        ≡ input_total k b + over input_of config cs b k)
      × (output_total k (run config cs b) + over output_lost config cs b k
          ≡ output_total k b + over output_of config cs b k)
unfolding run over
run_conserves config [] b k fits = (omega arith, omega arith)
run_conserves config (c ∷ cs) b k fits =
    let (i, o) = step-totals config c b k fits.0 in
    let (ri, ro) = run_conserves config cs (step config c b) k fits.1 in (omega arith, omega arith)

-- The regions that a flush runs.
abbrev regions_of_flush : SettlementConfig → ℕ → Bool → Answers → ℕ → Batcher → List Region
regions_of_flush config id force answers now b =
    ensures id answers.init now
    ∷ takes id force now
    ∷ (if (take_pending config id force now (ensure_session id answers.init now b)).1
        then refreshes id answers.refresh ∷ []
        else [])

-- A flush that no other task interrupts is a history of its regions.
flush_session-run :
    (config : SettlementConfig) (id : ℕ) (force : Bool) (answers : Answers) (now : ℕ) (b : Batcher)
    → run config (regions_of_flush config id force answers now b) b
      ≡ flush_session config id force answers now b
unfolding flush_session run step
flush_session-run config id force answers now b =
    elim (Bool-cases (take_pending config id force now (ensure_session id answers.init now b)).1) [
      | inl e ↦ rw (e, flush_session) refl
      | inr e ↦ rw (e, flush_session) refl
    ]
