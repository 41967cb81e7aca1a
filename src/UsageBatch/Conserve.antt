-- ===== src/UsageBatch/Conserve.antt =====
-- No token is lost or counted twice by a flush (src/consumer/usage_batch.rs).
use sparkl_router.Common.{
  ℕ, ◌+◌, ◌≡◌, refl, ◌∙◌, inl, inr, Bool, not, ◌&&◌, Option, none, some, List, [], ◌∷◌, ◌++◌, arith,
  ◌==◌, if◌then◌else◌, Bool-cases, Option-cases, lookup, insert, nat_eq, lookup-insert, total,
  total-append,
}
use sparkl_router.Config.{SettlementConfig}
use sparkl_router.UsageBatch.{
  Watermarks, SessionBatch, Submission, Batcher, Answers, new_batch, pending_total, ensure_session,
  take_pending, refresh_session, flush_session, cleared, refresh_watermarks, is_early,
}

-- What a session has pending, and what was submitted for it.
abbrev pub pending_input_of : Option SessionBatch → ℕ
pending_input_of none = 0
pending_input_of (some g) = g.pending_input

abbrev pub pending_output_of : Option SessionBatch → ℕ
pending_output_of none = 0
pending_output_of (some g) = g.pending_output

abbrev pub submitted_input : ℕ → List Submission → ℕ
submitted_input id = total (λ s. if s.session_id == id then s.input_delta else 0)

abbrev pub submitted_output : ℕ → List Submission → ℕ
submitted_output id = total (λ s. if s.session_id == id then s.output_delta else 0)

-- All input tokens, and all output tokens, that the batcher accounts for in a session.
abbrev pub input_total : ℕ → Batcher → ℕ
input_total id b = pending_input_of (lookup id b.sessions) + submitted_input id b.submitted

abbrev pub output_total : ℕ → Batcher → ℕ
output_total id b = pending_output_of (lookup id b.sessions) + submitted_output id b.submitted

abbrev pub SameTotals : Batcher → Batcher → Type 0
SameTotals b b' =
    (k : ℕ) → (input_total k b' ≡ input_total k b) × (output_total k b' ≡ output_total k b)

pub ensure_session-totals :
    (id : ℕ) (fetched : Option Watermarks) (now : ℕ) (b : Batcher)
    → SameTotals b (ensure_session id fetched now b)
unfolding ensure_session
ensure_session-totals id none now b k = ground arith
ensure_session-totals id (some w) now b k =
    ground (arith, lookup-insert id k (new_batch w now) b.sessions)

taken-totals :
    (id k now : ℕ) (g : SessionBatch) (b : Batcher)
    → lookup id b.sessions ≡ some g
    → let b' : Batcher = record {
      sessions = insert id (cleared now g) b.sessions;
      submitted =
          b.submitted
          ++ record {
            session_id = id;
            input_delta = g.pending_input;
            output_delta = g.pending_output;
          }
            ∷ [];
    } in
      (input_total k b' ≡ input_total k b) × (output_total k b' ≡ output_total k b)
unfolding total
taken-totals id k now g b found =
    let last : List Submission =
      record { session_id = id; input_delta = g.pending_input; output_delta = g.pending_output }
      ∷ [] in
    (
      ground (
        arith,
        found,
        lookup-insert id k (cleared now g) b.sessions,
        total-append (λ s. if s.session_id == k then s.input_delta else 0) b.submitted last,
      ),
      ground (
        arith,
        found,
        lookup-insert id k (cleared now g) b.sessions,
        total-append (λ s. if s.session_id == k then s.output_delta else 0) b.submitted last,
      ),
    )

pub take_pending-totals :
    (config : SettlementConfig) (id : ℕ) (force : Bool) (now : ℕ) (b : Batcher)
    → SameTotals b (take_pending config id force now b).0
unfolding take_pending
take_pending-totals config id force now b k = elim (Option-cases (lookup id b.sessions)) [
  | inl missing ↦ rw (missing, take_pending) (refl, refl)
  | inr (g, found) ↦ elim (Bool-cases (pending_total g == 0)) [
    | inl empty ↦ rw (found, empty, take_pending) (refl, refl)
    | inr some_pending ↦ elim (Bool-cases (not force && is_early config now g)) [
      | inl early ↦ rw (found, some_pending, early, take_pending) (refl, refl)
      | inr go ↦ rw (found, some_pending, go, take_pending) (taken-totals id k now g b found)
    ]
  ]
]

pub refresh_session-totals :
    (id : ℕ) (fetched : Option Watermarks) (b : Batcher)
    → SameTotals b (refresh_session id fetched b)
unfolding refresh_session
refresh_session-totals id none b k = (refl, refl)
refresh_session-totals id (some w) b k = elim (Option-cases (lookup id b.sessions)) [
  | inl missing ↦ rw (missing, refresh_session) (refl, refl)
  | inr (g, found) ↦
      rw (found, refresh_session)
        (
          ground (arith, found, lookup-insert id k (refresh_watermarks w g) b.sessions),
          ground (arith, found, lookup-insert id k (refresh_watermarks w g) b.sessions),
        )
]

-- A flush moves the pending tokens of its session to a submission, or leaves all as it was; forced
-- or not, and whatever the chain answers.
pub flush_session-totals :
    (config : SettlementConfig) (id : ℕ) (force : Bool) (answers : Answers) (now : ℕ) (b : Batcher)
    → SameTotals b (flush_session config id force answers now b)
unfolding flush_session
flush_session-totals config id force answers now b k =
    let b' = ensure_session id answers.init now b in
    let taken = (take_pending config id force now b').0 in
    let (e_in, e_out) = ensure_session-totals id answers.init now b k in
    let (t_in, t_out) = take_pending-totals config id force now b' k in
    let (r_in, r_out) = refresh_session-totals id answers.refresh taken k in
    elim (Bool-cases (take_pending config id force now b').1) [
      | inl submits ↦ rw (submits, flush_session) (r_in ∙ t_in ∙ e_in, r_out ∙ t_out ∙ e_out)
      | inr stays ↦ rw (stays, flush_session) (t_in ∙ e_in, t_out ∙ e_out)
    ]
