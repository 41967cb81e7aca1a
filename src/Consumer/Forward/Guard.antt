-- ===== src/Consumer/Forward/Guard.antt =====
-- Every request gives back what it takes, and is billed at most once (src/consumer/forward.rs).
use mathlib.Core.List.{append-nil}
use sparkl_router.Common.{
  ℕ, suc, ◌≤◌, ◌≡◌, inl, inr, Bool, true, false, Option, none, some, List, [], ◌∷◌, arith,
  if◌then◌else◌, Bool-cases, Option-cases, Text,
}
use sparkl_router.Consumer.Gate.{AuthenticatedSession}
use sparkl_router.Consumer.Sse.{
  ParsedUsage, Collected, ok, err, sse_from_pending_with_guard, Streamed,
}
use sparkl_router.Consumer.Sse.Complete.{CompletedOnce, completes_once}
use sparkl_router.Consumer.Forward.{
  Action, takes_guard, emits_capacity, forwards, drops_guard, adds_usage, Reading, Answer,
  record_parsed_usage, stream_actions, finish_collected, finish_streamed, forward_request,
  with_model, chat_completions,
}

-- How often a list of actions takes a guard, drops one, and adds usage.
abbrev pub taken : List Action → ℕ
taken [] = 0
taken (takes_guard c m ∷ acts) = suc (taken acts)
taken (_ ∷ acts) = taken acts

abbrev pub dropped : List Action → ℕ
dropped [] = 0
dropped (drops_guard ∷ acts) = suc (dropped acts)
dropped (_ ∷ acts) = dropped acts

abbrev pub billed : List Action → ℕ
billed [] = 0
billed (adds_usage s i o ∷ acts) = suc (billed acts)
billed (_ ∷ acts) = billed acts

abbrev pub forwarded : List Action → ℕ
forwarded [] = 0
forwarded (forwards b ∷ acts) = suc (forwarded acts)
forwarded (_ ∷ acts) = forwarded acts

-- A guard that is taken is dropped, once; usage is added at most once, and only for a request that was
-- forwarded under a guard.
abbrev pub IsBalanced : List Action → Type 0
IsBalanced acts =
    (dropped acts ≡ taken acts)
    × (taken acts ≤ 1)
    × (billed acts ≤ forwarded acts)
    × (forwarded acts ≤ taken acts)

billed-usage :
    (batching : Bool) (id : ℕ) (usage : Option ParsedUsage)
    → let acts = record_parsed_usage batching id usage in
      (dropped acts ≡ 0) × (taken acts ≡ 0) × (forwarded acts ≡ 0) × (billed acts ≤ 1)
billed-usage batching id none = ground arith
billed-usage true id (some usage) = ground arith
billed-usage false id (some usage) = ground arith

IsBalanced-collected :
    (read : Reading) (batching : Bool) (c m id : ℕ) (body : Text) (collected : Collected)
    → IsBalanced
        (finish_collected read batching id
          (takes_guard c m ∷ emits_capacity ∷ forwards body ∷ drops_guard ∷ emits_capacity ∷ [])
          collected).1
IsBalanced-collected read batching c m id body (ok collected) =
    ground (arith, billed-usage batching id (read.extract_usage_from_body collected.body))
IsBalanced-collected read batching c m id body (err status message) = ground arith

IsBalanced-streamed :
    (batching : Bool) (c m id : ℕ) (body : Text) (streamed : Streamed)
    → CompletedOnce streamed.completion
    → IsBalanced
        (finish_streamed batching id
          (takes_guard c m ∷ emits_capacity ∷ forwards body ∷ [])
          streamed).1
unfolding stream_actions
IsBalanced-streamed batching c m id body streamed (usage, bytes, has_sparkl, once) =
    rw (once, finish_streamed, stream_actions, append-nil)
      (ground (arith, billed-usage batching id usage))

module _ {V : Type 0} (read : Reading) (scale : ℕ → ℕ) (from_u16 : ℕ → Option ℕ) (batching : Bool)
    (auth : AuthenticatedSession) where
  IsBalanced-forward_request :
      (stream : Bool) (body : Text) (c m : ℕ) (answer : Answer V)
      → IsBalanced
          (forward_request read scale from_u16 batching auth stream body
            (takes_guard c m ∷ emits_capacity ∷ [])
            answer).1
  unfolding forward_request
  IsBalanced-forward_request stream body c m answer = elim (Bool-cases answer.sent) [
    | inr e ↦ rw (e, forward_request) (ground arith)
    | inl e ↦ elim (Bool-cases stream) [
      | inl f ↦
          rw (e, f, forward_request)
            (IsBalanced-streamed batching c m auth.session_id body
              (sse_from_pending_with_guard read.extract_usage_from_sse_body read.quote_json
                answer.polls)
              (completes_once read.extract_usage_from_sse_body read.quote_json answer.polls))
      | inr f ↦
          rw (e, f, forward_request) (IsBalanced-collected read batching c m auth.session_id body _)
    ]
  ]

  IsBalanced-with_model :
      (stream : Bool) (body model : Text) (answer : Answer V)
      → IsBalanced (with_model read scale from_u16 batching auth stream body model answer).1
  unfolding with_model
  IsBalanced-with_model stream body model answer = elim (Bool-cases (read.contains_model model)) [
    | inr e ↦ rw (e, with_model) (ground arith)
    | inl e ↦ elim (Bool-cases answer.online) [
      | inr f ↦ rw (e, f, with_model) (ground arith)
      | inl f ↦ elim (Option-cases answer.acquired) [
        | inr (x, g) ↦ rw (e, f, g, with_model) (ground arith)
        | inl g ↦ rw (e, f, g, with_model) (IsBalanced-forward_request stream body _ _ answer)
      ]
    ]
  ]

  -- Whatever the tracker, the tunnel, the node and the consumer do: a guard that the request takes is
  -- dropped exactly once and no guard is dropped that was not taken, and usage is added at most once,
  -- and only for a request that was forwarded under a guard.
  pub chat_completions-IsBalanced :
      (body : Text) (answer : Answer V)
      → IsBalanced (chat_completions read scale from_u16 batching auth body answer).1
  unfolding chat_completions
  chat_completions-IsBalanced body answer =
      let stream = read.parse_stream_flag body in
      let body' = if stream then read.inject_stream_usage_option body else body in
      elim (Option-cases (read.parse_model body')) [
        | inl e ↦ rw (e, chat_completions) (ground arith)
        | inr (model, e) ↦
            rw (e, chat_completions) (IsBalanced-with_model stream body' model answer)
      ]
