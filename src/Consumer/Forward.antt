-- ===== src/Consumer/Forward.antt =====
-- src/consumer/forward.rs: `chat_completions`, which leads a request that has passed the gate through
-- the capacity tracker and the tunnel of its node. What it does to them is the list of its actions;
-- what they answer is an argument, as is what is read from the JSON of the body and from the catalog of
-- models.
pub mod Guard
use sparkl_router.Common.{
  ℕ, Bool, true, false, not, Option, none, some, List, [], ◌∷◌, ◌++◌, if◌then◌else◌, Text,
}
use sparkl_router.Protocol.{InboundFrame}
use sparkl_router.Capacity.{AcquireError, queue_full, wait_timeout, max_queue_depth}
use sparkl_router.Consumer.Gate.{AuthenticatedSession}
use sparkl_router.Consumer.Sse.{
  ParsedUsage, Effect, releases_guard, completes, Collected, ok, err, Tail, Poll,
  collect_http_response, sse_from_pending_with_guard, CollectedResponse, Streamed,
}

pub data Action : Type 0 where
  takes_guard : (concurrency max_queue : ℕ) → Action
  counts_rejection : Action
  emits_capacity : Action
  forwards : (body : Text) → Action
  drops_guard : Action
  adds_usage : (session_id input output : ℕ) → Action

pub data Reply : Type 0 where
  error_response : (status : ℕ) → Reply
  capacity_exhausted_response : (retry_after active concurrency queued : ℕ) → Reply
  collected_response : CollectedResponse → Reply
  streamed_response : (output : List Text) → Reply

abbrev pub capacity_exhausted : AcquireError → ℕ → Reply
capacity_exhausted (queue_full active c queued) concurrency =
    capacity_exhausted_response 15 active concurrency queued
capacity_exhausted (wait_timeout active c queued) concurrency =
    capacity_exhausted_response 30 active concurrency queued

-- `batching` says whether there is a usage batcher.
abbrev pub record_parsed_usage : Bool → ℕ → Option ParsedUsage → List Action
record_parsed_usage batching session_id none = []
record_parsed_usage batching session_id (some usage) =
    if batching then adds_usage session_id usage.input_tokens usage.output_tokens ∷ [] else []

-- What the callback and the guard of a stream do.
unfoldable pub stream_actions : Bool → ℕ → List Effect → List Action
stream_actions batching session_id [] = []
stream_actions batching session_id (releases_guard ∷ es) =
    drops_guard ∷ stream_actions batching session_id es
stream_actions batching session_id (completes usage bytes has_sparkl ∷ es) =
    emits_capacity
    ∷ (record_parsed_usage batching session_id usage ++ stream_actions batching session_id es)

-- What is read from the JSON of bodies, and from the catalog.
pub record Reading : Type 0 where
  pub parse_stream_flag : Text → Bool
  pub inject_stream_usage_option : Text → Text
  pub parse_model : Text → Option Text
  pub extract_usage_from_body : Text → Option ParsedUsage
  pub extract_usage_from_sse_body : Text → Option ParsedUsage
  pub quote_json : Text → Text
  pub contains_model : Text → Bool
  pub concurrency_for : ℕ → Text → ℕ

-- What the tracker, the tunnel and the node answer: an error of `acquire`, whether the request frame
-- could be sent, and the frames, as `collect_http_response` or as the stream receives them.
pub record Answer (V : Type 0) : Type 0 where
  pub online : Bool
  pub acquired : Option AcquireError
  pub sent : Bool
  pub frames : List (InboundFrame V)
  pub tail : Tail
  pub polls : List (Poll V)

abbrev pub finish_collected : Reading → Bool → ℕ → List Action → Collected → Reply × List Action
finish_collected read batching session_id done (ok collected) = (
  collected_response collected,
  done ++ record_parsed_usage batching session_id (read.extract_usage_from_body collected.body),
)
finish_collected read batching session_id done (err status message) = (error_response status, done)

abbrev pub finish_streamed : Bool → ℕ → List Action → Streamed → Reply × List Action
finish_streamed batching session_id done streamed = (
  streamed_response streamed.output,
  done ++ stream_actions batching session_id streamed.completion.effects,
)

module _ {V : Type 0} (read : Reading) (scale : ℕ → ℕ) (from_u16 : ℕ → Option ℕ)
    (batching : Bool) where
  -- After the guard is taken.
  unfoldable pub forward_request :
      AuthenticatedSession → Bool → Text → List Action → Answer V → Reply × List Action
  unfolding collect_http_response sse_from_pending_with_guard stream_actions
  forward_request auth stream body taken answer =
      if not answer.sent
      then (error_response 502, taken ++ drops_guard ∷ emits_capacity ∷ [])
      else if stream
      then finish_streamed batching auth.session_id (taken ++ forwards body ∷ []) (
          sse_from_pending_with_guard read.extract_usage_from_sse_body read.quote_json answer.polls)
      else finish_collected read batching auth.session_id
          (taken ++ forwards body ∷ drops_guard ∷ emits_capacity ∷ [])
          (collect_http_response from_u16 answer.frames answer.tail)

  unfoldable pub with_model :
      AuthenticatedSession → Bool → Text → Text → Answer V → Reply × List Action
  unfolding forward_request max_queue_depth
  with_model auth stream body model answer =
      if not (read.contains_model model)
      then (error_response 400, [])
      else if not answer.online
      then (error_response 503, [])
      else let concurrency = read.concurrency_for auth.node_id model in
        elim answer.acquired [
          | some e ↦ (capacity_exhausted e concurrency, counts_rejection ∷ [])
          | none ↦
              forward_request auth stream body
                (takes_guard concurrency (max_queue_depth scale concurrency) ∷ emits_capacity ∷ [])
                answer
        ]

  unfoldable pub chat_completions : AuthenticatedSession → Text → Answer V → Reply × List Action
  unfolding with_model
  chat_completions auth body answer =
      let stream = read.parse_stream_flag body in
      let body' = if stream then read.inject_stream_usage_option body else body in
      elim (read.parse_model body') [
        | none ↦ (error_response 400, [])
        | some model ↦ with_model auth stream body' model answer
      ]
