-- ===== src/Consumer/Sse.antt =====
-- src/consumer/sse.rs: the answer to a consumer, made of the frames of the node. `StatusCode::from_u16`
-- and the quoting of `serde_json::json!` are parameters.
pub mod Collect
pub mod Complete
pub mod Overflow
use sparkl_router.Common.{
  ℕ, ◌+◌, Bool, true, false, Option, none, some, List, [], ◌∷◌, ◌++◌, if◌then◌else◌, length, Text,
  codes, contains,
}
use sparkl_router.Protocol.{InboundFrame}

abbrev pub unwrap_or : Option ℕ → ℕ → ℕ
unwrap_or none d = d
unwrap_or (some s) d = s

abbrev pub or_else {ℓ} : {A : Type ℓ} → Option A → Option A → Option A
or_else none o = o
or_else (some a) o = some a

-- The response that `collect_http_response` builds has no header of its own.
pub record CollectedResponse : Type 0 where
  pub status : ℕ
  pub body : Text

pub data Collected : Type 0 where
  ok : CollectedResponse → Collected
  err : (status : ℕ) (message : Text) → Collected

-- After the last frame the channel is closed, or no frame comes until the timeout.
pub data Tail : Type 0 where
  closes times_out : Tail

module _ {V : Type 0} (from_u16 : ℕ → Option ℕ) where
  -- The loop over the frames. The headers of the node are read into a map that nothing uses.
  unfoldable pub collect_from : ℕ → Text → List (InboundFrame V) → Tail → Collected
  collect_from status body [] closes = ok (record { status = status; body = body })
  collect_from status body [] times_out = err 504 (codes "upstream timeout")
  collect_from status body (InboundFrame.response s h ∷ fs) end =
      collect_from (unwrap_or (from_u16 s) 200) body fs end
  collect_from status body (InboundFrame.chunk text ∷ fs) end =
      collect_from status (body ++ text) fs end
  collect_from status body (InboundFrame.end s ∷ fs) end =
      ok (record { status = unwrap_or (from_u16 s) status; body = body })
  collect_from status body (InboundFrame.error code message ∷ fs) end =
      err (unwrap_or (from_u16 code) 502) message
  collect_from status body (InboundFrame.activate_response k ∷ fs) end =
      collect_from status body fs end

  unfoldable pub collect_http_response : List (InboundFrame V) → Tail → Collected
  unfolding collect_from
  collect_http_response = collect_from 200 []

pub record ParsedUsage : Type 0 where
  pub input_tokens : ℕ
  pub output_tokens : ℕ

-- What the end of a stream does, in order.
pub data Effect : Type 0 where
  releases_guard : Effect
  completes : (usage : Option ParsedUsage) (bytes : ℕ) (has_sparkl : Bool) → Effect

-- `SseStreamCompletion`: whether the guard and the callback are still there, with what was done.
pub record Completion : Type 0 where
  pub guard : Bool
  pub on_complete : Bool
  pub fired : Bool
  pub effects : List Effect

abbrev pub fresh_completion : Completion
fresh_completion = record { guard = true; on_complete = true; fired = false; effects = [] }

abbrev pub take_guard : Completion → Completion
take_guard c =
    if c.guard then record c { guard = false; effects = c.effects ++ releases_guard ∷ [] } else c

abbrev pub call : Option ParsedUsage → ℕ → Bool → Completion → Completion
call usage bytes has_sparkl c =
    if c.on_complete
    then record c {
      on_complete = false;
      effects = c.effects ++ completes usage bytes has_sparkl ∷ [];
    }
    else c

unfoldable pub fire : Option ParsedUsage → ℕ → Bool → Completion → Completion
fire usage bytes has_sparkl c =
    if c.fired then c else call usage bytes has_sparkl (take_guard (record c { fired = true }))

-- `Drop for SseStreamCompletion`
unfoldable pub drop_completion : Completion → Completion
drop_completion c = if c.fired then c else call none 0 false (take_guard c)

-- One round of the loop of the stream: the deadline has passed, or what `recv` under the timeout
-- gave. `alive` says whether the consumer is still there when the round yields.
pub data Poll (V : Type 0) : Type 0 where
  expired : (alive : Bool) → Poll V
  elapsed : (alive : Bool) → Poll V
  closed : Poll V
  received : (alive : Bool) → InboundFrame V → Poll V

pub record Streamed : Type 0 where
  pub output : List Text
  pub completion : Completion

abbrev pub timeout_line : Text
timeout_line = codes "data: {\"error\":\"timeout\"}" ++ 10 ∷ 10 ∷ []

abbrev pub sparkl_mark : Text
sparkl_mark = codes "\"sparkl\""

module _ (extract : Text → Option ParsedUsage) (quote_json : Text → Text) where
  -- The call of `fire_complete` at the end of the loop, and at a terminal frame.
  abbrev pub fire_complete : Text → Option ParsedUsage → Completion → Completion
  fire_complete accumulated latest =
      fire (or_else latest (extract accumulated)) (length accumulated)
        (contains sparkl_mark accumulated)

  abbrev pub error_line : Text → Text
  error_line message = codes "data: {\"error\":" ++ quote_json message ++ codes "}" ++ 10 ∷ 10 ∷ []

  -- The end of the body: the last `fire_complete`, then the drop of the completion.
  unfoldable pub finish : Text → Option ParsedUsage → Completion → Completion
  unfolding fire drop_completion
  finish accumulated latest c = drop_completion (fire_complete accumulated latest c)

  -- A stream that is dropped between two rounds ends without `finish`.
  unfoldable pub stream :
      {V : Type 0} → Text → Option ParsedUsage → List Text → Completion → List (Poll V) → Streamed
  unfolding finish
  stream acc latest out c [] = record { output = out; completion = drop_completion c }
  stream acc latest out c (expired alive ∷ ps) = record {
    output = out ++ timeout_line ∷ [];
    completion = if alive then finish acc latest c else drop_completion c;
  }
  stream acc latest out c (elapsed alive ∷ ps) = record {
    output = out ++ timeout_line ∷ [];
    completion = if alive then finish acc latest c else drop_completion c;
  }
  stream acc latest out c (closed ∷ ps) = record { output = out; completion = finish acc latest c }
  stream acc latest out c (received alive (InboundFrame.chunk text) ∷ ps) =
      let rest =
        stream (acc ++ text) (or_else (extract (acc ++ text)) latest) (out ++ text ∷ []) c ps in
      if alive then rest else record { output = out ++ text ∷ []; completion = drop_completion c }
  stream acc latest out c (received alive (InboundFrame.end s) ∷ ps) = record {
    output = out;
    completion = finish acc latest (fire_complete acc latest c);
  }
  stream acc latest out c (received alive (InboundFrame.error code message) ∷ ps) = record {
    output = out ++ error_line message ∷ [];
    completion =
        if alive then finish acc latest (fire_complete acc latest c) else drop_completion c;
  }
  stream acc latest out c (received alive (InboundFrame.response s h) ∷ ps) =
      stream acc latest out c ps
  stream acc latest out c (received alive (InboundFrame.activate_response k) ∷ ps) =
      stream acc latest out c ps

  unfoldable pub sse_from_pending_with_guard : {V : Type 0} → List (Poll V) → Streamed
  unfolding stream
  sse_from_pending_with_guard = stream [] none [] fresh_completion
