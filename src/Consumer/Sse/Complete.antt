-- ===== src/Consumer/Sse/Complete.antt =====
-- The end of a stream (src/consumer/sse.rs): the guard goes back and the usage is reported, once.
use mathlib.Core.List.{append_assoc, append-nil}
use sparkl_router.Common.{
  ℕ, ◌≡◌, refl, ◌∙◌, Bool, true, false, Option, none, List, [], ◌∷◌, ◌++◌, map, if◌then◌else◌,
  length, Text, contains,
}
use sparkl_router.Protocol.{InboundFrame}
use sparkl_router.Consumer.Sse.{
  ParsedUsage, releases_guard, completes, Completion, fresh_completion, drop_completion, finish,
  or_else, fire_complete, sparkl_mark, Poll, expired, elapsed, closed, received, stream,
  sse_from_pending_with_guard,
}

-- The guard is released, and after that the callback is called.
abbrev pub CompletedOnce : Completion → Type 0
CompletedOnce c =
    (usage : Option ParsedUsage) × (bytes : ℕ) × (has_sparkl : Bool) × (c.effects
      ≡ releases_guard ∷ completes usage bytes has_sparkl ∷ [])

module _ (extract : Text → Option ParsedUsage) (quote_json : Text → Text) where
  finish_once :
      (acc : Text) (latest : Option ParsedUsage)
      → CompletedOnce (finish extract quote_json acc latest fresh_completion)
  unfolding finish
  finish_once acc latest =
      (or_else latest (extract acc), length acc, contains sparkl_mark acc, refl)

  finish_after_once :
      (acc : Text) (latest : Option ParsedUsage)
      → CompletedOnce (
          finish extract quote_json acc latest
            (fire_complete extract quote_json acc latest fresh_completion))
  unfolding finish
  finish_after_once acc latest =
      (or_else latest (extract acc), length acc, contains sparkl_mark acc, refl)

  drop_once : CompletedOnce (drop_completion fresh_completion)
  unfolding drop_completion
  drop_once = (none, 0, false, refl)

  choose_once :
      (alive : Bool) (c d : Completion)
      → CompletedOnce c
      → CompletedOnce d
      → CompletedOnce (if alive then c else d)
  choose_once true c d h k = h
  choose_once false c d h k = k

  -- The usage that the beginnings of a stream show, the latest first.
  abbrev pub latest_usage : Text → Option ParsedUsage → List Text → Option ParsedUsage
  latest_usage acc latest [] = latest
  latest_usage acc latest (text ∷ texts) =
      latest_usage (acc ++ text) (or_else (extract (acc ++ text)) latest) texts

  abbrev pub join : List Text → Text
  join [] = []
  join (text ∷ texts) = text ++ join texts

  module _ {V : Type 0} where
    stream_once :
        (acc : Text) (latest : Option ParsedUsage) (out : List Text) (ps : List (Poll V))
        → CompletedOnce (stream extract quote_json acc latest out fresh_completion ps).completion
    unfolding stream
    stream_once acc latest out [] = drop_once
    stream_once acc latest out (expired alive ∷ ps) =
        choose_once alive _ _ (finish_once acc latest) drop_once
    stream_once acc latest out (elapsed alive ∷ ps) =
        choose_once alive _ _ (finish_once acc latest) drop_once
    stream_once acc latest out (closed ∷ ps) = finish_once acc latest
    stream_once acc latest out (received true (InboundFrame.chunk text) ∷ ps) =
        stream_once (acc ++ text) (or_else (extract (acc ++ text)) latest) (out ++ text ∷ []) ps
    stream_once acc latest out (received false (InboundFrame.chunk text) ∷ ps) = drop_once
    stream_once acc latest out (received alive (InboundFrame.end s) ∷ ps) =
        finish_after_once acc latest
    stream_once acc latest out (received alive (InboundFrame.error code message) ∷ ps) =
        choose_once alive _ _ (finish_after_once acc latest) drop_once
    stream_once acc latest out (received alive (InboundFrame.response s h) ∷ ps) =
        stream_once acc latest out ps
    stream_once acc latest out (received alive (InboundFrame.activate_response k) ∷ ps) =
        stream_once acc latest out ps

    -- However a stream ends (the node's end or error, a closed tunnel, a timeout, a consumer that
    -- goes away at any yield), the capacity guard is released exactly once, and after it the callback
    -- is called exactly once.
    pub completes_once :
        (ps : List (Poll V))
        → CompletedOnce (sse_from_pending_with_guard extract quote_json ps).completion
    unfolding sse_from_pending_with_guard
    completes_once ps = stream_once [] none [] ps

    abbrev pub chunks : List Text → List (Poll V)
    chunks = map (λ text. received true (InboundFrame.chunk text))

    stream-chunks :
        (acc : Text) (latest : Option ParsedUsage) (out texts : List Text) (c : Completion)
        (ps : List (Poll V))
        → stream extract quote_json acc latest out c (chunks texts ++ ps)
          ≡ stream extract quote_json
              (acc ++ join texts)
              (latest_usage acc latest texts)
              (out ++ texts)
              c
              ps
    unfolding stream
    stream-chunks acc latest out [] c ps = rw (append-nil, append-nil)
    stream-chunks acc latest out (text ∷ texts) c ps =
        stream-chunks (acc ++ text) (or_else (extract (acc ++ text)) latest) (out ++ text ∷ [])
          texts c ps
        ∙ rw (append_assoc acc text (join texts), append_assoc out (text ∷ []) texts) refl

    -- Chunks that are followed by the node's end are passed on unchanged and in order, and the usage
    -- that is reported is the last that a beginning of the text showed, with the size of the whole text.
    pub stream_end :
        (texts : List Text) (alive : Bool) (s : ℕ) (ps : List (Poll V))
        → sse_from_pending_with_guard extract quote_json
            (chunks texts ++ received alive (InboundFrame.end s) ∷ ps)
          ≡ record {
            output = texts;
            completion = record {
              guard = false;
              on_complete = false;
              fired = true;
              effects =
                  releases_guard
                  ∷ completes
                      (or_else (latest_usage [] none texts) (extract (join texts)))
                      (length (join texts))
                      (contains sparkl_mark (join texts))
                  ∷ [];
            };
          }
    unfolding sse_from_pending_with_guard
    stream_end texts alive s ps =
        stream-chunks [] none [] texts fresh_completion (received alive (InboundFrame.end s) ∷ ps)
