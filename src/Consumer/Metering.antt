-- ===== src/Consumer/Metering.antt =====
-- src/consumer/metering.rs: the tokens that a response of a node reports. The base64 decoder is a
-- parameter, and so is the decoder that `serde` derives for the payload of a receipt.
pub mod Covers
use sparkl_router.Common.{
  ℕ, max, Bool, true, false, not, Option, none, some, List, [], ◌∷◌, Text, codes, text_eq, ltb,
  ◌==◌, if◌then◌else◌, trim, split_text, push_front, drop,
}
use sparkl_router.Json.{Json, ◌>>=◌, or_else, unwrap_or, get, pointer, object}
use sparkl_router.Consumer.Sse.{ParsedUsage}

-- `segment.lines().next()`; the `trim` that follows drops the end of the line.
abbrev pub first_line : Text → Text
first_line [] = []
first_line (c ∷ s) = if c == 10 then [] else c ∷ first_line s

module _ (j : Json) where
  unfoldable pub extract_usage_from_json : j.Value → Option ParsedUsage
  extract_usage_from_json value = do
    usage ← get j value (codes "usage")
    input ←
        or_else (get j usage (codes "prompt_tokens")) (get j usage (codes "input_tokens"))
        >>= j.as_u64
    output ←
        or_else (get j usage (codes "completion_tokens")) (get j usage (codes "output_tokens"))
        >>= j.as_u64
    some (record { input_tokens = input; output_tokens = output })

  unfoldable pub extract_usage_from_body : Text → Option ParsedUsage
  unfolding extract_usage_from_json
  extract_usage_from_body body = do value ← j.from_str body; extract_usage_from_json value

  -- The closure of `filter_map`.
  unfoldable pub event_value : Text → Option j.Value
  unfolding trim
  event_value [] = none
  event_value (c ∷ s) =
      let payload = trim (first_line (c ∷ s)) in
      if text_eq payload []
      then none
      else if text_eq payload (codes "[DONE]")
      then none
      else j.from_str payload

  unfoldable pub event_values : List Text → List j.Value
  unfolding event_value
  event_values [] = []
  event_values (s ∷ segments) =
      let rest = event_values segments in elim (event_value s) [ none ↦ rest | some v ↦ v ∷ rest ]

  unfoldable pub iter_sse_event_values : Text → List j.Value
  unfolding split_text event_values
  iter_sse_event_values body = event_values (drop 1 (split_text (codes "data:") 0 body))

  unfoldable pub inject_stream_usage_option : Text → Text
  inject_stream_usage_option body = elim (j.from_str body) [
    | none ↦ body
    | some v ↦
        if not (unwrap_or (get j v (codes "stream") >>= j.as_bool) false)
        then body
        else elim (j.as_object v) [
          | none ↦ j.to_string v
          | some o ↦ elim (j.find o (codes "stream_options")) [
            | some given ↦ j.to_string v
            | none ↦ j.to_string (
                j.of_object (
                  j.put (codes "stream_options")
                    (j.of_object (object j ((codes "include_usage", j.of_bool true) ∷ []))) o))
          ]
        ]
  ]

module _ (j : Json) (base64 : Text → Option (List ℕ)) (receipt : List ℕ → Option ℕ) where
  unfoldable pub sparkl_receipt_output_tokens : j.Value → Option ℕ
  sparkl_receipt_output_tokens value = do
    v ← pointer j value (codes "sparkl") (codes "receipt")
    text ← j.as_str v
    bytes ← base64 text
    receipt bytes

  -- The loop over the events, with the last usage and the largest receipt.
  unfoldable pub scan : List j.Value → Option ParsedUsage → ℕ → Option ParsedUsage × ℕ
  unfolding extract_usage_from_json sparkl_receipt_output_tokens
  scan [] openai max_receipt_output = (openai, max_receipt_output)
  scan (v ∷ vs) openai max_receipt_output =
      scan vs (or_else (extract_usage_from_json j v) openai)
        (elim (sparkl_receipt_output_tokens v) [
          | none ↦ max_receipt_output
          | some tc ↦ max max_receipt_output tc
        ])

  -- The `match` at the end.
  unfoldable pub settle_usage : Option ParsedUsage → ℕ → Option ParsedUsage
  settle_usage (some u) receipt_out =
      if ltb u.output_tokens receipt_out
      then some (record u { output_tokens = receipt_out })
      else some u
  settle_usage none receipt_out =
      if receipt_out == 0
      then none
      else some (record { input_tokens = 0; output_tokens = receipt_out })

  unfoldable pub extract_usage_from_sse_body : Text → Option ParsedUsage
  unfolding iter_sse_event_values scan settle_usage
  extract_usage_from_sse_body body =
      let (openai, receipt_out) = scan (iter_sse_event_values j body) none 0 in
      settle_usage openai receipt_out
