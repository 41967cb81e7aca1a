-- ===== src/Consumer/Reading/Offered.antt =====
-- src/consumer/forward.rs with src/consumer/models.rs: the models for which `chat_completions` does
-- anything.
use sparkl_router.Common.{
  ℕ, ◌≡◌, ◌≢◌, refl, inl, inr, Bool, true, Option, some, List, [], Text, Map, lookup, text_key,
  is_some, if◌then◌else◌, Bool-cases, Option-cases,
}
use sparkl_router.Json.{Json}
use sparkl_router.Models.Catalog.{contains}
use sparkl_router.Models.Replay.{Event, AreUpserts, advertised, replay, contains-replay}
use sparkl_router.Consumer.Gate.{AuthenticatedSession}
use sparkl_router.Consumer.Forward.{Answer, with_model, chat_completions}
use sparkl_router.Consumer.Metering.{inject_stream_usage_option}
use sparkl_router.Consumer.Reading.{parse_stream_flag, parse_model, json_reading}

module _ (j : Json) (encode : List ℕ → Text) (base64 : Text → Option (List ℕ))
    (receipt : List ℕ → Option ℕ) (quote : Text → Text) (scale : ℕ → ℕ) (from_u16 : ℕ → Option ℕ)
    (batching : Bool) where
  -- The body that goes to the node.
  abbrev pub sent_body : Text → Text
  sent_body body = if parse_stream_flag j body then inject_stream_usage_option j body else body

  -- After any history of registrations and removals of well-formed entries, `chat_completions` takes a
  -- slot, forwards or bills only if the body that it would send names a model, and some node's latest
  -- registration, which no removal has followed, has an entry of that model.
  pub chat_completions-advertised :
      {V : Type 0} (es : List (Event j.Value)) (auth : AuthenticatedSession) (body : Text)
      (answer : Answer V)
      → AreUpserts j encode es
      → (chat_completions
          (json_reading j base64 receipt quote (replay j encode es))
          scale
          from_u16
          batching
          auth
          body
          answer).1
        ≢ []
      → (model : Text) × ((parse_model j (sent_body body) ≡ some model)
          × ((n : ℕ) × ((models : Map Text j.Value) × ((advertised es n ≡ some models)
                  × (is_some (lookup model models) ≡ true)))))
  unfolding chat_completions json_reading
  chat_completions-advertised es auth body answer w acts =
      elim (Option-cases (parse_model j (sent_body body))) [
        | inl e ↦ absurd (acts (rw (e, chat_completions) refl))
        | inr (model, e) ↦ elim (Bool-cases (contains (replay j encode es) model)) [
          | inl t ↦ (model, (e, (contains-replay j encode es model w).0 t))
          | inr f ↦ absurd (acts (rw (e, chat_completions) (rw (f, with_model) refl)))
        ]
      ]
