-- ===== src/Consumer/Metering/Covers.antt =====
-- src/consumer/metering.rs: the tokens that are billed for a stream cover its receipts, and none are
-- made up.
use sparkl_router.Common.{
  ℕ, max, ◌<◌, ◌≤◌, ◌≡◌, ◌⊎◌, refl, sym, ap, ◌∙◌, inl, inr, false, Option, none, some, List, [],
  ◌∷◌, arith, Text, ltb, leb, ◌==◌, Bool-cases, Option-cases, mem-cons,
}
use mathlib.Core.List.{Memᴰ}
use mathlib.Core.List.Memᴰ.{head, tail}
use sparkl_router.Json.{Json, or_else}
use sparkl_router.Consumer.Sse.{ParsedUsage}
use sparkl_router.Consumer.Metering.{
  extract_usage_from_json, iter_sse_event_values, sparkl_receipt_output_tokens, scan, settle_usage,
  extract_usage_from_sse_body,
}

module _ (j : Json) (base64 : Text → Option (List ℕ)) (receipt : List ℕ → Option ℕ) where
  -- Some event reports `n` output tokens, as usage or as a receipt.
  abbrev pub Reported : List j.Value → ℕ → Type 0
  Reported vs n =
      (v : j.Value) × (Memᴰ v vs
        × (((u : ParsedUsage) × ((extract_usage_from_json j v ≡ some u) × (u.output_tokens ≡ n)))
            ⊎ (sparkl_receipt_output_tokens j base64 receipt v ≡ some n)))

  abbrev sp : j.Value → Option ℕ
  sp = sparkl_receipt_output_tokens j base64 receipt

  abbrev later_max : j.Value → ℕ → ℕ
  later_max v m = elim (sp v) [ none ↦ m | some tc ↦ max m tc ]

  le-later_max : (v : j.Value) (m : ℕ) → m ≤ later_max v m
  le-later_max v m = elim (Option-cases (sp v)) [
    | inl e ↦ rw (e, later_max) (omega arith)
    | inr (tc, e) ↦ rw (e, later_max) (omega arith)
  ]

  scan_above :
      (vs : List j.Value) (openai : Option ParsedUsage) (m : ℕ)
      → m ≤ (scan j base64 receipt vs openai m).1
  unfolding scan
  scan_above [] openai m = omega arith
  scan_above (v ∷ vs) openai m = omega (
    arith,
    le-later_max v m,
    scan_above vs (or_else (extract_usage_from_json j v) openai) (later_max v m),
  )

  scan_covers :
      (vs : List j.Value) (openai : Option ParsedUsage) (m : ℕ) (v : j.Value) (tc : ℕ)
      → Memᴰ v vs
      → sp v ≡ some tc
      → tc ≤ (scan j base64 receipt vs openai m).1
  unfolding scan
  scan_covers [] openai m v tc x h = elim x [ ]
  scan_covers (w ∷ vs) openai m v tc x h =
      let next = or_else (extract_usage_from_json j w) openai in
      elim (mem-cons x) [
        | inl e ↦
            let here : later_max w m ≡ max m tc = rw (← e, h, later_max) refl in
            omega (arith, here, scan_above vs next (later_max w m))
        | inr y ↦ scan_covers vs next (later_max w m) v tc y h
      ]

  -- The largest receipt is the first value, or that of an event.
  scan-receipt :
      (vs : List j.Value) (openai : Option ParsedUsage) (m : ℕ)
      → ((scan j base64 receipt vs openai m).1 ≡ m)
        ⊎ ((v : j.Value) × (Memᴰ v vs × (sp v ≡ some (scan j base64 receipt vs openai m).1)))
  unfolding scan
  scan-receipt [] openai m = inl refl
  scan-receipt (w ∷ vs) openai m =
      let next = or_else (extract_usage_from_json j w) openai in
      elim (scan-receipt vs next (later_max w m)) [
        | inr (v, (x, e)) ↦ inr (v, (tail x, e))
        | inl kept ↦ elim (Option-cases (sp w)) [
          | inl e ↦ inl (kept ∙ rw (e, later_max) refl)
          | inr (tc, e) ↦
              let now : later_max w m ≡ max m tc = rw (e, later_max) refl in
              elim (Bool-cases (leb tc m)) [
                | inl b ↦ inl (kept ∙ now ∙ ground arith)
                | inr b ↦ inr (w, (head refl, e ∙ ap some (sym (kept ∙ now ∙ ground arith))))
              ]
        ]
      ]

  -- The usage that is kept is the first one, or that of an event.
  scan_usage :
      (vs : List j.Value) (openai : Option ParsedUsage) (m : ℕ) (u : ParsedUsage)
      → (scan j base64 receipt vs openai m).0 ≡ some u
      → (openai ≡ some u) ⊎ ((v : j.Value) × (Memᴰ v vs × (extract_usage_from_json j v ≡ some u)))
  unfolding scan
  scan_usage [] openai m u h = inl h
  scan_usage (w ∷ vs) openai m u h =
      let next = or_else (extract_usage_from_json j w) openai in
      elim (scan_usage vs next (later_max w m) u h) [
        | inr (v, (x, e)) ↦ inr (v, (tail x, e))
        | inl kept ↦ elim (Option-cases (extract_usage_from_json j w)) [
          | inl e ↦ inl (rw e at kept)
          | inr (t, e) ↦ inr (w, (head refl, e ∙ (rw e at kept)))
        ]
      ]

  settled-Reported :
      (vs : List j.Value) (n : ℕ)
      → (n ≡ 0) ⊎ ((v : j.Value) × (Memᴰ v vs × (sp v ≡ some n)))
      → 0 < n
      → Reported vs n
  settled-Reported vs n (inl e) h = absurd (omega arith)
  settled-Reported vs n (inr (v, (x, e))) h = (v, (x, inr e))

  -- If an event of a stream has a receipt for `tc > 0` output tokens, then the usage that is taken from
  -- the stream is there, it has at least `tc` output tokens, and some event reports exactly as many
  -- output tokens as it has.
  pub extract_usage_from_sse_body-covers :
      (body : Text) (v : j.Value) (tc : ℕ)
      → Memᴰ v (iter_sse_event_values j body)
      → sparkl_receipt_output_tokens j base64 receipt v ≡ some tc
      → 0 < tc
      → (u : ParsedUsage) × ((extract_usage_from_sse_body j base64 receipt body ≡ some u)
          × ((tc ≤ u.output_tokens) × Reported (iter_sse_event_values j body) u.output_tokens))
  unfolding extract_usage_from_sse_body settle_usage
  extract_usage_from_sse_body-covers body v tc x h pos =
      let vs = iter_sse_event_values j body in
      let m = (scan j base64 receipt vs none 0).1 in
      let above = scan_covers vs none 0 v tc x h in
      let made = settled-Reported vs m (scan-receipt vs none 0) (omega arith) in
      elim (Option-cases (scan j base64 receipt vs none 0).0) [
        | inl e ↦
            let some_left : (m == 0) ≡ false = ground arith in
            (
              record { input_tokens = 0; output_tokens = m },
              (rw e (rw some_left refl), (above, made)),
            )
        | inr (u, e) ↦ elim (Bool-cases (ltb u.output_tokens m)) [
          | inl t ↦ (record u { output_tokens = m }, (rw e (rw t refl), (above, made)))
          | inr f ↦
              let last : Reported vs u.output_tokens = elim (scan_usage vs none 0 u e) [
                | inl wrong ↦ absurd (cc)
                | inr (w, (y, shown)) ↦ (w, (y, inl (u, (shown, refl))))
              ] in
              (u, (rw e (rw f refl), (ground arith, last)))
        ]
      ]
