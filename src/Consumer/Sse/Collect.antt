-- ===== src/Consumer/Sse/Collect.antt =====
-- What `collect_http_response` (src/consumer/sse.rs) makes of the frames that it receives.
use mathlib.Core.List.{append_assoc, append-nil}
use sparkl_router.Common.{ℕ, ◌≡◌, sym, ap, ◌∙◌, Option, List, [], ◌∷◌, ◌++◌, Text, codes}
use sparkl_router.Protocol.{InboundFrame}
use sparkl_router.Consumer.Sse.{
  ok, err, Tail, closes, times_out, unwrap_or, collect_from, collect_http_response,
}

module _ {V : Type 0} where
  -- Frames that do not end the collection.
  abbrev pub Quiet : List (InboundFrame V) → Type 0
  Quiet [] = Unit {0}
  Quiet (InboundFrame.end s ∷ fs) = ⊥
  Quiet (InboundFrame.error code message ∷ fs) = ⊥
  Quiet (_ ∷ fs) = Quiet fs

  -- The data of the chunks, in their order.
  abbrev pub body_of : List (InboundFrame V) → Text
  body_of [] = []
  body_of (InboundFrame.chunk text ∷ fs) = text ++ body_of fs
  body_of (_ ∷ fs) = body_of fs

  module _ (from_u16 : ℕ → Option ℕ) where
    -- The status of the last response frame, 200 where it is no status; the given one if none came.
    abbrev pub status_of : ℕ → List (InboundFrame V) → ℕ
    status_of d [] = d
    status_of d (InboundFrame.response s h ∷ fs) = status_of (unwrap_or (from_u16 s) 200) fs
    status_of d (_ ∷ fs) = status_of d fs

    collect_from-append :
        (status : ℕ) (body : Text) (fs rest : List (InboundFrame V)) (end : Tail)
        → Quiet fs
        → collect_from from_u16 status body (fs ++ rest) end
          ≡ collect_from from_u16 (status_of status fs) (body ++ body_of fs) rest end
    unfolding collect_from
    collect_from-append status body [] rest end h = rw append-nil
    collect_from-append status body (InboundFrame.response s g ∷ fs) rest end h =
        collect_from-append (unwrap_or (from_u16 s) 200) body fs rest end h
    collect_from-append status body (InboundFrame.chunk text ∷ fs) rest end h =
        collect_from-append status (body ++ text) fs rest end h
        ∙ ap (λ b. collect_from from_u16 (status_of status fs) b rest end)
            (append_assoc body text (body_of fs))
    collect_from-append status body (InboundFrame.end s ∷ fs) rest end h = absurd h
    collect_from-append status body (InboundFrame.error code message ∷ fs) rest end h = absurd h
    collect_from-append status body (InboundFrame.activate_response k ∷ fs) rest end h =
        collect_from-append status body fs rest end h

    -- After frames that are no end and no error, whatever follows the deciding one: an end gives the
    -- chunks in order under its status, or the last response's where it has none; an error gives its
    -- code, or 502, and its message; a timeout gives 504; and a channel that closes with no terminal
    -- frame gives the chunks so far as a success.
    pub collect_cases :
        (fs rest : List (InboundFrame V)) (end : Tail) (s code : ℕ) (message : Text)
        → Quiet fs
        → (collect_http_response from_u16 (fs ++ InboundFrame.end s ∷ rest) end
            ≡ ok (record { status = unwrap_or (from_u16 s) (status_of 200 fs); body = body_of fs }))
          × (collect_http_response from_u16 (fs ++ InboundFrame.error code message ∷ rest) end
              ≡ err (unwrap_or (from_u16 code) 502) message)
          × (collect_http_response from_u16 fs times_out ≡ err 504 (codes "upstream timeout"))
          × (collect_http_response from_u16 fs closes
              ≡ ok (record { status = status_of 200 fs; body = body_of fs }))
    unfolding collect_http_response
    collect_cases fs rest end s code message h = (
      collect_from-append 200 [] fs (InboundFrame.end s ∷ rest) end h,
      collect_from-append 200 [] fs (InboundFrame.error code message ∷ rest) end h,
      ap (λ l. collect_from from_u16 200 [] l times_out) (sym (append-nil fs))
          ∙ collect_from-append 200 [] fs [] times_out h,
      ap (λ l. collect_from from_u16 200 [] l closes) (sym (append-nil fs))
          ∙ collect_from-append 200 [] fs [] closes h,
    )
