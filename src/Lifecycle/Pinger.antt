-- ===== src/Lifecycle/Pinger.antt =====
-- The pinger of src/tunnel/lifecycle.rs and a node that does not answer.
use sparkl_router.Common.{
  ℕ, ◌+◌, ◌^◌, ◌<◌, ◌≡◌, refl, ap, sym, ◌∙◌, inl, inr, Bool, true, false, ◌||◌, List, [], ◌∷◌,
  arith, ltb, Bool-cases,
}
use sparkl_router.Tunnel.{NodeTunnel, signal_shutdown}
use sparkl_router.Lifecycle.{pong_limit, ping_tick, pinger}

-- Whether a tick comes later than a time.
unfoldable pub comes_after : ℕ → List ℕ → Bool
comes_after limit [] = false
comes_after limit (now ∷ nows) = ltb limit now || comes_after limit nows

module _ {V C : Type 0} (interval timeout : ℕ) (small : pong_limit interval timeout < 2 ^ 63) where
  -- The rest of the loop after a tick.
  abbrev pinger_goes : List ℕ → NodeTunnel V C × Bool → NodeTunnel V C
  pinger_goes nows (t, goes_on) = elim goes_on [ true ↦ pinger interval timeout nows t | false ↦ t ]

  ping_late :
      (now : ℕ) (t : NodeTunnel V C)
      → ltb (t.last_pong_at + pong_limit interval timeout) now ≡ true
      → ping_tick interval timeout now t ≡ (signal_shutdown t, false)
  unfolding ping_tick
  ping_late now t late = ground arith

  ping_in_time :
      (now : ℕ) (t : NodeTunnel V C)
      → t.sender_open ≡ true
      → ltb (t.last_pong_at + pong_limit interval timeout) now ≡ false
      → ((ping_tick interval timeout now t).1 ≡ true)
        × (((ping_tick interval timeout now t).0.shutdown ≡ t.shutdown)
            × (((ping_tick interval timeout now t).0.last_pong_at ≡ t.last_pong_at)
                × ((ping_tick interval timeout now t).0.sender_open ≡ true)))
  unfolding ping_tick
  ping_in_time now t alive late = ground arith

  -- On a tunnel that is not shut down and whose writer is there, to a node that answers no ping, the
  -- pinger signals the shutdown if and only if a tick comes later than the last pong by more than the
  -- interval and the timeout together (each at least a second), which are below 2^63 seconds.
  pub pinger-comes_after :
      (nows : List ℕ) (t : NodeTunnel V C)
      → t.sender_open ≡ true
      → t.shutdown ≡ false
      → (pinger interval timeout nows t).shutdown
        ≡ comes_after (t.last_pong_at + pong_limit interval timeout) nows
  unfolding pinger comes_after
  pinger-comes_after [] t alive up = up
  pinger-comes_after (now ∷ nows) t alive up =
      elim (Bool-cases (ltb (t.last_pong_at + pong_limit interval timeout) now)) [
        | inl late ↦ ap (λ r. (pinger_goes nows r).shutdown) (ping_late now t late) ∙ rw late refl
        | inr early ↦
            let (goes, same) = ping_in_time now t alive early in
            let (up', same') = same in
            let (pong, alive') = same' in
            let t' = (ping_tick interval timeout now t).0 in
            ap (λ b. (pinger_goes nows (t', b)).shutdown) goes
            ∙ pinger-comes_after nows t' alive' (up' ∙ up)
            ∙ ap (λ l. comes_after (l + pong_limit interval timeout) nows) pong
            ∙ sym (
                ap (λ b. b || comes_after (t.last_pong_at + pong_limit interval timeout) nows)
                  early)
      ]
