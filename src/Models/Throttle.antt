-- ===== src/Models/Throttle.antt =====
-- src/consumer/models.rs: how often the pongs of a node make the router fetch its models.
use sparkl_router.Common.{
  ℕ, ◌+◌, ◌^◌, ◌<◌, ◌≤◌, ◌≡◌, ◌⊎◌, inl, inr, false, ◌&&◌, List, [], ◌∷◌, arith, ltb, if◌then◌else◌,
  Bool-cases,
}
use sparkl_router.Tunnel.{NodeTunnel}
use sparkl_router.Models.Fetch.{too_soon, maybe_refresh_on_pong}

-- Each time is at least `interval` after the one before it, `last` being the first unless it is 0.
abbrev pub IsSpaced : ℕ → ℕ → List ℕ → Type 0
IsSpaced interval last [] = Unit
IsSpaced interval last (now ∷ times) =
    ((last ≡ 0) ⊎ (last + interval ≤ now)) × IsSpaced interval now times

due :
    (now interval last : ℕ)
    → interval < 2 ^ 63
    → (ltb 0 last && too_soon now last interval) ≡ false
    → (last ≡ 0) ⊎ (last + interval ≤ now)
due now interval last small h = elim (Bool-cases (ltb 0 last)) [
  | inl t ↦ inr (ground (arith, h, t, small))
  | inr f ↦ inl (ground arith)
]

module _ {V C : Type 0} where
  -- The times of the pongs at which a refresh is spawned.
  unfoldable pub refreshes : ℕ → List ℕ → NodeTunnel V C → List ℕ
  unfolding maybe_refresh_on_pong
  refreshes interval [] t = []
  refreshes interval (now ∷ times) t =
      let (t', spawned) = maybe_refresh_on_pong now interval t in
      let rest = refreshes interval times t' in if spawned then now ∷ rest else rest

  -- For an interval that is an `i64`, and whatever the clock does between the pongs, a refresh of a node
  -- is spawned only at the first pong or at least the interval after the last refresh.
  pub refreshes-IsSpaced :
      (interval : ℕ) (times : List ℕ) (t : NodeTunnel V C)
      → interval < 2 ^ 63
      → IsSpaced interval t.last_models_refresh_at (refreshes interval times t)
  unfolding refreshes maybe_refresh_on_pong
  refreshes-IsSpaced interval [] t small = tt
  refreshes-IsSpaced interval (now ∷ times) t small =
      elim (Bool-cases
        (ltb 0 t.last_models_refresh_at && too_soon now t.last_models_refresh_at interval)) [
          | inl s ↦
              rw (s, refreshes, maybe_refresh_on_pong) (refreshes-IsSpaced interval times t small)
          | inr s ↦
              rw (s, refreshes, maybe_refresh_on_pong)
                (
                  due now interval t.last_models_refresh_at small s,
                  refreshes-IsSpaced interval times (record t { last_models_refresh_at = now })
                      small,
                )
        ]
