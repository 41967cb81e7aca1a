-- ===== src/Mpsc.antt =====
-- The bounded channel of `tokio::sync::mpsc`, which the router uses and does not implement: its
-- operations, and what its documentation says of them.
use sparkl_router.Common.{
  ℕ, ◌≤◌, ◌<◌, ◌≡◌, Bool, true, Option, none, some, List, [], ◌∷◌, ◌++◌, length,
}

pub record Mpsc (A : Type 0) : Type 1 where
  pub Chan : Type 0
  -- `channel(n)`, with both halves alive
  pub channel : ℕ → Chan
  -- `tx.try_send(a)`: the channel with the message, or an error
  pub try_send : A → Chan → Option Chan
  -- The oldest message, and the channel without it.
  pub recv : Chan → Option (A × Chan)
  -- The drop of the receiver.
  pub close : Chan → Chan
  -- What is sent and not yet received, oldest first; the bound; whether the receiver is alive.
  pub contents : Chan → List A
  pub bound : Chan → ℕ
  pub rx_open : Chan → Bool
  pub channel_fresh :
      (n : ℕ) → (contents (channel n) ≡ []) × (bound (channel n) ≡ n) × (rx_open (channel n) ≡ true)
  pub try_send_sent :
      (a : A) (c d : Chan)
      → try_send a c ≡ some d
      → (contents d ≡ contents c ++ a ∷ []) × (bound d ≡ bound c) × (rx_open d ≡ rx_open c)
  pub try_send_room :
      (a : A) (c : Chan)
      → rx_open c ≡ true
      → length (contents c) < bound c
      → (d : Chan) × (try_send a c ≡ some d)
  pub try_send_full : (a : A) (c : Chan) → bound c ≤ length (contents c) → try_send a c ≡ none
  pub recv_some :
      (c : Chan) (a : A) (d : Chan)
      → recv c ≡ some (a, d)
      → (contents c ≡ a ∷ contents d) × (bound d ≡ bound c) × (rx_open d ≡ rx_open c)
  pub recv_none : (c : Chan) → recv c ≡ none → contents c ≡ []
