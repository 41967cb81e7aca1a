-- ===== src/Chain/Watcher/Window.antt =====
-- The sessions that a poll of src/chain/watcher.rs finds released.
use sparkl_router.Common.{
  Option-cases, ℕ, ◌+◌, ◌<◌, ◌≡◌, ◌⊎◌, inl, inr, refl, sym, ap, ◌∙◌, none, some, List, [], ◌∷◌,
  arith, ltb, nat_eq, Bool-cases,
}
use sparkl_router.Config.{SettlementConfig}
use sparkl_router.Chain.Watcher.{
  polled, failed, panicked, all_fit, Watcher, Provider, query_opened, query_released, start_at,
  after_opened, after_released, poll_from, poll_once,
}

abbrev pub IsAmong : ℕ → List ℕ → Type 0
IsAmong k [] = ⊥
IsAmong k (id ∷ ids) = (k ≡ id) ⊎ IsAmong k ids

-- What the two queries come to.
module _ (p : Provider) (from_block to_block : ℕ) (w : Watcher) where
  pub query_opened-none :
      p.opened from_block to_block ≡ none → query_opened p from_block to_block w ≡ (w, none)
  query_opened-none e = rw (e, query_opened) refl

  pub query_opened-some :
      (ids : List ℕ)
      → p.opened from_block to_block ≡ some ids
      → query_opened p from_block to_block w
        ≡ (record w { opened_read = (from_block, to_block) ∷ w.opened_read }, some ids)
  query_opened-some ids e = rw (e, query_opened) refl

  pub query_released-none :
      p.released from_block to_block ≡ none → query_released p from_block to_block w ≡ (w, none)
  query_released-none e = rw (e, query_released) refl

  pub query_released-some :
      (ids : List ℕ)
      → p.released from_block to_block ≡ some ids
      → query_released p from_block to_block w
        ≡ (record w { released_read = (from_block, to_block) ∷ w.released_read }, some ids)
  query_released-some ids e = rw (e, query_released) refl

start_kept : (head last_block : ℕ) → 0 < last_block → start_at head last_block ≡ last_block
start_kept head last_block h = ground arith

pub poll_unanswered :
    (config : SettlementConfig) (p : Provider) (now : ℕ) (w : Watcher)
    → p.get_block_number ≡ none
    → poll_once config p now w ≡ (w, failed)
unfolding poll_once
poll_unanswered config p now w e = rw (e, poll_once) refl

pub poll_started :
    (config : SettlementConfig) (p : Provider) (now head : ℕ) (w : Watcher)
    → p.get_block_number ≡ some head
    → 0 < w.last_block
    → poll_once config p now w ≡ poll_from config p now head w
unfolding poll_once
poll_started config p now head w e started =
    rw (e, poll_once)
      (ap (λ last. poll_from config p now head (record w { last_block = last }))
        (start_kept head w.last_block started))

opened_failure :
    (config : SettlementConfig) (p : Provider) (now head from_block : ℕ) (opened : List ℕ)
    (w : Watcher)
    → (after_opened config p now head from_block (w, some opened)).1 ≡ failed
    → (after_opened config p now head from_block (w, some opened)).0.last_block ≡ w.last_block
unfolding after_opened after_released
opened_failure config p now head from_block opened w is_failed =
    elim (Bool-cases (all_fit opened)) [
      | inr b ↦ rw (b, after_opened) refl
      | inl b ↦ elim (Option-cases (p.released from_block head)) [
        | inl r ↦ rw (b, after_opened, query_released-none p from_block head _ r) refl
        | inr (released, r) ↦ elim (Bool-cases (all_fit released)) [
          | inl c ↦
              let wrong : polled ≡ failed =
                rw (b, after_opened, query_released-some p from_block head _ released r, c) at
                  is_failed in
              absurd (cc)
          | inr c ↦
              let wrong : panicked ≡ failed =
                rw (b, after_opened, query_released-some p from_block head _ released r, c) at
                  is_failed in
              absurd (cc)
        ]
      ]
    ]

from_failure :
    (config : SettlementConfig) (p : Provider) (now head : ℕ) (w : Watcher)
    → (poll_from config p now head w).1 ≡ failed
    → (poll_from config p now head w).0.last_block ≡ w.last_block
unfolding poll_from after_opened after_released
from_failure config p now head w is_failed = elim (Bool-cases (ltb head (w.last_block + 1))) [
  | inl f ↦ rw (f, poll_from) refl
  | inr f ↦ elim (Option-cases (p.opened (w.last_block + 1) head)) [
    | inl g ↦ rw (f, poll_from, query_opened-none p (w.last_block + 1) head w g) refl
    | inr (opened, g) ↦
        rw (f, poll_from, query_opened-some p (w.last_block + 1) head w opened g)
          (opened_failure config p now head (w.last_block + 1) opened _ (
            rw (f, poll_from, query_opened-some p (w.last_block + 1) head w opened g) at is_failed))
  ]
]

-- A poll that fails leaves the last block as it was, so that the next one asks for the same blocks.
poll_once-failure :
    (config : SettlementConfig) (p : Provider) (now : ℕ) (w : Watcher)
    → 0 < w.last_block
    → (poll_once config p now w).1 ≡ failed
    → (poll_once config p now w).0.last_block ≡ w.last_block
poll_once-failure config p now w started is_failed = elim (Option-cases p.get_block_number) [
  | inl e ↦ ap (λ r. r.0.last_block) (poll_unanswered config p now w e)
  | inr (head, e) ↦
      let same = poll_started config p now head w e started in
      ap (λ r. r.0.last_block) same
      ∙ from_failure config p now head w (sym (ap (λ r. r.1) same) ∙ is_failed)
]
