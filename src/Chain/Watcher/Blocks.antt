-- ===== src/Chain/Watcher/Blocks.antt =====
-- The blocks whose logs the loop of src/chain/watcher.rs reads.
use sparkl_router.Common.{
  true, false, some, inl, inr, ℕ, ◌+◌, ◌<◌, ◌≤◌, ◌≡◌, refl, sym, ap, subst, ◌&&◌, List, [], ◌∷◌,
  arith, ltb, leb, Option-cases, Bool-cases, if◌then◌else◌, total,
}
use sparkl_router.Config.{SettlementConfig}
use sparkl_router.Chain.Watcher.{
  fitting, all_fit, goes_on, Watcher, Provider, warm_all, release_all, after_opened, after_released,
  poll_from, poll_once, watch,
}
use sparkl_router.Chain.Watcher.Window.{
  query_opened-none, query_opened-some, query_released-none, query_released-some, poll_unanswered,
  poll_started,
}

-- How many of some ranges contain a block.
abbrev pub times : ℕ → List (ℕ × ℕ) → ℕ
times block = total (λ r. if leb r.0 block && leb block r.1 then 1 else 0)

-- Whether a block comes after the last one before and is not after the last one now.
abbrev pub passed : ℕ → ℕ → ℕ → ℕ
passed before after block = if ltb before block && leb block after then 1 else 0

-- From one state to a later one: a block that is passed is in one more range of released logs that
-- were read, and in at least one more of opened logs; any other is in no more range of released logs.
abbrev pub Reads : ℕ → Watcher → Watcher → Type 0
Reads block w w' =
    (w.last_block ≤ w'.last_block)
    × ((times block w'.released_read
          ≡ times block w.released_read + passed w.last_block w'.last_block block)
        × (times block w.opened_read + passed w.last_block w'.last_block block
            ≤ times block w'.opened_read))

Reads-refl : (block : ℕ) (w : Watcher) → Reads block w w
Reads-refl block w = (omega arith, (ground arith, ground arith))

split_window :
    (first middle last block : ℕ)
    → first ≤ middle
    → middle ≤ last
    → passed first middle block + passed middle last block ≡ passed first last block
split_window first middle last block a b = ground arith

Reads-trans : (block : ℕ) (u v w : Watcher) → Reads block u v → Reads block v w → Reads block u w
Reads-trans block u v w (a, (b, c)) (d, (e, f)) =
    let split = split_window u.last_block v.last_block w.last_block block a d in
    (omega (arith, a, d), (omega (arith, b, e, split), omega (arith, c, f, split)))

release_all-kept :
    (config : SettlementConfig) (p : Provider) (now : ℕ) (ids : List ℕ) (w : Watcher)
    → ((release_all config p now ids w).opened_read ≡ w.opened_read)
      × ((release_all config p now ids w).released_read ≡ w.released_read)
unfolding release_all
release_all-kept config p now [] w = (refl, refl)
release_all-kept config p now (id ∷ ids) w = release_all-kept config p now ids _

-- Both queries were answered.
window-Reads :
    (block head : ℕ) (w w' : Watcher)
    → w.last_block < head
    → w'.last_block ≡ head
    → w'.opened_read ≡ (w.last_block + 1, head) ∷ w.opened_read
    → w'.released_read ≡ (w.last_block + 1, head) ∷ w.released_read
    → Reads block w w'
unfolding total
window-Reads block head w w' moved at_head opened released =
    let o = ap (times block) opened in
    let r = ap (times block) released in
    (
      omega (arith, moved, at_head),
      (ground (arith, moved, at_head, r), ground (arith, moved, at_head, o)),
    )

opened-Reads :
    (config : SettlementConfig) (p : Provider) (now head block : ℕ) (opened : List ℕ) (w : Watcher)
    → w.last_block < head
    → let asked : Watcher = record w { opened_read = (w.last_block + 1, head) ∷ w.opened_read } in
      let r = after_opened config p now head (w.last_block + 1) (asked, some opened) in
      goes_on r.1 ≡ true → Reads block w r.0
unfolding after_opened after_released total
opened-Reads config p now head block opened w moved alive = elim (Bool-cases (all_fit opened)) [
  | inr b ↦ let wrong : false ≡ true = rw (b, after_opened) at alive in absurd (cc)
  | inl b ↦ elim (Option-cases (p.released (w.last_block + 1) head)) [
    | inl r ↦
        rw (b, after_opened, query_released-none p (w.last_block + 1) head _ r)
          (omega arith, (ground arith, ground arith))
    | inr (released, r) ↦ elim (Bool-cases (all_fit released)) [
      | inr c ↦
          let wrong : false ≡ true =
            rw (b, after_opened, query_released-some p (w.last_block + 1) head _ released r, c) at
              alive in
          absurd (cc)
      | inl c ↦
          let read : Watcher = record w {
            verifier = warm_all p.fetch (fitting opened) w.verifier;
            opened_read = (w.last_block + 1, head) ∷ w.opened_read;
            released_read = (w.last_block + 1, head) ∷ w.released_read;
          } in
          let (o_kept, r_kept) = release_all-kept config p now (fitting released) read in
          rw (b, after_opened, query_released-some p (w.last_block + 1) head _ released r, c)
            (window-Reads block head w
              (record (release_all config p now (fitting released) read) { last_block = head })
              moved refl o_kept r_kept)
    ]
  ]
]

poll_from-Reads :
    (config : SettlementConfig) (p : Provider) (now head block : ℕ) (w : Watcher)
    → goes_on (poll_from config p now head w).1 ≡ true
    → Reads block w (poll_from config p now head w).0
unfolding poll_from after_opened
poll_from-Reads config p now head block w alive = elim (Bool-cases (ltb head (w.last_block + 1))) [
  | inl f ↦ rw (f, poll_from) (Reads-refl block w)
  | inr f ↦ elim (Option-cases (p.opened (w.last_block + 1) head)) [
    | inl g ↦
        rw (f, poll_from, query_opened-none p (w.last_block + 1) head w g) (Reads-refl block w)
    | inr (opened, g) ↦
        rw (f, poll_from, query_opened-some p (w.last_block + 1) head w opened g)
          (opened-Reads config p now head block opened w (ground (arith, f))
            (rw (f, poll_from, query_opened-some p (w.last_block + 1) head w opened g) at alive))
  ]
]

poll_once-Reads :
    (config : SettlementConfig) (p : Provider) (now block : ℕ) (w : Watcher)
    → 0 < w.last_block
    → goes_on (poll_once config p now w).1 ≡ true
    → Reads block w (poll_once config p now w).0
poll_once-Reads config p now block w started alive = elim (Option-cases p.get_block_number) [
  | inl e ↦
      subst (λ r. Reads block w r.0) (sym (poll_unanswered config p now w e)) (Reads-refl block w)
  | inr (head, e) ↦
      let same = poll_started config p now head w e started in
      subst (λ r. Reads block w r.0) (sym same)
        (poll_from-Reads config p now head block w (subst (λ r. goes_on r.1 ≡ true) same alive))
]

-- From a watcher that has started, over any number of polls after which the loop still runs, whatever is
-- answered to them: it never goes back, and every block after the one it was at, up to the one it ends
-- at, is in exactly one more of the ranges whose released logs were read, and in at least one more of
-- those whose opened logs were read; no other block is in one more range of released logs.
pub watch-Reads :
    (config : SettlementConfig) (ps : List (Provider × ℕ)) (w : Watcher) (block : ℕ)
    → 0 < w.last_block
    → (watch config ps w).1 ≡ true
    → Reads block w (watch config ps w).0
unfolding watch
watch-Reads config [] w block h alive = Reads-refl block w
watch-Reads config ((p, now) ∷ ps) w block h alive =
    let next = (poll_once config p now w).0 in
    elim (Bool-cases (goes_on (poll_once config p now w).1)) [
      | inr dead ↦ let wrong : false ≡ true = rw (dead, watch) at alive in absurd (cc)
      | inl goes ↦
          let step = poll_once-Reads config p now block w h goes in
          let started : 0 < next.last_block = omega (arith, step.0, h) in
          rw (goes, watch)
            (Reads-trans block w next (watch config ps next).0 step
              (watch-Reads config ps next block started (rw (goes, watch) at alive)))
    ]
