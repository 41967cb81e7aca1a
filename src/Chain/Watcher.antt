-- ===== src/Chain/Watcher.antt =====
-- src/chain/watcher.rs: a poll of the contract's logs, and the loop of polls. What the provider answers
-- is an argument, an error being `none`. A session id of a log has 256 bits.
pub mod Window
pub mod Blocks
use sparkl_router.Common.{
  ℕ, suc, ◌+◌, ◌-◌, ◌^◌, ◌&&◌, Bool, true, false, not, Option, none, some, List, [], ◌∷◌, ltb, ◌==◌,
  if◌then◌else◌,
}
use sparkl_router.Config.{SettlementConfig}
use sparkl_router.UsageBatch.{Batcher}
use sparkl_router.UsageBatch.Cached.{Fetches, flush_cached, remove_cached}
use sparkl_router.Chain.Session.{ChainSession}
use sparkl_router.Chain.Cache.{ChainVerifier, warm_session, evict_session}

-- `opened_read` and `released_read` list the ranges of blocks of the queries that were answered, the
-- last one first. The batcher uses the same verifier.
pub record Watcher : Type 0 where
  pub verifier : ChainVerifier
  pub usage_batcher : Option Batcher
  pub last_block : ℕ
  pub opened_read : List (ℕ × ℕ)
  pub released_read : List (ℕ × ℕ)

-- The head, the sessions of the two kinds of logs in a range of blocks, and the chain's other answers:
-- to the warming of a session, to `force_flush` and to `remove_session`.
pub record Provider : Type 0 where
  pub get_block_number : Option ℕ
  pub opened : (from_block to_block : ℕ) → Option (List ℕ)
  pub released : (from_block to_block : ℕ) → Option (List ℕ)
  pub fetch : ℕ → Option ChainSession
  pub flush_fetches : ℕ → Fetches
  pub remove_fetches : ℕ → Fetches

-- The two calls of `get_logs`.
abbrev pub query_opened : Provider → ℕ → ℕ → Watcher → Watcher × Option (List ℕ)
query_opened p from_block to_block w = elim (p.opened from_block to_block) [
  | none ↦ (w, none)
  | some ids ↦ (record w { opened_read = (from_block, to_block) ∷ w.opened_read }, some ids)
]

abbrev pub query_released : Provider → ℕ → ℕ → Watcher → Watcher × Option (List ℕ)
query_released p from_block to_block w = elim (p.released from_block to_block) [
  | none ↦ (w, none)
  | some ids ↦ (record w { released_read = (from_block, to_block) ∷ w.released_read }, some ids)
]

unfoldable pub warm_all : (ℕ → Option ChainSession) → List ℕ → ChainVerifier → ChainVerifier
unfolding warm_session
warm_all fetch [] v = v
warm_all fetch (id ∷ ids) v = warm_all fetch ids (warm_session id (fetch id) v)

-- `force_flush` and `remove_session` of a released session, if there is a batcher.
unfoldable pub settle :
    SettlementConfig
    → Provider
    → ℕ
    → ℕ
    → Option Batcher × ChainVerifier
    → Option Batcher × ChainVerifier
unfolding flush_cached remove_cached
settle config p now id (none, v) = (none, v)
settle config p now id (some b, v) =
    let (b1, v1) = flush_cached config id true (p.flush_fetches id) now b v in
    let (b2, v2) = remove_cached config id (p.remove_fetches id) now b1 v1 in (some b2, v2)

unfoldable pub release_all : SettlementConfig → Provider → ℕ → List ℕ → Watcher → Watcher
unfolding settle evict_session
release_all config p now [] w = w
release_all config p now (id ∷ ids) w =
    let (batcher, v) = settle config p now id (w.usage_batcher, w.verifier) in
    release_all config p now ids
      (record w { usage_batcher = batcher; verifier = evict_session id v })

-- How a poll ends: an id that does not fit 64 bits panics, which ends the task of the loop.
pub data Outcome : Type 0 where
  polled : Outcome
  failed : Outcome
  panicked : Outcome

-- The ids before the first that does not fit.
abbrev pub fitting : List ℕ → List ℕ
fitting [] = []
fitting (id ∷ ids) = let rest = fitting ids in if ltb id (2 ^ 64) then id ∷ rest else []

abbrev pub all_fit : List ℕ → Bool
all_fit [] = true
all_fit (id ∷ ids) = ltb id (2 ^ 64) && all_fit ids

-- The first poll starts at the head.
abbrev pub start_at : ℕ → ℕ → ℕ
start_at head last_block = if last_block == 0 then head - 1 else last_block

-- What follows the answer to the second query.
unfoldable pub after_released :
    SettlementConfig → Provider → ℕ → ℕ → Watcher × Option (List ℕ) → Watcher × Outcome
unfolding release_all
after_released config p now head (w, none) = (w, failed)
after_released config p now head (w, some released) =
    let settled = release_all config p now (fitting released) w in
    if all_fit released then (record settled { last_block = head }, polled) else (settled, panicked)

-- What follows the answer to the first query.
unfoldable pub after_opened :
    SettlementConfig → Provider → ℕ → ℕ → ℕ → Watcher × Option (List ℕ) → Watcher × Outcome
unfolding warm_all after_released
after_opened config p now head from_block (w, none) = (w, failed)
after_opened config p now head from_block (w, some opened) =
    let warmed = record w { verifier = warm_all p.fetch (fitting opened) w.verifier } in
    if all_fit opened
    then after_released config p now head (query_released p from_block head warmed)
    else (warmed, panicked)

-- The poll of the blocks from `w.last_block + 1` up to the head.
unfoldable pub poll_from : SettlementConfig → Provider → ℕ → ℕ → Watcher → Watcher × Outcome
unfolding after_opened
poll_from config p now head w =
    if ltb head (w.last_block + 1)
    then (w, polled)
    else after_opened config p now head (w.last_block + 1)
        (query_opened p (w.last_block + 1) head w)

unfoldable pub poll_once : SettlementConfig → Provider → ℕ → Watcher → Watcher × Outcome
unfolding poll_from
poll_once config p now w = elim p.get_block_number [
  | none ↦ (w, failed)
  | some head ↦ poll_from config p now head (record w { last_block = start_at head w.last_block })
]

abbrev pub goes_on : Outcome → Bool
goes_on panicked = false
goes_on _ = true

-- The loop, with what the provider answers to each poll and when it is made, and whether it still runs.
-- A failed poll is only logged.
unfoldable pub watch : SettlementConfig → List (Provider × ℕ) → Watcher → Watcher × Bool
unfolding poll_once
watch config [] w = (w, true)
watch config ((p, now) ∷ ps) w =
    let (w', outcome) = poll_once config p now w in
    elim (goes_on outcome) [ true ↦ watch config ps w' | false ↦ (w', false) ]

-- `escrow` is the parsed address of the contract; if it cannot be parsed, the loop starts all the same.
unfoldable pub spawn_chain_watcher :
    Bool → Option ℕ → SettlementConfig → List (Provider × ℕ) → Watcher → Watcher × Bool
unfolding watch
spawn_chain_watcher enabled escrow config ps w =
    if not enabled
    then (w, false)
    else if elim escrow [ none ↦ false | some a ↦ a == 0 ]
    then (w, false)
    else watch config ps (record w { last_block = 0 })
