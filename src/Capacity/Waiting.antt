-- ===== src/Capacity/Waiting.antt =====
-- What one call of `acquire` does with nobody in its way (src/capacity/mod.rs).
use sparkl_router.Common.{
  ℕ, zero, suc, ◌+◌, ◌-◌, ◌^◌, ◌≤◌, ◌<◌, ◌≡◌, Bool, true, false, ◌||◌, arith, ltb, leb, ◌==◌,
  if◌then◌else◌,
}
use sparkl_router.Capacity.{Slot, queue_full, wait_timeout, max_queue_depth}
use sparkl_router.Capacity.Acquire.{Call, Pc, load_active, waiting, failed, holding, attempt}

-- A number of operations of one call, all with the same answer of the environment.
unfoldable pub attempts : ℕ → Call → Bool → Slot × Pc → Slot × Pc
unfolding attempt
attempts zero c ok (s, pc) = (s, pc)
attempts (suc n) c ok (s, pc) = attempts n c ok (attempt c pc ok s)

-- Undisturbed, a call takes a free slot, or else fails at once with what it read if the queue is
-- closed or full, or else joins the queue; three operations are enough.
pub acquire_decides :
    (c : Call) (s : Slot)
    → s.active < 2 ^ 32 - 1
    → s.queued < 2 ^ 32 - 1
    → attempts 3 c true (s, load_active) ≡ (
        if ltb s.active c.concurrency
        then (record s { active = s.active + 1 }, holding false)
        else if (c.max_queue == 0) || leb c.max_queue s.queued
        then (s, failed (queue_full s.active c.concurrency s.queued))
        else (record s { queued = s.queued + 1 }, waiting))
unfolding attempts
acquire_decides c s ha hq = ground arith

-- A wait that ends by the timeout leaves the queue and reports the counters after it has left.
pub timeout_leaves_queue :
    (c : Call) (s : Slot)
    → 0 < s.queued
    → s.queued < 2 ^ 32
    → attempts 4 c false (s, waiting) ≡ (
      record s { queued = s.queued - 1 },
      failed (wait_timeout s.active c.concurrency (s.queued - 1)),
    )
unfolding attempts
timeout_leaves_queue c s h small = ground arith

-- A model with a declared concurrency has room for at least one waiter.
pub max_queue_depth-pos :
    (scale : ℕ → ℕ) (c : ℕ)
    → 0 < c
    → (0 < max_queue_depth scale c) × (scale c ≤ max_queue_depth scale c)
unfolding max_queue_depth
max_queue_depth-pos scale c h = ground arith
