-- ===== src/Capacity/Acquire.antt =====
-- The loop of `CapacityTracker::acquire` (src/capacity/mod.rs), one atomic operation at a time.
use sparkl_router.Common.{
  ℕ, Bool, false, ◌&&◌, ◌||◌, ltb, leb, ◌==◌, if◌then◌else◌, add_u32, sub_u32,
}
use sparkl_router.Capacity.{Slot, AcquireError, queue_full, wait_timeout}

-- The arguments of a call, `wait_timeout` left out: when a wait ends is up to the environment.
pub record Call : Type 0 where
  pub concurrency : ℕ
  pub max_queue : ℕ

-- Where a call stands: before which atomic operation, with the values that it has read. A call is
-- abandoned when its future is dropped at its `await`, and then does nothing more, so that `queued` stays.
pub data Pc : Type 0 where
  load_active : Pc
  cas_active : (active : ℕ) → Pc
  load_queued : (active : ℕ) → Pc
  cas_queued : (queued : ℕ) → Pc
  waiting : Pc
  leave_queue : (notified : Bool) → Pc
  report_queued : Pc
  report_active : (queued_now : ℕ) → Pc
  failed : AcquireError → Pc
  holding : (unlimited : Bool) → Pc
  dropped : Pc
  abandoned : Pc

-- One atomic operation on the slot, and where the call goes on. The flag is the environment's: a
-- weak compare-exchange that does not fail spuriously, or a wait that is notified in time.
unfoldable pub attempt : Call → Pc → Bool → Slot → Slot × Pc
attempt c load_active ok s =
    (s, if ltb s.active c.concurrency then cas_active s.active else load_queued s.active)
attempt c (cas_active active) ok s =
    if ok && (s.active == active)
    then (record s { active = add_u32 active 1 }, holding false)
    else (s, load_active)
attempt c (load_queued active) ok s = (
  s,
  if (c.max_queue == 0) || leb c.max_queue s.queued
      then failed (queue_full active c.concurrency s.queued)
      else cas_queued s.queued,
)
attempt c (cas_queued queued) ok s =
    if ok && (s.queued == queued)
    then (record s { queued = add_u32 queued 1 }, waiting)
    else (s, load_active)
attempt c waiting ok s = (s, leave_queue ok)
attempt c (leave_queue notified) ok s =
    (record s { queued = sub_u32 s.queued 1 }, if notified then load_active else report_queued)
attempt c report_queued ok s = (s, report_active s.queued)
attempt c (report_active queued_now) ok s =
    (s, failed (wait_timeout s.active c.concurrency queued_now))
attempt c (failed e) ok s = (s, failed e)
attempt c (holding unlimited) ok s = (s, holding unlimited)
attempt c dropped ok s = (s, dropped)
attempt c abandoned ok s = (s, abandoned)
