-- ===== src/Tests/Capacity.antt =====
-- The theorems of Capacity.antt at concrete inputs: one call on an empty tracker takes a slot of its
-- model.
use sparkl_router.Common.{
  codes, ℕ, ◌+◌, total, ◌-◌, ◌^◌, ◌≤◌, ◌≡◌, ◌≢◌, refl, true, false, some, [], ◌∷◌, arith, lookup,
  insert,
}
use sparkl_router.Capacity.{ModelCapacityKey, CapacityTracker, Slot, key_eq, slot_at}
use sparkl_router.Capacity.Acquire.{Call, Pc, load_active, cas_active, holding, waiting}
use sparkl_router.Capacity.System.{
  Task, System, Reach, begin, run, start, next, start_acquire, advance,
}
use sparkl_router.Capacity.Invariant.{holders, waiters, lost}
use sparkl_router.Capacity.Admission.{admission_bound, counters_exact}
use sparkl_router.Capacity.Waiting.{attempts, acquire_decides}
use sparkl_router.Capacity.Clearing.{late_release, late_release_blocks}

abbrev key : ModelCapacityKey
key = record { node_id = 1; model_id = codes "llama" }

abbrev one_slot : Call
one_slot = record { concurrency = 1; max_queue = 1 }

abbrev task : Pc → Task
task pc = record { key = key; addr = 0; call = one_slot; pc = pc }

abbrev state : ℕ → Pc → System
state active pc = record {
  tracker = record {
    slots = (key, 0) ∷ [];
    heap = record { active = active; queued = 0; notify = 0 } ∷ [];
  };
  tasks = task pc ∷ [];
}

begun : Reach 1 1 false (state 0 load_active)
unfolding start_acquire lookup insert
begun = next start (begin key one_slot (omega arith) (omega arith))

loaded : Reach 1 1 false (state 0 (cas_active 0))
unfolding advance
loaded = next begun (run 0 (task load_active) true refl refl)

taken : Reach 1 1 false (state 1 (holding false))
unfolding advance
taken = next loaded (run 0 (task (cas_active 0)) true refl refl)

admission_bound_example :
    (holders key (task (holding false) ∷ []) ≤ 1) × (waiters key (task (holding false) ∷ []) ≤ 1)
admission_bound_example = admission_bound 1 1 key (omega arith) (omega arith) taken

counters_exact_example :
    (1 ≡ holders key (task (holding false) ∷ []))
    × (0 ≡ waiters key (task (holding false) ∷ []) + lost key (task (holding false) ∷ []))
unfolding lookup total
counters_exact_example = counters_exact 1 1 key 0 (omega arith) (omega arith) taken refl

abbrev slot : ℕ → ℕ → Slot
slot active queued = record { active = active; queued = queued; notify = 0 }

acquire_decides_example : attempts 3 one_slot true (slot 1 0, load_active) ≡ (slot 1 1, waiting)
acquire_decides_example = acquire_decides one_slot (slot 1 0) (omega arith) (omega arith)

abbrev tracker : CapacityTracker
tracker = (state 1 (holding false)).tracker

late_release_blocks_example :
    (lookup key (late_release tracker key).slots ≡ some 1)
    × ((slot_at (late_release tracker key) 1).active ≡ 2 ^ 32 - 1)
    × ((attempts 3 one_slot true (slot_at (late_release tracker key) 1, load_active)).1
        ≢ holding false)
late_release_blocks_example = late_release_blocks tracker key one_slot (omega arith)
