-- ===== src/Capacity/System.antt =====
-- Any number of calls of `acquire` and of guards on one tracker (src/capacity/mod.rs): a step is one
-- atomic operation of one call, the drop of one guard, a look at a key or the loss of a node.
use sparkl_router.Common.{
  ℕ, ◌≤◌, ◌≡◌, Bool, true, false, some, List, [], ◌∷◌, ◌==◌, if◌then◌else◌, get_elem?, set,
}
use sparkl_router.Capacity.{
  ModelCapacityKey, CapacityTracker, new, slot_at, slot_for, drop_guard, clear_node,
}
use sparkl_router.Capacity.Acquire.{
  Call, Pc, load_active, failed, waiting, holding, dropped, abandoned, attempt,
}

-- A call of `acquire`: its key, its `Arc<Slot>`, its arguments, and where it stands.
pub record Task : Type 0 where
  pub key : ModelCapacityKey
  pub addr : ℕ
  pub call : Call
  pub pc : Pc

pub record System : Type 0 where
  pub tracker : CapacityTracker
  pub tasks : List Task

-- A call that has neither failed nor returned its guard.
abbrev pub is_running : Pc → Bool
is_running (failed e) = false
is_running (holding unlimited) = false
is_running dropped = false
is_running abandoned = false
is_running _ = true

-- The entry of `acquire`: no slot is looked up for an unlimited model.
unfoldable pub start_acquire : ModelCapacityKey → Call → System → System
unfolding slot_for
start_acquire key c s =
    let (t, a) = slot_for s.tracker key in
    if c.concurrency == 0
    then record s { tasks = record { key = key; addr = 0; call = c; pc = holding true } ∷ s.tasks }
    else record {
      tracker = t;
      tasks = record { key = key; addr = a; call = c; pc = load_active } ∷ s.tasks;
    }

-- The next atomic operation of task number `i`, on the slot that it holds.
unfoldable pub advance : ℕ → Task → Bool → System → System
unfolding attempt
advance i task ok s =
    let (slot, pc) = attempt task.call task.pc ok (slot_at s.tracker task.addr) in
    record {
      tracker = record s.tracker { heap = set s.tracker.heap task.addr slot };
      tasks = set s.tasks i (record task { pc = pc });
    }

-- The drop of the guard of task number `i`.
unfoldable pub drop_task : ℕ → Task → Bool → System → System
unfolding drop_guard
drop_task i task unlimited s = record {
  tracker = drop_guard s.tracker (record { key = task.key; unlimited = unlimited });
  tasks = set s.tasks i (record task { pc = dropped });
}

-- The future of task number `i` is dropped while it waits.
abbrev pub cancel_task : ℕ → Task → System → System
cancel_task i task s = record s { tasks = set s.tasks i (record task { pc = abandoned }) }

-- With at most `c` for the concurrency of a call and `m` for its queue. `clears` says whether nodes
-- may be cleared.
pub data Step (c m : ℕ) (clears : Bool) (s : System) : System → Type 0 where
  begin :
      (key : ModelCapacityKey) (call : Call)
      → call.concurrency ≤ c
      → call.max_queue ≤ m
      → Step c m clears s (start_acquire key call s)
  run :
      (i : ℕ) (task : Task) (ok : Bool)
      → get_elem? s.tasks i ≡ some task
      → is_running task.pc ≡ true
      → Step c m clears s (advance i task ok s)
  release :
      (i : ℕ) (task : Task) (unlimited : Bool)
      → get_elem? s.tasks i ≡ some task
      → task.pc ≡ holding unlimited
      → Step c m clears s (drop_task i task unlimited s)
  cancel :
      (i : ℕ) (task : Task)
      → get_elem? s.tasks i ≡ some task
      → task.pc ≡ waiting
      → Step c m clears s (cancel_task i task s)
  look :
      (key : ModelCapacityKey)
      → Step c m clears s (record s { tracker = (slot_for s.tracker key).0 })
  clear :
      (node_id : ℕ)
      → clears ≡ true
      → Step c m clears s (record s { tracker = clear_node s.tracker node_id })

pub data Reach (c m : ℕ) (clears : Bool) : System → Type 0 where
  start : Reach c m clears (record { tracker = new; tasks = [] })
  next : {s t : System} → Reach c m clears s → Step c m clears s t → Reach c m clears t
