-- ===== src/Capacity/Invariant.antt =====
-- The counters of every slot are exact (src/capacity/mod.rs), as long as no node is cleared.
use sparkl_router.Common.{
  ℕ, refl, [], ◌∷◌, ◌+◌, ◌^◌, ◌≤◌, ◌<◌, ◌≡◌, Bool, true, false, none, some, List, arith,
  if◌then◌else◌, lookup, length, get_elem?, Map, total,
}
use sparkl_router.Capacity.{ModelCapacityKey, Slot, slot_at, key_eq}
use sparkl_router.Capacity.Acquire.{
  Call, Pc, load_active, cas_active, load_queued, cas_queued, waiting, leave_queue, failed, holding,
  dropped, abandoned, attempt,
}
use sparkl_router.Capacity.System.{Task, System}

-- Whether a call holds a counted guard, or stands in the queue.
abbrev pub holds_slot : Pc → ℕ
holds_slot (holding false) = 1
holds_slot _ = 0

abbrev pub in_queue : Pc → ℕ
in_queue waiting = 1
in_queue (leave_queue b) = 1
in_queue _ = 0

-- Whether a call was dropped in the queue, where its place stays taken.
abbrev pub is_lost : Pc → ℕ
is_lost abandoned = 1
is_lost _ = 0

abbrev pub place : Pc → ℕ
place waiting = 1
place (leave_queue b) = 1
place abandoned = 1
place _ = 0

place-split : (pc : Pc) → place pc ≡ in_queue pc + is_lost pc
place-split waiting = refl
place-split (leave_queue b) = refl
place-split abandoned = refl
place-split _ = refl

abbrev pub holders : ModelCapacityKey → List Task → ℕ
holders k = total (λ t. if key_eq.beq t.key k then holds_slot t.pc else 0)

abbrev pub waiters : ModelCapacityKey → List Task → ℕ
waiters k = total (λ t. if key_eq.beq t.key k then in_queue t.pc else 0)

-- The calls that their caller has dropped in the queue.
abbrev pub lost : ModelCapacityKey → List Task → ℕ
lost k = total (λ t. if key_eq.beq t.key k then is_lost t.pc else 0)

abbrev pub places : ModelCapacityKey → List Task → ℕ
places k = total (λ t. if key_eq.beq t.key k then place t.pc else 0)

pub places-split : (k : ModelCapacityKey) (ts : List Task) → places k ts ≡ waiters k ts + lost k ts
unfolding total
places-split k [] = refl
places-split k (t ∷ ts) = ground (arith, places-split k ts, place-split t.pc)

-- What a call has read stays below the limits that it was given.
abbrev pub HasRead : Call → Pc → Type 0
HasRead c (cas_active n) = n < c.concurrency
HasRead c (cas_queued n) = n < c.max_queue
HasRead c _ = Unit {0}

-- A running call and a counted guard have the slot that the map names for their key.
abbrev pub HasSlot : Pc → Map ModelCapacityKey ℕ → ModelCapacityKey → ℕ → Type 0
HasSlot (failed e) m k a = Unit {0}
HasSlot (holding true) m k a = Unit {0}
HasSlot dropped m k a = Unit {0}
HasSlot _ m k a = lookup k m ≡ some a

pub record TaskInv (c m : ℕ) (slots : Map ModelCapacityKey ℕ) (task : Task) : Type 0 where
  pub below : (task.call.concurrency ≤ c) × (task.call.max_queue ≤ m)
  pub read : HasRead task.call task.pc
  pub slot : HasSlot task.pc slots task.key task.addr

pub record SlotInv (c m : ℕ) (s : System) (k : ModelCapacityKey) (slot : Slot) : Type 0 where
  pub active_exact : slot.active ≡ holders k s.tasks
  pub queued_exact : slot.queued ≡ places k s.tasks
  pub active_bound : slot.active ≤ c
  pub queued_bound : slot.queued ≤ m

pub record Inv (c m : ℕ) (s : System) : Type 0 where
  pub tasks_fine :
      (i : ℕ) (task : Task) → get_elem? s.tasks i ≡ some task → TaskInv c m s.tracker.slots task
  pub in_heap :
      (k : ModelCapacityKey) (a : ℕ) → lookup k s.tracker.slots ≡ some a → a < length s.tracker.heap
  pub no_sharing :
      (k j : ModelCapacityKey) (a : ℕ)
      → lookup k s.tracker.slots ≡ some a
      → lookup j s.tracker.slots ≡ some a
      → k ≡ j
  pub slots_fine :
      (k : ModelCapacityKey) (a : ℕ)
      → lookup k s.tracker.slots ≡ some a
      → SlotInv c m s k (slot_at s.tracker a)
  -- No call holds or waits for a key that has no slot.
  pub none_without :
      (k : ModelCapacityKey)
      → lookup k s.tracker.slots ≡ none
      → (holders k s.tasks ≡ 0) × (places k s.tasks ≡ 0)

-- What one operation has to keep: the two counters move with the call, within the limits.
pub record Balanced (c m : ℕ) (before after : Slot) (from to : Pc) : Type 0 where
  pub active_moves : after.active + holds_slot from ≡ before.active + holds_slot to
  pub queued_moves : after.queued + place from ≡ before.queued + place to
  pub active_small : after.active ≤ c
  pub queued_small : after.queued ≤ m

abbrev Bounded : ℕ → ℕ → Slot → Pc → Type 0
Bounded c m s pc =
    (s.active ≤ c) × (s.queued ≤ m) × (holds_slot pc ≤ s.active) × (place pc ≤ s.queued)

module _ (c m : ℕ) (small : (c < 2 ^ 32) × (m < 2 ^ 32)) (call : Call)
    (within : (call.concurrency ≤ c) × (call.max_queue ≤ m)) where
  pub attempt-Balanced :
      (pc : Pc) (ok : Bool) (s : Slot)
      → Bounded c m s pc
      → HasRead call pc
      → Balanced c m s (attempt call pc ok s).0 pc (attempt call pc ok s).1
  unfolding attempt
  attempt-Balanced load_active ok s b r = ground arith
  attempt-Balanced (cas_active active) ok s b r = ground arith
  attempt-Balanced (load_queued active) ok s b r = ground arith
  attempt-Balanced (cas_queued queued) ok s b r = ground arith
  attempt-Balanced (leave_queue notified) ok s b r = ground arith
  attempt-Balanced _ ok s b r = ground arith

  pub attempt-HasRead : (pc : Pc) (ok : Bool) (s : Slot) → HasRead call (attempt call pc ok s).1
  unfolding attempt
  attempt-HasRead load_active ok s = ground arith
  attempt-HasRead (load_queued active) ok s = ground arith
  attempt-HasRead _ ok s = ground arith

pub attempt-HasSlot :
    (call : Call) (pc : Pc) (ok : Bool) (s : Slot) (slots : Map ModelCapacityKey ℕ)
    (k : ModelCapacityKey) (a : ℕ)
    → lookup k slots ≡ some a
    → HasSlot (attempt call pc ok s).1 slots k a
unfolding attempt
attempt-HasSlot call load_active ok s m k a h = ground arith
attempt-HasSlot call _ ok s m k a h = ground arith
