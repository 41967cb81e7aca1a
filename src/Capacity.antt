-- ===== src/Capacity.antt =====
-- src/capacity/mod.rs: the slots that count the running and the queued requests of each model of
-- each node. `DashMap<ModelCapacityKey, Arc<Slot>>` is a map from keys to addresses in a heap of
-- slots, because a caller of `acquire` keeps its `Arc<Slot>` when the map drops the entry.
pub mod Acquire
pub mod System
pub mod Invariant
pub mod Settle
pub mod Enter
pub mod Admission
pub mod Waiting
pub mod Clearing
use sparkl_router.Common.{
  ℕ, suc, ◌≡◌, refl, ◌↔◌, Bool, true, false, not, ◌&&◌, Text, Option, none, some, List, [], ◌∷◌,
  ◌++◌, map, arith, ◌==◌, if◌then◌else◌, ==_iff, length, get_elem?, set, max, Eq, text_key, nat_eq,
  same, Map, lookup, insert, add_u32, sub_u32,
}

-- A `NodeId` is 32 bytes, read as a number.
pub record ModelCapacityKey : Type 0 where
  pub node_id : ℕ
  pub model_id : Text

abbrev pub key_beq : ModelCapacityKey → ModelCapacityKey → Bool
key_beq k j = k.node_id == j.node_id && same k.model_id j.model_id

pub key_beq_iff : (k j : ModelCapacityKey) → (key_beq k j ≡ true) ↔ (k ≡ j)
key_beq_iff k j = ground (arith, text_key.beq_iff k.model_id j.model_id)

instance abbrev pub key_eq : Eq ModelCapacityKey
key_eq = record { beq = key_beq; beq_iff = key_beq_iff }

pub record CapacitySnapshot : Type 0 where
  pub active_requests : ℕ
  pub queued_requests : ℕ
  pub concurrency : ℕ

pub data AcquireError : Type 0 where
  queue_full : (active concurrency queued : ℕ) → AcquireError
  wait_timeout : (active concurrency queued : ℕ) → AcquireError

-- `notify` counts the calls of `Notify::notify_one`; whom they wake is left to the environment.
pub record Slot : Type 0 where
  pub active : ℕ
  pub queued : ℕ
  pub notify : ℕ

abbrev pub empty_slot : Slot
empty_slot = record { active = 0; queued = 0; notify = 0 }

pub record CapacityTracker : Type 0 where
  pub slots : Map ModelCapacityKey ℕ
  pub heap : List Slot

abbrev pub new : CapacityTracker
new = record { slots = []; heap = [] }

-- The tracker and the address of the slot of a key, which is made if it is missing.
unfoldable pub slot_for : CapacityTracker → ModelCapacityKey → CapacityTracker × ℕ
slot_for t key = elim (lookup key t.slots) [
  | some a ↦ (t, a)
  | none ↦ (
    record { slots = insert key (length t.heap) t.slots; heap = t.heap ++ empty_slot ∷ [] },
    length t.heap,
  )
]

-- A read through an `Arc<Slot>`; every address that is handed out is in the heap.
abbrev pub slot_at : CapacityTracker → ℕ → Slot
slot_at t a = elim (get_elem? t.heap a) [ none ↦ empty_slot | some s ↦ s ]

unfoldable pub snapshot : CapacityTracker → ModelCapacityKey → CapacityTracker × CapacitySnapshot
unfolding slot_for
snapshot t key =
    let (t', a) = slot_for t key in
    (
      t',
      record {
        active_requests = (slot_at t' a).active;
        queued_requests = (slot_at t' a).queued;
        concurrency = 0;
      },
    )

unfoldable pub snapshot_with_concurrency :
    CapacityTracker → ModelCapacityKey → ℕ → CapacityTracker × CapacitySnapshot
unfolding snapshot
snapshot_with_concurrency t key concurrency =
    let (t', snap) = snapshot t key in (t', record snap { concurrency = concurrency })

unfoldable pub all_snapshots : CapacityTracker → Map ModelCapacityKey (ℕ × ℕ)
all_snapshots t = map (λ e. (e.0, ((slot_at t e.1).active, (slot_at t e.1).queued))) t.slots

unfoldable pub retain_other_nodes : ℕ → Map ModelCapacityKey ℕ → Map ModelCapacityKey ℕ
retain_other_nodes node_id [] = []
retain_other_nodes node_id ((key, a) ∷ m) =
    if key.node_id == node_id
    then retain_other_nodes node_id m
    else (key, a) ∷ retain_other_nodes node_id m

unfoldable pub clear_node : CapacityTracker → ℕ → CapacityTracker
unfolding retain_other_nodes
clear_node t node_id = record t { slots = retain_other_nodes node_id t.slots }

-- What `release_inner` does to the slot that the key names now.
abbrev pub release_slot : Slot → Slot
release_slot s = record s { active = sub_u32 s.active 1; notify = suc s.notify }

unfoldable pub release_inner : CapacityTracker → ModelCapacityKey → CapacityTracker
release_inner t key = elim (lookup key t.slots) [
  | none ↦ t
  | some a ↦ record t { heap = set t.heap a (release_slot (slot_at t a)) }
]

pub record CapacityGuard : Type 0 where
  pub key : ModelCapacityKey
  pub unlimited : Bool

-- `Drop for CapacityGuard`
unfoldable pub drop_guard : CapacityTracker → CapacityGuard → CapacityTracker
unfolding release_inner
drop_guard t g = if not g.unlimited then release_inner t g.key else t

-- `scale c` stands for `(c as f64 * queue_depth_ratio).floor() as u32`.
unfoldable pub max_queue_depth : (ℕ → ℕ) → ℕ → ℕ
max_queue_depth scale concurrency = if concurrency == 0 then 0 else max (scale concurrency) 1
