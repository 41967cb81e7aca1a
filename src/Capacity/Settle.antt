-- ===== src/Capacity/Settle.antt =====
-- How the invariant of the capacity slots survives a change of one call and of its slot
-- (src/capacity/mod.rs).
use sparkl_router.Common.{
  ℕ, zero, suc, ◌+◌, ◌≤◌, ◌<◌, ◌≡◌, ◌≢◌, refl, sym, ap, subst, subst₂, ◌∙◌, ◌⊎◌, inl, inr, some,
  List, [], ◌∷◌, arith, if◌then◌else◌, lookup, length, get_elem?, set, total, total-set, le-total,
  Bool-cases, get_elem?-set_self, get_elem?-set_ne, length-set,
}
use sparkl_router.Capacity.{ModelCapacityKey, CapacityTracker, Slot, new, slot_at, key_eq}
use sparkl_router.Capacity.Acquire.{Pc}
use sparkl_router.Capacity.System.{Task, System}
use sparkl_router.Capacity.Invariant.{
  holds_slot, place, holders, places, HasRead, HasSlot, TaskInv, SlotInv, Inv, Balanced,
}

slot_at-set_self :
    (m : CapacityTracker) (a : ℕ) (s : Slot)
    → a < length m.heap
    → slot_at (record m { heap = set m.heap a s }) a ≡ s
slot_at-set_self m a s h = rw (slot_at, get_elem?-set_self m.heap a s h)

slot_at-set_ne :
    (m : CapacityTracker) (a b : ℕ) (s : Slot)
    → a ≢ b
    → slot_at (record m { heap = set m.heap a s }) b ≡ slot_at m b
slot_at-set_ne m a b s h = rw (slot_at, get_elem?-set_ne m.heap s h)

pub key_cases : (k j : ModelCapacityKey) → (k ≡ j) ⊎ (k ≢ j)
key_cases k j = elim (Bool-cases (key_eq.beq k j)) [
  | inl e ↦ inl ((key_eq.beq_iff k j).0 e)
  | inr e ↦ inr (λ p. cc (e, (key_eq.beq_iff k j).1 p))
]

-- A weight on the calls of one key, after a change of one task.
module _ (w : Pc → ℕ) (tasks : List Task) (i : ℕ) (old : Task) (to : Pc)
    (at : get_elem? tasks i ≡ some old) where
  moved_same :
      total
          (λ t. if key_eq.beq t.key old.key then w t.pc else 0)
          (set tasks i (record old { pc = to }))
        + w old.pc
      ≡ total (λ t. if key_eq.beq t.key old.key then w t.pc else 0) tasks + w to
  moved_same = ground (
    arith,
    total-set (λ t. if key_eq.beq t.key old.key then w t.pc else 0) tasks i old
        (record old { pc = to }) at,
    (key_eq.beq_iff old.key old.key).1 refl,
  )

  moved_other :
      (k : ModelCapacityKey)
      → old.key ≢ k
      → total (λ t. if key_eq.beq t.key k then w t.pc else 0) (set tasks i (record old { pc = to }))
        ≡ total (λ t. if key_eq.beq t.key k then w t.pc else 0) tasks
  moved_other k h = ground (
    arith,
    total-set (λ t. if key_eq.beq t.key k then w t.pc else 0) tasks i old (record old { pc = to })
        at,
    key_eq.beq_iff old.key k,
  )

-- A task counts towards its own key.
module _ (tasks : List Task) (i : ℕ) (old : Task) (at : get_elem? tasks i ≡ some old) where
  pub holders_bound : holds_slot old.pc ≤ holders old.key tasks
  holders_bound = ground (
    arith,
    le-total (λ t. if key_eq.beq t.key old.key then holds_slot t.pc else 0) tasks i old at,
    (key_eq.beq_iff old.key old.key).1 refl,
  )

  pub places_bound : place old.pc ≤ places old.key tasks
  places_bound = ground (
    arith,
    le-total (λ t. if key_eq.beq t.key old.key then place t.pc else 0) tasks i old at,
    (key_eq.beq_iff old.key old.key).1 refl,
  )

-- The tasks after a change of one: that one, or one that was there.
set_cases :
    (tasks : List Task) (i j : ℕ) (old new task : Task)
    → get_elem? tasks i ≡ some old
    → get_elem? (set tasks i new) j ≡ some task
    → (new ≡ task) ⊎ (get_elem? tasks j ≡ some task)
set_cases [] i j old new task h g = absurd (ground arith)
set_cases (x ∷ xs) zero zero old new task h g = inl (ground arith)
set_cases (x ∷ xs) zero (suc j) old new task h g = inr g
set_cases (x ∷ xs) (suc i) zero old new task h g = inr g
set_cases (x ∷ xs) (suc i) (suc j) old new task h g = set_cases xs i j old new task h g

module _ (c m : ℕ) (s : System) (inv : Inv c m s) (i : ℕ) (old : Task) (to : Pc)
    (at : get_elem? s.tasks i ≡ some old) where
  -- The task moves, and no counter with it.
  abbrev moved : System
  moved = record s { tasks = set s.tasks i (record old { pc = to }) }

  -- Its slot moves with it.
  abbrev moved_with : Slot → System
  moved_with slot = record {
    tracker = record s.tracker { heap = set s.tracker.heap old.addr slot };
    tasks = set s.tasks i (record old { pc = to });
  }

  tasks_settle :
      HasRead old.call to
      → HasSlot to s.tracker.slots old.key old.addr
      → (j : ℕ) (task : Task) → get_elem? (set s.tasks i (record old { pc = to })) j ≡ some task
      → TaskInv c m s.tracker.slots task
  tasks_settle read has j task g =
      elim (set_cases s.tasks i j old (record old { pc = to }) task at g) [
        | inl e ↦
            subst (TaskInv c m s.tracker.slots) e
              (record { below = (inv.tasks_fine i old at).below; read = read; slot = has })
        | inr e ↦ inv.tasks_fine j task e
      ]

  module _ (slot : Slot) (found : lookup old.key s.tracker.slots ≡ some old.addr)
      (bal : Balanced c m (slot_at s.tracker old.addr) slot old.pc to) where
    slot_same : SlotInv c m (moved_with slot) old.key (slot_at (moved_with slot).tracker old.addr)
    slot_same =
        let before = inv.slots_fine old.key old.addr found in
        subst (SlotInv c m (moved_with slot) old.key)
          (sym (slot_at-set_self s.tracker old.addr slot (inv.in_heap old.key old.addr found)))
          (record {
            active_exact =
                omega (arith, before.active_exact, moved_same holds_slot s.tasks i old to at);
            queued_exact = omega (arith, before.queued_exact, moved_same place s.tasks i old to at);
            active_bound = bal.active_small;
            queued_bound = bal.queued_small;
          })

    slot_other :
        (k : ModelCapacityKey) (a : ℕ)
        → old.key ≢ k
        → lookup k s.tracker.slots ≡ some a
        → SlotInv c m (moved_with slot) k (slot_at (moved_with slot).tracker a)
    slot_other k a differ h =
        let before = inv.slots_fine k a h in
        subst (SlotInv c m (moved_with slot) k)
          (sym (
            slot_at-set_ne s.tracker old.addr a slot
              (λ e. differ (inv.no_sharing old.key k a (found ∙ ap some e) h))))
          (record {
            active_exact =
                before.active_exact ∙ sym (moved_other holds_slot s.tasks i old to at k differ);
            queued_exact =
                before.queued_exact ∙ sym (moved_other place s.tasks i old to at k differ);
            active_bound = before.active_bound;
            queued_bound = before.queued_bound;
          })

    slot_again :
        (k : ModelCapacityKey) (a : ℕ)
        → old.key ≡ k
        → lookup k s.tracker.slots ≡ some a
        → SlotInv c m (moved_with slot) k (slot_at (moved_with slot).tracker a)
    slot_again k a e h =
        let here : old.addr ≡ a = ground arith in
        subst₂ (λ k a. SlotInv c m (moved_with slot) k (slot_at (moved_with slot).tracker a)) e here
          slot_same

    pub settle :
        HasRead old.call to
        → HasSlot to s.tracker.slots old.key old.addr
        → Inv c m (moved_with slot)
    settle read has = record {
      tasks_fine = tasks_settle read has;
      in_heap = λ k a h. rw (length-set s.tracker.heap old.addr slot) (inv.in_heap k a h);
      no_sharing = inv.no_sharing;
      slots_fine = λ k a h. elim (key_cases old.key k) [
        | inl e ↦ slot_again k a e h
        | inr differ ↦ slot_other k a differ h
      ];
      none_without = λ k h. elim (key_cases old.key k) [
        | inl e ↦ absurd (ground arith)
        | inr differ ↦ (
          moved_other holds_slot s.tasks i old to at k differ ∙ (inv.none_without k h).0,
          moved_other place s.tasks i old to at k differ ∙ (inv.none_without k h).1,
        )
      ];
    }

  -- The task moves alone, between two places with the same weights.
  pub settle_alone :
      holds_slot old.pc ≡ holds_slot to
      → place old.pc ≡ place to
      → HasRead old.call to
      → HasSlot to s.tracker.slots old.key old.addr
      → Inv c m moved
  settle_alone same_hold same_queue read has = record {
    tasks_fine = tasks_settle read has;
    in_heap = inv.in_heap;
    no_sharing = inv.no_sharing;
    slots_fine = λ k a h.
        let before = inv.slots_fine k a h in
        record {
          active_exact = before.active_exact ∙ sym (still holds_slot same_hold k);
          queued_exact = before.queued_exact ∙ sym (still place same_queue k);
          active_bound = before.active_bound;
          queued_bound = before.queued_bound;
        };
    none_without = λ k h.
        let before = inv.none_without k h in
        (still holds_slot same_hold k ∙ before.0, still place same_queue k ∙ before.1);
  }
    where
      still :
          (w : Pc → ℕ)
          → w old.pc ≡ w to
          → (k : ModelCapacityKey)
          → total
              (λ t. if key_eq.beq t.key k then w t.pc else 0)
              (set s.tasks i (record old { pc = to }))
            ≡ total (λ t. if key_eq.beq t.key k then w t.pc else 0) s.tasks
      still w e k = ground (
        arith,
        total-set (λ t. if key_eq.beq t.key k then w t.pc else 0) s.tasks i old
            (record old { pc = to }) at,
      )
