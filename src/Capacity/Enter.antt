-- ===== src/Capacity/Enter.antt =====
-- How the invariant of the capacity slots survives a new slot and a new call
-- (src/capacity/mod.rs).
use sparkl_router.Common.{
  ℕ, zero, suc, ◌<◌, ◌≡◌, ◌≢◌, sym, ap, subst, subst₂, ◌∙◌, ◌⊎◌, inl, inr, true, false, none, some,
  [], ◌∷◌, ◌++◌, arith, lookup, insert, length, Map, get_elem?, total, Option-cases,
  lookup-insert_self, lookup-insert_ne, length-append, get_elem?-append_left,
  get_elem?-append_length,
}
use sparkl_router.Capacity.{
  ModelCapacityKey, CapacityTracker, empty_slot, slot_at, slot_for, key_eq,
}
use sparkl_router.Capacity.Acquire.{Pc, failed, holding, dropped}
use sparkl_router.Capacity.System.{Task, System}
use sparkl_router.Capacity.Invariant.{holds_slot, place, HasSlot, TaskInv, SlotInv, Inv}
use sparkl_router.Capacity.Settle.{key_cases}

HasSlot-mono :
    (pc : Pc) (m n : Map ModelCapacityKey ℕ) (k : ModelCapacityKey) (a : ℕ)
    → (lookup k m ≡ some a → lookup k n ≡ some a)
    → HasSlot pc m k a
    → HasSlot pc n k a
HasSlot-mono (failed e) m n k a f h = tt
HasSlot-mono (holding true) m n k a f h = tt
HasSlot-mono (holding false) m n k a f h = f h
HasSlot-mono dropped m n k a f h = tt
HasSlot-mono _ m n k a f h = f h

module _ (c m : ℕ) (s : System) (inv : Inv c m s) where
  -- A new call that neither holds nor waits.
  pub enter :
      (task : Task)
      → holds_slot task.pc ≡ 0
      → place task.pc ≡ 0
      → TaskInv c m s.tracker.slots task
      → Inv c m (record s { tasks = task ∷ s.tasks })
  unfolding total
  enter task no_hold no_wait fine = record {
    tasks_fine = fine_at;
    in_heap = inv.in_heap;
    no_sharing = inv.no_sharing;
    slots_fine = λ k a h.
        let before = inv.slots_fine k a h in
        record {
          active_exact = ground arith;
          queued_exact = ground arith;
          active_bound = before.active_bound;
          queued_bound = before.queued_bound;
        };
    none_without = λ k h. let before = inv.none_without k h in (ground arith, ground arith);
  }
    where
      fine_at :
          (i : ℕ) (t : Task) → get_elem? (task ∷ s.tasks) i ≡ some t → TaskInv c m s.tracker.slots t
      fine_at zero t e = subst (TaskInv c m s.tracker.slots) (ground arith) fine
      fine_at (suc i) t e = inv.tasks_fine i t e

  module _ (key : ModelCapacityKey) (missing : lookup key s.tracker.slots ≡ none) where
    abbrev grown : CapacityTracker
    grown = record {
      slots = insert key (length s.tracker.heap) s.tracker.slots;
      heap = s.tracker.heap ++ empty_slot ∷ [];
    }

    -- What a lookup finds among the grown slots: the new one, or an old one.
    grown_cases :
        (k : ModelCapacityKey) (a : ℕ)
        → lookup k grown.slots ≡ some a
        → ((key ≡ k) × (length s.tracker.heap ≡ a))
          ⊎ ((key ≢ k) × (lookup k s.tracker.slots ≡ some a))
    grown_cases k a h = elim (key_cases key k) [
      | inl e ↦
          inl (e, ground (arith, lookup-insert_self key (length s.tracker.heap) s.tracker.slots))
      | inr differ ↦
          inr (
            differ,
            sym (lookup-insert_ne key k (length s.tracker.heap) s.tracker.slots differ) ∙ h,
          )
    ]

    old_slot : (a : ℕ) → a < length s.tracker.heap → slot_at grown a ≡ slot_at s.tracker a
    old_slot a h = rw (slot_at, get_elem?-append_left s.tracker.heap (empty_slot ∷ []) a h)

    new_slot : slot_at grown (length s.tracker.heap) ≡ empty_slot
    new_slot = rw (slot_at, get_elem?-append_length s.tracker.heap empty_slot)

    kept :
        (k : ModelCapacityKey) (a : ℕ)
        → lookup k s.tracker.slots ≡ some a
        → lookup k grown.slots ≡ some a
    kept k a h =
        lookup-insert_ne key k (length s.tracker.heap) s.tracker.slots
          (λ e. cc (ap (λ j. lookup j s.tracker.slots) e))
        ∙ h

    slots_grow :
        (k : ModelCapacityKey) (a : ℕ)
        → lookup k grown.slots ≡ some a
        → SlotInv c m (record s { tracker = grown }) k (slot_at grown a)
    slots_grow k a h = elim (grown_cases k a h) [
      | inl (e, here) ↦
          let zeros = inv.none_without key missing in
          subst₂ (λ k a. SlotInv c m (record s { tracker = grown }) k (slot_at grown a)) e here
            (subst (SlotInv c m (record s { tracker = grown }) key) (sym new_slot) (record {
              active_exact = sym zeros.0;
              queued_exact = sym zeros.1;
              active_bound = omega arith;
              queued_bound = omega arith;
            }))
      | inr (differ, old) ↦
          let before = inv.slots_fine k a old in
          subst (SlotInv c m (record s { tracker = grown }) k)
            (sym (old_slot a (inv.in_heap k a old)))
            (record {
              active_exact = before.active_exact;
              queued_exact = before.queued_exact;
              active_bound = before.active_bound;
              queued_bound = before.queued_bound;
            })
    ]

    tasks_grow : (i : ℕ) (t : Task) → get_elem? s.tasks i ≡ some t → TaskInv c m grown.slots t
    tasks_grow i t e =
        let before = inv.tasks_fine i t e in
        record {
          below = before.below;
          read = before.read;
          slot =
              HasSlot-mono t.pc s.tracker.slots grown.slots t.key t.addr (kept t.key t.addr)
                before.slot;
        }

    grown_in_heap :
        (k : ModelCapacityKey) (a : ℕ) → lookup k grown.slots ≡ some a → a < length grown.heap
    grown_in_heap k a h = elim (grown_cases k a h) [
      | inl (e, here) ↦ omega (arith, length-append s.tracker.heap (empty_slot ∷ []))
      | inr (differ, old) ↦
          omega (arith, inv.in_heap k a old, length-append s.tracker.heap (empty_slot ∷ []))
    ]

    grown_no_sharing :
        (k j : ModelCapacityKey) (a : ℕ)
        → lookup k grown.slots ≡ some a
        → lookup j grown.slots ≡ some a
        → k ≡ j
    grown_no_sharing k j a h g = elim (grown_cases k a h) [
      | inl (e, here) ↦ elim (grown_cases j a g) [
        | inl (e', _) ↦ sym e ∙ e'
        | inr (_, old) ↦ absurd (omega (arith, inv.in_heap j a old))
      ]
      | inr (differ, old) ↦ elim (grown_cases j a g) [
        | inl (_, here) ↦ absurd (omega (arith, inv.in_heap k a old))
        | inr (_, old') ↦ inv.no_sharing k j a old old'
      ]
    ]

    grow : Inv c m (record s { tracker = grown })
    grow = record {
      tasks_fine = tasks_grow;
      in_heap = grown_in_heap;
      no_sharing = grown_no_sharing;
      slots_fine = slots_grow;
      none_without = λ k h. elim (key_cases key k) [
        | inl e ↦
            absurd (ground (arith, lookup-insert_self key (length s.tracker.heap) s.tracker.slots))
        | inr differ ↦
            inv.none_without k
              (sym (lookup-insert_ne key k (length s.tracker.heap) s.tracker.slots differ) ∙ h)
      ];
    }

  -- After `slot_for` the invariant holds, the key has the slot that it returned, and no other changed.
  pub slot_for-Inv :
      (key : ModelCapacityKey)
      → Inv c m (record s { tracker = (slot_for s.tracker key).0 })
        × (lookup key (slot_for s.tracker key).0.slots ≡ some (slot_for s.tracker key).1)
  unfolding slot_for
  slot_for-Inv key = elim (Option-cases (lookup key s.tracker.slots)) [
    | inl missing ↦
        rw (missing, slot_for) (grow key missing, lookup-insert_self key _ s.tracker.slots)
    | inr (a, found) ↦ rw (found, slot_for) (inv, found)
  ]
