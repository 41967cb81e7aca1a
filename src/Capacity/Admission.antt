-- ===== src/Capacity/Admission.antt =====
-- Admission control (src/capacity/mod.rs): however the calls interleave, no more requests run than
-- the declared concurrency, and no more wait than the queue allows.
use sparkl_router.Common.{
  ℕ, ◌^◌, ◌≤◌, ◌<◌, ◌≡◌, refl, subst, ◌+◌, ◌∙◌, inl, inr, Bool, true, false, some, List, [], arith,
  ◌==◌, Bool-cases, Option-cases, lookup, get_elem?, total,
}
use sparkl_router.Capacity.{ModelCapacityKey, key_eq, new, slot_at, release_inner, release_slot}
use sparkl_router.Capacity.Acquire.{Call, Pc, failed, waiting, holding, dropped, abandoned, attempt}
use sparkl_router.Capacity.System.{
  Task, System, is_running, start_acquire, advance, drop_task, cancel_task, Step, begin, run,
  release, cancel, look, clear, Reach, start, next,
}
use sparkl_router.Capacity.Invariant.{
  holders, waiters, lost, places-split, HasSlot, Inv, attempt-Balanced, attempt-HasRead,
  attempt-HasSlot,
}
use sparkl_router.Capacity.Settle.{settle, settle_alone, holders_bound, places_bound}
use sparkl_router.Capacity.Enter.{enter, slot_for-Inv}

running-HasSlot :
    (pc : Pc) (slots : List (ModelCapacityKey × ℕ)) (k : ModelCapacityKey) (a : ℕ)
    → is_running pc ≡ true
    → HasSlot pc slots k a
    → lookup k slots ≡ some a
running-HasSlot (failed e) slots k a r h = absurd (ground arith)
running-HasSlot (holding unlimited) slots k a r h = absurd (ground arith)
running-HasSlot dropped slots k a r h = absurd (ground arith)
running-HasSlot abandoned slots k a r h = absurd (ground arith)
running-HasSlot _ slots k a r h = h

counted-HasSlot :
    (pc : Pc) (slots : List (ModelCapacityKey × ℕ)) (k : ModelCapacityKey) (a : ℕ)
    → pc ≡ holding false
    → HasSlot pc slots k a
    → lookup k slots ≡ some a
counted-HasSlot pc slots k a e h = subst (λ p. HasSlot p slots k a) e h

module _ (c m : ℕ) (small : (c < 2 ^ 32) × (m < 2 ^ 32)) where
  begin-Inv :
      (s : System) (key : ModelCapacityKey) (call : Call)
      → Inv c m s
      → call.concurrency ≤ c
      → call.max_queue ≤ m
      → Inv c m (start_acquire key call s)
  unfolding start_acquire
  begin-Inv s key call inv hc hm = elim (Bool-cases (call.concurrency == 0)) [
    | inl zero_c ↦
        rw (zero_c, start_acquire)
          (enter c m s inv _ refl refl (record { below = (hc, hm); read = tt; slot = tt }))
    | inr pos ↦
        let grown = slot_for-Inv c m s inv key in
        rw (pos, start_acquire)
          (enter c m _ grown.0 _ refl refl (record { below = (hc, hm); read = tt; slot = grown.1 }))
  ]

  run-Inv :
      (s : System) (i : ℕ) (task : Task) (ok : Bool)
      → Inv c m s
      → get_elem? s.tasks i ≡ some task
      → is_running task.pc ≡ true
      → Inv c m (advance i task ok s)
  unfolding advance
  run-Inv s i task ok inv at running =
      let fine = inv.tasks_fine i task at in
      let found = running-HasSlot task.pc s.tracker.slots task.key task.addr running fine.slot in
      let before = inv.slots_fine task.key task.addr found in
      let slot = slot_at s.tracker task.addr in
      settle c m s inv i task (attempt task.call task.pc ok slot).1 at
        (attempt task.call task.pc ok slot).0 found
        (attempt-Balanced c m small task.call fine.below task.pc ok slot
          (
            before.active_bound,
            before.queued_bound,
            omega (arith, before.active_exact, holders_bound s.tasks i task at),
            omega (arith, before.queued_exact, places_bound s.tasks i task at),
          )
          fine.read)
        (attempt-HasRead c m small task.call fine.below task.pc ok slot)
        (attempt-HasSlot task.call task.pc ok slot s.tracker.slots task.key task.addr found)

  drop_counted-Inv :
      (s : System) (i : ℕ) (task : Task)
      → Inv c m s
      → get_elem? s.tasks i ≡ some task
      → task.pc ≡ holding false
      → Inv c m (drop_task i task false s)
  unfolding drop_task release_inner
  drop_counted-Inv s i task inv at held =
      let found =
        counted-HasSlot task.pc s.tracker.slots task.key task.addr held
          (inv.tasks_fine i task at).slot in
      let before = inv.slots_fine task.key task.addr found in
      let one_held : 1 ≤ (slot_at s.tracker task.addr).active =
        ground (arith, before.active_exact, holders_bound s.tasks i task at) in
      rw (found, release_inner)
        (settle c m s inv i task dropped at (release_slot (slot_at s.tracker task.addr)) found
          (record {
            active_moves = rw held (omega (arith, one_held, before.active_bound, small.0));
            queued_moves = rw held refl;
            active_small = omega (arith, one_held, before.active_bound, small.0);
            queued_small = before.queued_bound;
          })
          tt tt)

  drop_free-Inv :
      (s : System) (i : ℕ) (task : Task)
      → Inv c m s
      → get_elem? s.tasks i ≡ some task
      → task.pc ≡ holding true
      → Inv c m (drop_task i task true s)
  unfolding drop_task
  drop_free-Inv s i task inv at held =
      settle_alone c m s inv i task dropped at (rw held) (rw held) tt tt

  cancel-Inv :
      (s : System) (i : ℕ) (task : Task)
      → Inv c m s
      → get_elem? s.tasks i ≡ some task
      → task.pc ≡ waiting
      → Inv c m (cancel_task i task s)
  cancel-Inv s i task inv at waits =
      settle_alone c m s inv i task abandoned at (rw waits refl) (rw waits refl) tt (
        subst (λ p. HasSlot p s.tracker.slots task.key task.addr) waits
          (inv.tasks_fine i task at).slot)

  Step-Inv : {s t : System} → Step c m false s t → Inv c m s → Inv c m t
  Step-Inv {s} (begin key call hc hm) inv = begin-Inv s key call inv hc hm
  Step-Inv {s} (run i task ok at running) inv = run-Inv s i task ok inv at running
  Step-Inv {s} (release i task true at held) inv = drop_free-Inv s i task inv at held
  Step-Inv {s} (release i task false at held) inv = drop_counted-Inv s i task inv at held
  Step-Inv {s} (cancel i task at waits) inv = cancel-Inv s i task inv at waits
  Step-Inv {s} (look key) inv = (slot_for-Inv c m s inv key).0
  Step-Inv (clear node_id allowed) inv = absurd (ground arith)

  initial-Inv : Inv c m (record { tracker = new; tasks = [] })
  unfolding lookup total
  initial-Inv = record {
    tasks_fine = λ i task e. absurd (ground arith);
    in_heap = λ k a e. absurd (ground arith);
    no_sharing = λ k j a e g. absurd (ground arith);
    slots_fine = λ k a e. absurd (ground arith);
    none_without = λ k e. (refl, refl);
  }

  Reach-Inv : {s : System} → Reach c m false s → Inv c m s
  Reach-Inv start = initial-Inv
  Reach-Inv (next r st) = Step-Inv st (Reach-Inv r)

-- In every state that calls, drops of guards, cancellations of waiting calls and looks at keys reach, in
-- whatever order and with no node cleared, each key has at most `c` counted guards and at most `m`
-- calls in its queue, if no call declares more than `c` and `m`.
pub admission_bound :
    (c m : ℕ) {s : System} (k : ModelCapacityKey)
    → c < 2 ^ 32
    → m < 2 ^ 32
    → Reach c m false s
    → (holders k s.tasks ≤ c) × (waiters k s.tasks ≤ m)
admission_bound c m {s} k hc hm r =
    let inv = Reach-Inv c m (hc, hm) r in
    elim (Option-cases (lookup k s.tracker.slots)) [
      | inl missing ↦ ground (arith, inv.none_without k missing, places-split k s.tasks)
      | inr (a, found) ↦ ground (arith, inv.slots_fine k a found, places-split k s.tasks)
    ]

-- In every state that calls, drops of guards, cancellations of waiting calls and looks at keys reach with
-- no node cleared, where no call declares more than `c` and `m`, the slot of a key counts exactly the
-- guards of the key that are held, and in its queue the calls that wait together with those that were
-- cancelled while they waited, of which each keeps its place for good.
pub counters_exact :
    (c m : ℕ) {s : System} (k : ModelCapacityKey) (a : ℕ)
    → c < 2 ^ 32
    → m < 2 ^ 32
    → Reach c m false s
    → lookup k s.tracker.slots ≡ some a
    → ((slot_at s.tracker a).active ≡ holders k s.tasks)
      × ((slot_at s.tracker a).queued ≡ waiters k s.tasks + lost k s.tasks)
counters_exact c m {s} k a hc hm r found =
    let fine = (Reach-Inv c m (hc, hm) r).slots_fine k a found in
    (fine.active_exact, fine.queued_exact ∙ places-split k s.tasks)
