-- ===== src/Capacity/Clearing.antt =====
-- `CapacityTracker::clear_node` (src/capacity/mod.rs), which a tunnel's end calls while guards of
-- its requests may still be alive.
use sparkl_router.Common.{
  ℕ, ◌-◌, ◌^◌, ◌<◌, ◌≡◌, ◌≢◌, refl, ap, true, false, none, some, [], ◌∷◌, ◌++◌, arith, ◌==◌,
  if◌then◌else◌, lookup, length, Map, lookup-insert_self, get_elem?-append_length,
  get_elem?-set_self, length-append, text_key,
}
use sparkl_router.Capacity.{
  ModelCapacityKey, key_eq, key_beq_iff, CapacityTracker, empty_slot, slot_at, slot_for, clear_node,
  retain_other_nodes, release_inner,
}
use sparkl_router.Capacity.Acquire.{Call, load_active, holding}
use sparkl_router.Capacity.Waiting.{attempts}

lookup-retain :
    (n : ℕ) (k : ModelCapacityKey) (m : Map ModelCapacityKey ℕ)
    → lookup k (retain_other_nodes n m) ≡ (if k.node_id == n then none else lookup k m)
unfolding lookup retain_other_nodes
lookup-retain n k [] = ground arith
lookup-retain n k ((j, a) ∷ m) = ground (arith, lookup-retain n k m, key_beq_iff j k)

-- `clear_node` forgets the slots of its node, and keeps those of every other node.
pub lookup-clear_node :
    (t : CapacityTracker) (n : ℕ) (k : ModelCapacityKey)
    → lookup k (clear_node t n).slots ≡ (if k.node_id == n then none else lookup k t.slots)
unfolding clear_node
lookup-clear_node t n k = lookup-retain n k t.slots

-- The tracker after its node is cleared, the key is looked at again (a status page, a request of
-- the node that is back), and a guard from before the clearing is dropped.
unfoldable pub late_release : CapacityTracker → ModelCapacityKey → CapacityTracker
unfolding clear_node slot_for release_inner
late_release t k = release_inner (slot_for (clear_node t k.node_id) k).0 k

late_slot :
    (t : CapacityTracker) (k : ModelCapacityKey)
    → (lookup k (late_release t k).slots ≡ some (length t.heap))
      × (slot_at (late_release t k) (length t.heap)
          ≡ record { active = 2 ^ 32 - 1; queued = 0; notify = 1 })
unfolding late_release
late_slot t k =
    let gone : lookup k (retain_other_nodes k.node_id t.slots) ≡ none =
      ground (arith, lookup-retain k.node_id k t.slots) in
    let back = lookup-insert_self k (length t.heap) (retain_other_nodes k.node_id t.slots) in
    rw (gone, slot_for)
      (rw (back, release_inner)
        (
          back,
          rw
              (
                slot_at,
                get_elem?-set_self (t.heap ++ empty_slot ∷ []) (length t.heap) _
                    (omega (arith, length-append t.heap (empty_slot ∷ []))),
              )
              (rw (slot_at, get_elem?-append_length t.heap empty_slot) refl),
        ))

-- A guard that outlives the clearing of its node, when the key has been looked at since, brings the
-- count of the new slot to 2^32 - 1; a call that then runs undisturbed does not take that slot,
-- whatever concurrency it declares.
pub late_release_blocks :
    (t : CapacityTracker) (k : ModelCapacityKey) (call : Call)
    → call.concurrency < 2 ^ 32
    → (lookup k (late_release t k).slots ≡ some (length t.heap))
      × ((slot_at (late_release t k) (length t.heap)).active ≡ 2 ^ 32 - 1)
      × ((attempts 3 call true (slot_at (late_release t k) (length t.heap), load_active)).1
          ≢ holding false)
unfolding attempts
late_release_blocks t k call h =
    let (found, slot) = late_slot t k in (found, ap (λ s. s.active) slot, rw slot (ground arith))
