-- ===== src/Models/Loads.antt =====
-- src/consumer/models.rs and src/capacity/mod.rs: the counts that the offerings show, read from a
-- tracker to which the reading itself adds empty slots.
use sparkl_router.Common.{
  ℕ, zero, suc, ◌≡◌, inl, inr, refl, ap, ◌∙◌, none, some, List, [], ◌∷◌, ◌++◌, map, Text, codes,
  lookup, insert, lookup-insert, get_elem?, length, Bool-cases, Option-cases,
}
use sparkl_router.Json.{Json}
use sparkl_router.Capacity.{
  CapacityTracker, ModelCapacityKey, Slot, key_eq, key_beq, key_beq_iff, empty_slot, slot_at,
  slot_for, snapshot,
}
use sparkl_router.Models.Offering.{ProviderOffering, build_offering_with_load}
use sparkl_router.Models.Merge.{Listing}
use sparkl_router.Models.Query.{key_of, offerings_with_load}

-- The running and the queued requests of a key; there are none without a slot.
abbrev pub load_of : CapacityTracker → ModelCapacityKey → ℕ × ℕ
load_of t key = elim (lookup key t.slots) [
  | none ↦ (0, 0)
  | some a ↦ ((slot_at t a).active, (slot_at t a).queued)
]

-- A new slot is as empty as one that is not there.
slot_at_longer :
    (slots : List Slot) (a : ℕ)
    → (elim (get_elem? (slots ++ empty_slot ∷ []) a) as (λ _. Slot) [
      | none ↦ empty_slot
      | some s ↦ s
    ])
      ≡ (elim (get_elem? slots a) as (λ _. Slot) [ none ↦ empty_slot | some s ↦ s ])
slot_at_longer [] zero = refl
slot_at_longer [] (suc a) = refl
slot_at_longer (s ∷ slots) zero = refl
slot_at_longer (s ∷ slots) (suc a) = slot_at_longer slots a

slot_at_length :
    (slots : List Slot)
    → (elim (get_elem? (slots ++ empty_slot ∷ []) (length slots)) as (λ _. Slot) [
      | none ↦ empty_slot
      | some s ↦ s
    ])
      ≡ empty_slot
slot_at_length [] = refl
slot_at_length (s ∷ slots) = slot_at_length slots

snapshot-load_of :
    (t : CapacityTracker) (key : ModelCapacityKey)
    → ((snapshot t key).1.active_requests ≡ (load_of t key).0)
      × ((snapshot t key).1.queued_requests ≡ (load_of t key).1)
unfolding snapshot slot_for
snapshot-load_of t key = elim (Option-cases (lookup key t.slots)) [
  | inl e ↦
      rw (e, snapshot, slot_for, load_of)
        (ap (λ s. s.active) (slot_at_length t.heap), ap (λ s. s.queued) (slot_at_length t.heap))
  | inr (a, e) ↦ rw (e, snapshot, slot_for, load_of) (refl, refl)
]

load_of_new :
    (t : CapacityTracker) (key other : ModelCapacityKey)
    → lookup key t.slots ≡ none
    → load_of
        (record { slots = insert key (length t.heap) t.slots; heap = t.heap ++ empty_slot ∷ [] })
        other
      ≡ load_of t other
load_of_new t key other e =
    let found = lookup-insert key other (length t.heap) t.slots in
    elim (Bool-cases (key_beq key other)) [
      | inl b ↦
          let same : key ≡ other = (key_beq_iff key other).0 b in
          let here : lookup other (insert key (length t.heap) t.slots) ≡ some (length t.heap) =
            found ∙ rw b refl in
          let before : lookup other t.slots ≡ none = rw (← same) e in
          rw (here, before, load_of)
            (λ i. ((slot_at_length t.heap i).active, (slot_at_length t.heap i).queued))
      | inr b ↦
          let same : lookup other (insert key (length t.heap) t.slots) ≡ lookup other t.slots =
            found ∙ rw b refl in
          rw (same, load_of)
            (elim (Option-cases (lookup other t.slots)) [
              | inl n ↦ rw (n, load_of) refl
              | inr (a, n) ↦
                  rw (n, load_of)
                    (λ i. ((slot_at_longer t.heap a i).active, (slot_at_longer t.heap a i).queued))
            ])
    ]

load_of-snapshot :
    (t : CapacityTracker) (key other : ModelCapacityKey)
    → load_of (snapshot t key).0 other ≡ load_of t other
unfolding snapshot slot_for
load_of-snapshot t key other = elim (Option-cases (lookup key t.slots)) [
  | inl e ↦ rw (e, snapshot, slot_for) (load_of_new t key other e)
  | inr (a, e) ↦ rw (e, snapshot, slot_for) refl
]

module _ (j : Json) (encode : List ℕ → Text) where
  -- The offering of a listing with the router's counts.
  abbrev pub loaded : CapacityTracker → Listing j.Value → ProviderOffering
  loaded t l =
      build_offering_with_load j encode l.node_id l.model_id l.entry (codes "unknown")
        (some (load_of t (key_of l)).0) (some (load_of t (key_of l)).1)

  pub offerings_with_load-map :
      (t s : CapacityTracker) (ls : List (Listing j.Value))
      → ((key : ModelCapacityKey) → load_of s key ≡ load_of t key)
      → (offerings_with_load j encode s ls).1 ≡ map (loaded t) ls
  unfolding offerings_with_load
  offerings_with_load-map t s [] h = refl
  offerings_with_load-map t s (l ∷ ls) h =
      let k = key_of l in
      let active : (snapshot s k).1.active_requests ≡ (load_of t k).0 =
        (snapshot-load_of s k).0 ∙ ap (λ p. p.0) (h k) in
      let queued : (snapshot s k).1.queued_requests ≡ (load_of t k).1 =
        (snapshot-load_of s k).1 ∙ ap (λ p. p.1) (h k) in
      let rest =
        offerings_with_load-map t (snapshot s k).0 ls (λ key. load_of-snapshot s k key ∙ h key) in
      λ i.
        build_offering_with_load j encode l.node_id l.model_id l.entry (codes "unknown")
          (some (active i)) (some (queued i))
        ∷ rest i
