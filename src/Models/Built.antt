-- ===== src/Models/Built.antt =====
-- The entry that the merge makes out of the snapshots of one model: what it shows, and that one more
-- snapshot is added to it.
use sparkl_router.Common.{
  ℕ, ◌+◌, ◌-◌, ◌^◌, ◌<◌, min, ◌≡◌, refl, ap, ◌∙◌, ◌⊎◌, inl, inr, Bool, true, false, ◌||◌, some,
  List, [], ◌∷◌, map, arith, Text, codes, ltb, if◌then◌else◌, saturating_add, Bool-cases, total,
}
use sparkl_router.Json.{Json, ◌>>=◌, unwrap_or, get, pointer}
use sparkl_router.Models.Offering.{ProviderOffering, build_offering_with_load}
use sparkl_router.Models.Merge.{
  Listing, plain_offering, offering_json, provider_snapshot, provider_active, provider_concurrency,
  total_active, total_available, any_limited, apply_aggregated_load, put_sparkl, sparkl_of,
}

module _ (j : Json) where
  -- The entry with a list of snapshots and their loads.
  abbrev pub with_providers : j.Object → j.Object → List j.Value → j.Value
  with_providers sparkl obj ps =
      put_sparkl j (apply_aggregated_load j (j.put (codes "providers") (j.of_array ps) sparkl) ps)
        obj

  get_of_object : (o : j.Object) (k : Text) → get j (j.of_object o) k ≡ j.find o k
  get_of_object o k = rw (j.as_object_of_object o) refl

  find_sparkl :
      (sparkl obj : j.Object)
      → j.find (j.put (codes "sparkl") (j.of_object sparkl) obj) (codes "sparkl")
        ≡ some (j.of_object sparkl)
  find_sparkl sparkl obj = j.find_put (codes "sparkl") (codes "sparkl") (j.of_object sparkl) obj

  pub sparkl_of-put :
      (sparkl obj : j.Object)
      → sparkl_of j (j.put (codes "sparkl") (j.of_object sparkl) obj) ≡ some sparkl
  sparkl_of-put sparkl obj =
      ap (λ v. j.as_object (unwrap_or v (j.of_object j.empty))) (find_sparkl sparkl obj)
      ∙ j.as_object_of_object sparkl

  pointer-put_sparkl :
      (sparkl obj : j.Object) (k : Text)
      → pointer j (put_sparkl j sparkl obj) (codes "sparkl") k ≡ j.find sparkl k
  pointer-put_sparkl sparkl obj k =
      rw (get_of_object (j.put (codes "sparkl") (j.of_object sparkl) obj) (codes "sparkl"))
        (rw (find_sparkl sparkl obj) (get_of_object sparkl k))

  pub find_providers :
      (sparkl : j.Object) (ps qs : List j.Value)
      → j.find
          (apply_aggregated_load j (j.put (codes "providers") (j.of_array ps) sparkl) qs)
          (codes "providers")
        ≡ some (j.of_array ps)
  unfolding apply_aggregated_load
  find_providers sparkl ps qs =
      elim (Bool-cases (ltb 0 (total_available j qs 0) || any_limited j qs)) [
        | inl t ↦ rw t (simp j.find_put)
        | inr t ↦ rw t (simp j.find_put)
      ]

  find_active :
      (sparkl : j.Object) (ps : List j.Value)
      → (j.find (apply_aggregated_load j sparkl ps) (codes "active_requests")
          ≡ some (j.of_u64 (total_active j ps 0)))
        × (j.find (apply_aggregated_load j sparkl ps) (codes "active_sessions")
            ≡ some (j.of_u64 (total_active j ps 0)))
  unfolding apply_aggregated_load
  find_active sparkl ps = elim (Bool-cases (ltb 0 (total_available j ps 0) || any_limited j ps)) [
    | inl t ↦ rw t (simp j.find_put, simp j.find_put)
    | inr t ↦ rw t (simp j.find_put, simp j.find_put)
  ]

  find_available :
      (sparkl : j.Object) (ps : List j.Value)
      → any_limited j ps ≡ true
      → j.find (apply_aggregated_load j sparkl ps) (codes "available_slots")
        ≡ some (j.of_u64 (total_available j ps 0))
  unfolding apply_aggregated_load
  find_available sparkl ps h =
      elim (Bool-cases (ltb 0 (total_available j ps 0) || any_limited j ps)) [
        | inl t ↦ rw t (simp j.find_put)
        | inr t ↦ absurd (ground (arith, h, t))
      ]

  -- What the aggregation reads out of a snapshot.
  active_of_json :
      (o : ProviderOffering)
      → o.active_requests < 2 ^ 64
      → provider_active j (offering_json j o) ≡ o.active_requests
  active_of_json o h =
      simp (j.as_object_of_object, j.find_put) (rw (j.as_u64_of_u64 o.active_requests h) refl)

  concurrency_of_json :
      (o : ProviderOffering)
      → o.concurrency < 2 ^ 64
      → provider_concurrency j (offering_json j o) ≡ o.concurrency
  concurrency_of_json o h =
      simp (j.as_object_of_object, j.find_put) (rw (j.as_u64_of_u64 o.concurrency h) refl)

-- The snapshots of listings, and the sums over them.
module _ (j : Json) (encode : List ℕ → Text) where
  abbrev pub load : Listing j.Value → ℕ
  load l = (plain_offering j encode l).active_requests

  abbrev pub capacity : Listing j.Value → ℕ
  capacity l = (plain_offering j encode l).concurrency

  abbrev pub free : Listing j.Value → ℕ
  free l = if ltb 0 (capacity l) then capacity l - load l else 0

  abbrev pub has_limit : List (Listing j.Value) → Bool
  has_limit [] = false
  has_limit (l ∷ ls) = ltb 0 (capacity l) || has_limit ls

  abbrev pub snapshots : List (Listing j.Value) → List j.Value
  snapshots = map (provider_snapshot j encode)

  provider_active-snapshot :
      (l : Listing j.Value) → provider_active j (provider_snapshot j encode l) ≡ load l
  unfolding provider_snapshot build_offering_with_load
  provider_active-snapshot l = active_of_json j (plain_offering j encode l) (omega arith)

  provider_concurrency-snapshot :
      (l : Listing j.Value) → provider_concurrency j (provider_snapshot j encode l) ≡ capacity l
  unfolding provider_snapshot build_offering_with_load
  provider_concurrency-snapshot l = concurrency_of_json j (plain_offering j encode l) (omega arith)

  total_active-snapshots :
      (ls : List (Listing j.Value)) (n : ℕ)
      → n < 2 ^ 64
      → total_active j (snapshots ls) n ≡ min (n + total load ls) (2 ^ 64 - 1)
  unfolding total_active total
  total_active-snapshots [] n h = omega arith
  total_active-snapshots (l ∷ ls) n h =
      ap (λ a. total_active j (snapshots ls) (saturating_add n a)) (provider_active-snapshot l)
      ∙ total_active-snapshots ls (saturating_add n (load l)) (omega arith)
      ∙ omega arith

  -- One step of the sum of the free slots.
  abbrev next_available : ℕ → ℕ → ℕ → ℕ
  next_available n c a = if ltb 0 c then saturating_add n (c - a) else n

  total_available-snapshots :
      (ls : List (Listing j.Value)) (n : ℕ)
      → n < 2 ^ 64
      → total_available j (snapshots ls) n ≡ min (n + total free ls) (2 ^ 64 - 1)
  unfolding total_available total
  total_available-snapshots [] n h = omega arith
  total_available-snapshots (l ∷ ls) n h =
      ap
        (λ c.
          total_available j (snapshots ls)
            (next_available n c (provider_active j (provider_snapshot j encode l))))
        (provider_concurrency-snapshot l)
      ∙ ap (λ a. total_available j (snapshots ls) (next_available n (capacity l) a))
          (provider_active-snapshot l)
      ∙ total_available-snapshots ls (next_available n (capacity l) (load l)) (ground arith)
      ∙ ground arith

  any_limited-snapshots :
      (ls : List (Listing j.Value)) → any_limited j (snapshots ls) ≡ has_limit ls
  unfolding any_limited
  any_limited-snapshots [] = refl
  any_limited-snapshots (l ∷ ls) =
      ap (λ c. ltb 0 c || any_limited j (snapshots ls)) (provider_concurrency-snapshot l)
      ∙ ap (λ b. ltb 0 (capacity l) || b) (any_limited-snapshots ls)

  -- What the entry of a model shows of the listings `ls` of it: each node's snapshot, in order, and the
  -- sums over the nodes, which stop at the largest `u64`.
  abbrev pub Aggregates : j.Value → List (Listing j.Value) → Type 0
  Aggregates v ls =
      ((pointer j v (codes "sparkl") (codes "providers") >>= j.as_array)
        ≡ some (map (provider_snapshot j encode) ls))
      × (pointer j v (codes "sparkl") (codes "active_requests")
          ≡ some (j.of_u64 (min (total load ls) (2 ^ 64 - 1))))
      × (pointer j v (codes "sparkl") (codes "active_sessions")
          ≡ some (j.of_u64 (min (total load ls) (2 ^ 64 - 1))))
      × ((has_limit ls ≡ false)
          ⊎ (pointer j v (codes "sparkl") (codes "available_slots")
              ≡ some (j.of_u64 (min (total free ls) (2 ^ 64 - 1)))))

  pub with_providers-Aggregates :
      (sparkl obj : j.Object) (ls : List (Listing j.Value))
      → Aggregates (with_providers j sparkl obj (snapshots ls)) ls
  with_providers-Aggregates sparkl obj ls =
      let ps = snapshots ls in
      let listed = j.put (codes "providers") (j.of_array ps) sparkl in
      let shown = apply_aggregated_load j listed ps in
      let at = pointer-put_sparkl j shown obj in
      let active : total_active j ps 0 ≡ min (total load ls) (2 ^ 64 - 1) =
        total_active-snapshots ls 0 (omega arith) ∙ omega arith in
      let available : total_available j ps 0 ≡ min (total free ls) (2 ^ 64 - 1) =
        total_available-snapshots ls 0 (omega arith) ∙ omega arith in
      let sum = ap (λ n. some (j.of_u64 n)) active in
      let sums = find_active j listed ps in
      (
        ap (λ v. v >>= j.as_array) (at (codes "providers") ∙ find_providers j sparkl ps ps)
            ∙ j.as_array_of_array ps,
        at (codes "active_requests") ∙ sums.0 ∙ sum,
        at (codes "active_sessions") ∙ sums.1 ∙ sum,
        elim (Bool-cases (has_limit ls)) [
          | inl t ↦ inr (
              at (codes "available_slots")
              ∙ find_available j listed ps (any_limited-snapshots ls ∙ t)
              ∙ ap (λ n. some (j.of_u64 n)) available)
          | inr f ↦ inl f
        ],
      )
