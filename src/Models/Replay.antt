-- ===== src/Models/Replay.antt =====
-- src/consumer/models.rs: the catalog after a history of registrations and removals, against a replay
-- of the history that keeps no state.
use sparkl_router.Common.{
  some-inj, ℕ, ◌≡◌, ◌≢◌, ◌↔◌, refl, sym, ap, subst, inl, inr, true, false, Option, none, some, List,
  [], ◌∷◌, arith, Text, Map, lookup, insert, remove, text_key, nat_eq, ◌==◌, ==_iff, is_some,
  if◌then◌else◌, Bool-cases, Option-cases, mem-cons, remove-mem, mem-remove, lookup-none-mem,
}
use mathlib.Core.List.{Memᴰ}
use mathlib.Core.List.Memᴰ.{head, tail}
use sparkl_router.Json.{Json}
use sparkl_router.Models.Catalog.{
  ModelsCatalog, new_catalog, listings_of, listings, contains, rebuild_union, upsert_node,
  remove_node,
}
use sparkl_router.Models.Entries.{
  AreEntries, AreEntries-append, AreEntries-remove, offered, find_offer, offer_found,
}
use sparkl_router.Models.Aggregate.{Shows, merge_all-Shows}

pub data Event (V : Type 0) : Type 0 where
  upsert : (now node_id : ℕ) → Map Text V → Event V
  removal : (now node_id : ℕ) → Event V

-- What a node advertised last, in a history with the latest event first.
abbrev pub advertised : {V : Type 0} → List (Event V) → ℕ → Option (Map Text V)
advertised [] n = none
advertised (upsert now k models ∷ es) n = if k == n then some models else advertised es n
advertised (removal now k ∷ es) n = if k == n then none else advertised es n

same_false : (k n : ℕ) → k ≢ n → (k == n) ≡ false
same_false k n h = ground (arith)

module _ (j : Json) (encode : List ℕ → Text) where
  unfoldable pub replay : List (Event j.Value) → ModelsCatalog j.Value
  unfolding upsert_node remove_node
  replay [] = new_catalog
  replay (upsert now k models ∷ es) = upsert_node j encode now k models (replay es)
  replay (removal now k ∷ es) = remove_node j encode now k (replay es)

  -- Every entry that was registered is an entry.
  abbrev pub AreUpserts : List (Event j.Value) → Type 0
  AreUpserts [] = Unit
  AreUpserts (upsert now k models ∷ es) = AreEntries j (listings_of k models) × AreUpserts es
  AreUpserts (removal now k ∷ es) = AreUpserts es

  -- The state mirrors the history.
  record Mirrors (es : List (Event j.Value)) (t : ModelsCatalog j.Value) : Type 0 where
    latest :
        (n : ℕ) (models : Map Text j.Value)
        → Memᴰ (n, models) t.by_node
        → advertised es n ≡ some models
    kept :
        (n : ℕ) (models : Map Text j.Value)
        → advertised es n ≡ some models
        → Memᴰ (n, models) t.by_node
    entries : AreEntries j (listings t.by_node)
    shown : (id : Text) → Shows j encode t.union id (offered id (listings t.by_node))

  -- If every entry of every node is an object whose "sparkl" is an object or missing, then a rebuild
  -- stamps the catalog, keeps the lists of the nodes, and its union shows exactly what they offer.
  pub rebuild_union-Shows :
      (now : ℕ) (t : ModelsCatalog j.Value)
      → AreEntries j (listings t.by_node)
      → ((rebuild_union j encode now t).by_node ≡ t.by_node)
        × ((rebuild_union j encode now t).last_refresh ≡ some now)
        × ((id : Text)
            → Shows j encode
                (rebuild_union j encode now t).union
                id
                (offered id (listings t.by_node)))
  unfolding rebuild_union
  rebuild_union-Shows now t w =
      let (all, (e, h)) = merge_all-Shows j encode (listings t.by_node) w in
      (rw (e, rebuild_union) refl, rw (e, rebuild_union) refl, rw (e, rebuild_union) h)

  insert_latest :
      (now k : ℕ) (models : Map Text j.Value) (es : List (Event j.Value))
      (t : ModelsCatalog j.Value)
      → Mirrors es t
      → (n : ℕ) (ms : Map Text j.Value) → Memᴰ (n, ms) (insert k models t.by_node)
      → advertised (upsert now k models ∷ es) n ≡ some ms
  unfolding insert
  insert_latest now k models es t mir n ms x = elim (mem-cons x) [
    | inl q ↦
        let key : n ≡ k = ap (λ y. y.0) q in
        let value : ms ≡ models = ap (λ y. y.1) q in
        rw ((==_iff k n).1 (sym key)) (ap some (sym value))
    | inr y ↦
        let (other, z) = mem-remove k n ms t.by_node y in
        rw (same_false k n other) (mir.latest n ms z)
  ]

  insert_kept :
      (now k : ℕ) (models : Map Text j.Value) (es : List (Event j.Value))
      (t : ModelsCatalog j.Value)
      → Mirrors es t
      → (n : ℕ) (ms : Map Text j.Value) → advertised (upsert now k models ∷ es) n ≡ some ms
      → Memᴰ (n, ms) (insert k models t.by_node)
  unfolding insert
  insert_kept now k models es t mir n ms a = elim (Bool-cases (k == n)) [
    | inl e ↦
        let given : some models ≡ some ms = rw e at a in
        head (λ i. (sym ((==_iff k n).0 e) i, sym (some-inj given) i))
    | inr f ↦ tail (
        remove-mem k n ms t.by_node (λ p. let same = (==_iff k n).1 p in cc)
          (mir.kept n ms (rw f at a)))
  ]

  remove_latest :
      (now k : ℕ) (es : List (Event j.Value)) (t : ModelsCatalog j.Value)
      → Mirrors es t
      → (n : ℕ) (ms : Map Text j.Value) → Memᴰ (n, ms) (remove k t.by_node)
      → advertised (removal now k ∷ es) n ≡ some ms
  remove_latest now k es t mir n ms x =
      let (other, z) = mem-remove k n ms t.by_node x in
      rw (same_false k n other) (mir.latest n ms z)

  remove_kept :
      (now k : ℕ) (es : List (Event j.Value)) (t : ModelsCatalog j.Value)
      → Mirrors es t
      → (n : ℕ) (ms : Map Text j.Value) → advertised (removal now k ∷ es) n ≡ some ms
      → Memᴰ (n, ms) (remove k t.by_node)
  remove_kept now k es t mir n ms a = elim (Bool-cases (k == n)) [
    | inl e ↦ let gone : none ≡ some ms = rw e at a in absurd (cc)
    | inr f ↦
        remove-mem k n ms t.by_node (λ p. let same = (==_iff k n).1 p in cc)
          (mir.kept n ms (rw f at a))
  ]

  -- The removal of a node that the catalog does not have.
  absent_latest :
      (now k : ℕ) (es : List (Event j.Value)) (t : ModelsCatalog j.Value)
      → Mirrors es t
      → lookup k t.by_node ≡ none
      → (n : ℕ) (ms : Map Text j.Value) → Memᴰ (n, ms) t.by_node
      → advertised (removal now k ∷ es) n ≡ some ms
  absent_latest now k es t mir absent n ms x = elim (Bool-cases (k == n)) [
    | inl e ↦ absurd (
        lookup-none-mem k ms t.by_node absent
          (subst (λ i. Memᴰ (i, ms) t.by_node) (sym ((==_iff k n).0 e)) x))
    | inr f ↦ rw f (mir.latest n ms x)
  ]

  absent_kept :
      (now k : ℕ) (es : List (Event j.Value)) (t : ModelsCatalog j.Value)
      → Mirrors es t
      → (n : ℕ) (ms : Map Text j.Value) → advertised (removal now k ∷ es) n ≡ some ms
      → Memᴰ (n, ms) t.by_node
  absent_kept now k es t mir n ms a =
      (mem-remove k n ms t.by_node (remove_kept now k es t mir n ms a)).1

  -- A rebuild from a map of nodes that the history agrees with.
  rebuilt :
      (es : List (Event j.Value)) (now : ℕ) (t : ModelsCatalog j.Value)
      → AreEntries j (listings t.by_node)
      → ((n : ℕ) (ms : Map Text j.Value) → Memᴰ (n, ms) t.by_node → advertised es n ≡ some ms)
      → ((n : ℕ) (ms : Map Text j.Value) → advertised es n ≡ some ms → Memᴰ (n, ms) t.by_node)
      → Mirrors es (rebuild_union j encode now t)
  rebuilt es now t w latest kept =
      let (same_nodes, stamp, shows) = rebuild_union-Shows now t w in
      record {
        latest = λ n ms x. latest n ms (rw same_nodes at x);
        kept = λ n ms a. rw same_nodes (kept n ms a);
        entries = rw same_nodes w;
        shown = rw same_nodes shows;
      }

  replay-Mirrors : (es : List (Event j.Value)) → AreUpserts es → Mirrors es (replay es)
  unfolding replay listings lookup insert
  replay-Mirrors [] w = record {
    latest = λ n ms x. elim x [ ];
    kept = λ n ms a. absurd (cc);
    entries = tt;
    shown = λ id. inl (refl, refl);
  }
  replay-Mirrors (upsert now k models ∷ es) (w, ws) =
      let mir = replay-Mirrors es ws in
      rebuilt (upsert now k models ∷ es) now
        (record (replay es) { by_node = insert k models (replay es).by_node })
        (AreEntries-append j (listings_of k models) (listings (remove k (replay es).by_node)) w
          (AreEntries-remove j k (replay es).by_node mir.entries))
        (insert_latest now k models es (replay es) mir)
        (insert_kept now k models es (replay es) mir)
  replay-Mirrors (removal now k ∷ es) ws =
      let mir = replay-Mirrors es ws in
      elim (Option-cases (lookup k (replay es).by_node)) [
        | inl e ↦
            rw (e, remove_node)
              (record {
                latest = absent_latest now k es (replay es) mir e;
                kept = absent_kept now k es (replay es) mir;
                entries = mir.entries;
                shown = mir.shown;
              })
        | inr (models, e) ↦
            rw (e, remove_node)
              (rebuilt (removal now k ∷ es) now
                (record (replay es) { by_node = remove k (replay es).by_node })
                (AreEntries-remove j k (replay es).by_node mir.entries)
                (remove_latest now k es (replay es) mir) (remove_kept now k es (replay es) mir))
      ]

  -- After any history of registrations and removals in which every entry is an object with an object
  -- (or nothing) under "sparkl", the catalog contains a model exactly when some node's latest
  -- registration, which no removal of the node has followed, has an entry of it.
  pub contains-replay :
      (es : List (Event j.Value)) (id : Text)
      → AreUpserts es
      → (contains (replay es) id ≡ true) ↔ (
          (n : ℕ) × ((models : Map Text j.Value) × ((advertised es n ≡ some models)
              × (is_some (lookup id models) ≡ true))))
  unfolding contains
  contains-replay es id w =
      let mir = replay-Mirrors es w in
      let t = replay es in
      elim (mir.shown id) [
        | inl (nobody, absent) ↦ (
          λ h. let found : false ≡ true = rw absent at h in absurd (cc),
          λ (n, (models, (a, found))).
              absurd (offer_found id n models t.by_node (mir.kept n models a) found nobody),
        )
        | inr (v, (somebody, found, shown)) ↦ (
          λ h.
              let (n, (models, (x, has))) = find_offer id t.by_node somebody in
              (n, (models, (mir.latest n models x, has))),
          λ x. rw found refl,
        )
      ]
