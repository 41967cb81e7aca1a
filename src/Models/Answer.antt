-- ===== src/Models/Answer.antt =====
-- src/consumer/models.rs: the answer of `query_providers`.
use sparkl_router.Common.{
  ℕ, ◌<◌, ◌^◌, ◌≡◌, ◌↔◌, refl, sym, ap, ◌∙◌, subst, inl, inr, Option, some, List, [], ◌∷◌, map,
  Option-cases, mem-cons, sort_by, sort_by-mem, mem-sort_by,
}
use mathlib.Core.List.{Memᴰ, filter_map, filter_map-cons-none, filter_map-cons-some}
use mathlib.Core.List.Memᴰ.{head, tail}
use sparkl_router.Json.{Json}
use sparkl_router.Lifecycle.{Router}
use sparkl_router.Models.NodeId.{Hex, parse_node_id_hex-node_id_key}
use sparkl_router.Models.Offering.{ProviderOffering, build_offering_with_load}
use sparkl_router.Models.Merge.{Listing}
use sparkl_router.Models.Catalog.{ModelsCatalog, listings, offering_le}
use sparkl_router.Models.Filters.{ProviderQueryFilters}
use sparkl_router.Models.Query.{keep_if_hit, status_of, visit, offerings_with_load, query_providers}
use sparkl_router.Models.Loads.{loaded, offerings_with_load-map}
use sparkl_router.Models.Hits.{IsHit, keep_if_hit-IsHit}

module _ {A B : Type 0} where
  mem-filter_map :
      (f : A → Option B) (l : List A) {b : B}
      → Memᴰ b (filter_map f l)
      → (a : A) × (Memᴰ a l × (f a ≡ some b))
  unfolding filter_map
  mem-filter_map f [] m = elim m [ ]
  mem-filter_map f (x ∷ l) {b} m = elim (Option-cases (f x)) [
    | inl e ↦
        let (a, (n, h)) = mem-filter_map f l (rw (filter_map-cons-none f x l e) at m) in
        (a, (tail n, h))
    | inr (c, e) ↦ elim (mem-cons (rw (filter_map-cons-some f x l e) at m)) [
      | inl q ↦ (x, (head refl, e ∙ ap some (sym q)))
      | inr n ↦ let (a, (k, h)) = mem-filter_map f l n in (a, (tail k, h))
    ]
  ]

  filter_map-mem :
      (f : A → Option B) (l : List A) {a : A} {b : B}
      → Memᴰ a l
      → f a ≡ some b
      → Memᴰ b (filter_map f l)
  filter_map-mem f [] m h = elim m [ ]
  filter_map-mem f (x ∷ l) {a} {b} m h = elim (mem-cons m) [
    | inl q ↦ rw (filter_map-cons-some f x l (ap f (sym q) ∙ h)) (head refl)
    | inr n ↦ elim (Option-cases (f x)) [
      | inl e ↦ rw (filter_map-cons-none f x l e) (filter_map-mem f l n h)
      | inr (c, e) ↦ rw (filter_map-cons-some f x l e) (tail (filter_map-mem f l n h))
    ]
  ]

  mem-map : (f : A → B) (l : List A) {b : B} → Memᴰ b (map f l) → (a : A) × (Memᴰ a l × (b ≡ f a))
  mem-map f [] m = elim m [ ]
  mem-map f (x ∷ l) (head q) = (x, (head refl, q))
  mem-map f (x ∷ l) (tail n) = let (a, (k, h)) = mem-map f l n in (a, (tail k, h))

  map-mem : (f : A → B) (l : List A) {a : A} → Memᴰ a l → Memᴰ (f a) (map f l)
  map-mem f [] m = elim m [ ]
  map-mem f (x ∷ l) (head q) = head (ap f q)
  map-mem f (x ∷ l) (tail n) = tail (map-mem f l n)

module _ {V : Type 0} where
  abbrev pub AreNodeIds : List (Listing V) → Type 0
  AreNodeIds [] = Unit
  AreNodeIds (l ∷ ls) = (l.node_id < 256 ^ 32) × AreNodeIds ls

  is_node_id :
      (ls : List (Listing V)) (l : Listing V) → AreNodeIds ls → Memᴰ l ls → l.node_id < 256 ^ 32
  is_node_id [] l w m = elim m [ ]
  is_node_id (k ∷ ls) l (s, w) (head e) = rw (ap (λ x. x.node_id) e) s
  is_node_id (k ∷ ls) l (s, w) (tail m) = is_node_id ls l w m

module _ (j : Json) (h : Hex) {V C : Type 0} where
  -- The offering of a listing as a consumer sees it: with the router's counts and the tunnel's status.
  abbrev pub seen : ℕ → ℕ → Router V C → Listing j.Value → ProviderOffering
  seen now stale_secs r l = record (loaded j h.encode r.capacity l) {
    tunnel_status = status_of now stale_secs r l.node_id;
  }

  visit_lem :
      (f : ProviderQueryFilters) (now stale_secs : ℕ) (r : Router V C) (l : Listing j.Value)
      → l.node_id < 256 ^ 32
      → visit h.decode f now stale_secs r (loaded j h.encode r.capacity l)
        ≡ keep_if_hit f (seen now stale_secs r l)
  unfolding visit build_offering_with_load
  visit_lem f now stale_secs r l small =
      rw (parse_node_id_hex-node_id_key h l.node_id small, visit) refl

  -- For a catalog of 32-byte node ids, the answer holds an offering exactly when it is the offering,
  -- with the router's counts and its tunnel's status, of some node's entry and it meets every filter.
  pub query_providers-IsHit :
      (f : ProviderQueryFilters) (now stale_secs : ℕ) (r : Router V C) (t : ModelsCatalog j.Value)
      (o : ProviderOffering)
      → AreNodeIds (listings t.by_node)
      → Memᴰ o (query_providers j h.encode h.decode f now stale_secs r t).1 ↔ (
          (l : Listing j.Value) × (Memᴰ l (listings t.by_node)
            × ((o ≡ seen now stale_secs r l) × IsHit f o)))
  unfolding query_providers
  query_providers-IsHit f now stale_secs r t o w =
      let base = (offerings_with_load j h.encode r.capacity (listings t.by_node)).1 in
      let all : base ≡ map (loaded j h.encode r.capacity) (listings t.by_node) =
        offerings_with_load-map j h.encode r.capacity r.capacity (listings t.by_node)
          (λ key. refl) in
      let test = visit h.decode f now stale_secs r in
      (
        λ m.
            let (b, (in_base, hit)) = mem-filter_map test (sort_by offering_le base) m in
            let (l, (listed, made)) =
              mem-map (loaded j h.encode r.capacity) (listings t.by_node)
                (subst (Memᴰ b) all (mem-sort_by offering_le base in_base)) in
            let same =
              visit_lem f now stale_secs r l (is_node_id (listings t.by_node) l w listed) in
            let (wanted, e) =
              (keep_if_hit-IsHit f (seen now stale_secs r l) o).0
                (sym same ∙ ap test (sym made) ∙ hit) in
            (l, (listed, (sym e, subst (IsHit f) e wanted))),
        λ (l, (listed, (made, wanted))).
            let same =
              visit_lem f now stale_secs r l (is_node_id (listings t.by_node) l w listed) in
            let kept =
              (keep_if_hit-IsHit f (seen now stale_secs r l) o).1
                (subst (IsHit f) made wanted, sym made) in
            filter_map-mem test (sort_by offering_le base)
              (sort_by-mem offering_le base (
                subst (Memᴰ (loaded j h.encode r.capacity l)) (sym all)
                  (map-mem (loaded j h.encode r.capacity) (listings t.by_node) listed)))
              (same ∙ kept),
      )
