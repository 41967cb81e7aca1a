-- ===== src/Models/Entries.antt =====
-- src/consumer/models.rs: the entries that the nodes send, and the listings of one model among those of
-- all nodes.
use sparkl_router.Common.{
  ℕ, ◌≡◌, ◌≢◌, refl, sym, ap, ◌∙◌, true, false, some, List, [], ◌∷◌, ◌++◌, Text, inl, inr, Map,
  lookup, remove, text_key, nat_eq, text_eq, ◌==◌, is_some, if◌then◌else◌, Bool-cases,
}
use mathlib.Core.List.{Memᴰ}
use mathlib.Core.List.Memᴰ.{head, tail}
use sparkl_router.Json.{Json}
use sparkl_router.Models.Merge.{Listing, sparkl_of}
use sparkl_router.Models.Catalog.{listings_of, listings}

module _ {V : Type 0} where
  -- The listings of one model.
  abbrev pub offered : Text → List (Listing V) → List (Listing V)
  offered id [] = []
  offered id (l ∷ ls) = if text_eq l.model_id id then l ∷ offered id ls else offered id ls

  pub offered-append :
      (id : Text) (xs ys : List (Listing V))
      → offered id (xs ++ ys) ≡ offered id xs ++ offered id ys
  offered-append id [] ys = refl
  offered-append id (l ∷ xs) ys = elim (Bool-cases (text_eq l.model_id id)) [
    | inl t ↦ rw t (ap (◌∷◌ l) (offered-append id xs ys))
    | inr t ↦ rw t (offered-append id xs ys)
  ]

  append_nil_left : (xs ys : List (Listing V)) → xs ++ ys ≡ [] → (xs ≡ []) × (ys ≡ [])
  append_nil_left [] ys e = (refl, e)
  append_nil_left (x ∷ xs) ys e = absurd (cc)

  -- One node's models have a listing of a model exactly when they have an entry of it.
  offered_of :
      (id : Text) (n : ℕ) (models : Map Text V)
      → is_some (lookup id models) ≡ true
      → offered id (listings_of n models) ≢ []
  unfolding listings_of lookup
  offered_of id n [] h = λ e. cc
  offered_of id n ((k, v) ∷ models) h = elim (Bool-cases (text_eq k id)) [
    | inl t ↦ rw t (λ e. cc)
    | inr f ↦ rw f (offered_of id n models (rw f at h))
  ]

  offered_none :
      (id : Text) (n : ℕ) (models : Map Text V)
      → is_some (lookup id models) ≡ false
      → offered id (listings_of n models) ≡ []
  unfolding listings_of lookup
  offered_none id n [] h = refl
  offered_none id n ((k, v) ∷ models) h = elim (Bool-cases (text_eq k id)) [
    | inl t ↦ let found : true ≡ false = rw t at h in absurd (cc)
    | inr f ↦ rw f (offered_none id n models (rw f at h))
  ]

  pub offer_found :
      (id : Text) (n : ℕ) (models : Map Text V) (m : Map ℕ (Map Text V))
      → Memᴰ (n, models) m
      → is_some (lookup id models) ≡ true
      → offered id (listings m) ≢ []
  unfolding listings
  offer_found id n models [] x h = elim x [ ]
  offer_found id n models ((i, ms) ∷ m) (head q) h = λ e.
      let parts =
        append_nil_left (offered id (listings_of i ms)) (offered id (listings m))
          (sym (offered-append id (listings_of i ms) (listings m)) ∙ e) in
      offered_of id i ms (rw (← ap (λ y. y.1) q) h) parts.0
  offer_found id n models ((i, ms) ∷ m) (tail x) h = λ e.
      let parts =
        append_nil_left (offered id (listings_of i ms)) (offered id (listings m))
          (sym (offered-append id (listings_of i ms) (listings m)) ∙ e) in
      offer_found id n models m x h parts.1

  pub find_offer :
      (id : Text) (m : Map ℕ (Map Text V))
      → offered id (listings m) ≢ []
      → (n : ℕ) × ((models : Map Text V) × (Memᴰ (n, models) m
            × (is_some (lookup id models) ≡ true)))
  unfolding listings
  find_offer id [] h = absurd (h refl)
  find_offer id ((i, ms) ∷ m) h = elim (Bool-cases (is_some (lookup id ms))) [
    | inl t ↦ (i, (ms, (head refl, t)))
    | inr f ↦
        let (n, (models, (x, found))) = find_offer id m (λ e.
          h (offered-append id (listings_of i ms) (listings m) ∙ rw (offered_none id i ms f) e)) in
        (n, (models, (tail x, found)))
  ]

module _ (j : Json) where
  -- An object whose "sparkl", if there is one, is an object too.
  abbrev pub IsEntry : j.Value → Type 0
  IsEntry v =
      (obj : j.Object) × (j.as_object v ≡ some obj)
      × ((sparkl : j.Object) × (sparkl_of j obj ≡ some sparkl))

  abbrev pub AreEntries : List (Listing j.Value) → Type 0
  AreEntries [] = Unit
  AreEntries (l ∷ ls) = IsEntry l.entry × AreEntries ls

  pub AreEntries-append :
      (xs ys : List (Listing j.Value)) → AreEntries xs → AreEntries ys → AreEntries (xs ++ ys)
  AreEntries-append [] ys a b = b
  AreEntries-append (x ∷ xs) ys (e, a) b = (e, AreEntries-append xs ys a b)

  AreEntries-split :
      (xs ys : List (Listing j.Value)) → AreEntries (xs ++ ys) → AreEntries xs × AreEntries ys
  AreEntries-split [] ys a = (tt, a)
  AreEntries-split (x ∷ xs) ys (e, a) = let r = AreEntries-split xs ys a in ((e, r.0), r.1)

  pub AreEntries-remove :
      (k : ℕ) (m : Map ℕ (Map Text j.Value))
      → AreEntries (listings m)
      → AreEntries (listings (remove k m))
  unfolding listings remove
  AreEntries-remove k [] a = a
  AreEntries-remove k ((i, models) ∷ m) a =
      let r = AreEntries-split (listings_of i models) (listings m) a in
      elim (Bool-cases (i == k)) [
        | inl t ↦ rw t (AreEntries-remove k m r.1)
        | inr f ↦ rw f (
            AreEntries-append (listings_of i models) (listings (remove k m)) r.0
              (AreEntries-remove k m r.1))
      ]
