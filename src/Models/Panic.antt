-- ===== src/Models/Panic.antt =====
-- src/consumer/models.rs: the entry that stops every rebuild of the union.
use sparkl_router.Common.{
  ℕ, ◌≡◌, refl, ap, ◌∙◌, inl, inr, none, some, List, [], ◌∷◌, ◌++◌, Text, Map, lookup, text_key,
  Option-cases,
}
use sparkl_router.Json.{Json}
use sparkl_router.Models.Merge.{Listing, sparkl_of, merge_model_entry, merge_all}
use sparkl_router.Models.Catalog.{ModelsCatalog, listings, rebuild_union}
use sparkl_router.Models.Entries.{AreEntries, offered}
use sparkl_router.Models.Aggregate.{merge_all-Shows}

module _ (j : Json) (encode : List ℕ → Text) where
  -- An object whose "sparkl" is there and no object.
  abbrev pub IsBad : j.Value → Type 0
  IsBad v = (obj : j.Object) × ((j.as_object v ≡ some obj) × (sparkl_of j obj ≡ none))

  merge_bad :
      (l : Listing j.Value) (merged : Map Text j.Value)
      → IsBad l.entry
      → lookup l.model_id merged ≡ none
      → merge_model_entry j encode merged l ≡ none
  unfolding merge_model_entry
  merge_bad l merged (obj, (e, s)) absent = rw (absent, merge_model_entry) (rw (e) (rw (s) refl))

  merge_all-append :
      (xs ys : List (Listing j.Value)) (merged all : Map Text j.Value)
      → merge_all j encode xs merged ≡ some all
      → merge_all j encode (xs ++ ys) merged ≡ merge_all j encode ys all
  unfolding merge_all
  merge_all-append [] ys merged all h = let e : merged ≡ all = cc in ap (merge_all j encode ys) e
  merge_all-append (x ∷ xs) ys merged all h =
      elim (Option-cases (merge_model_entry j encode merged x)) [
        | inl e ↦ let wrong : none ≡ some all = rw (e, merge_all) at h in absurd (cc)
        | inr (next, e) ↦
            let rest : merge_all j encode xs next ≡ some all = rw (e, merge_all) at h in
            rw (e, merge_all) (merge_all-append xs ys next all rest)
      ]

  -- A rebuild changes nothing if, among the entries as it visits them, the first one of some model is an
  -- object whose "sparkl" is no object, and all entries before it are well formed.
  pub rebuild_union_panics :
      (now : ℕ) (t : ModelsCatalog j.Value) (xs ys : List (Listing j.Value)) (l : Listing j.Value)
      → listings t.by_node ≡ xs ++ l ∷ ys
      → AreEntries j xs
      → offered l.model_id xs ≡ []
      → IsBad l.entry
      → rebuild_union j encode now t ≡ t
  unfolding rebuild_union merge_all
  rebuild_union_panics now t xs ys l visits w first bad =
      let (all, (e, shows)) = merge_all-Shows j encode xs w in
      let absent : lookup l.model_id all ≡ none = elim (shows l.model_id) [
        | inl (n, a) ↦ a
        | inr (v, (ne, found, shown)) ↦ absurd (ne first)
      ] in
      let stops : merge_all j encode (xs ++ l ∷ ys) [] ≡ none =
        merge_all-append xs (l ∷ ys) [] all e ∙ rw (merge_bad l all bad absent, merge_all) refl in
      rw (visits, rebuild_union) (rw (stops) refl)
