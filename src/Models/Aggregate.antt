-- ===== src/Models/Aggregate.antt =====
-- src/consumer/models.rs: the union that `rebuild_union` makes, model by model.
use sparkl_router.Common.{
  ℕ, ◌≡◌, ◌≢◌, refl, ap, ◌∙◌, ◌⊎◌, inl, inr, false, none, some, List, [], ◌∷◌, ◌++◌, Text, codes,
  Map, lookup, insert, text_key, text_eq, text_eq_refl, text_eq_sound, lookup-insert,
  lookup-insert_self, subst, Bool-cases,
}
use mathlib.Core.List.{map-append, append_assoc, append-nil}
use sparkl_router.Json.{Json, unwrap_or}
use sparkl_router.Models.Merge.{
  Listing, provider_snapshot, merge_model_entry, merge_all, or_insert, apply_aggregated_load,
}
use sparkl_router.Models.Entries.{IsEntry, AreEntries, offered, offered-append}
use sparkl_router.Models.Built.{
  Aggregates, with_providers, with_providers-Aggregates, snapshots, sparkl_of-put, find_providers,
}

append_not_nil {ℓ} : {A : Type ℓ} (xs : List A) (x : A) → xs ++ x ∷ [] ≢ []
append_not_nil [] x = λ e. cc
append_not_nil (y ∷ xs) x = λ e. cc

module _ (j : Json) (encode : List ℕ → Text) where
  -- The entry is what the merge makes of the listings `ls`.
  abbrev Built : j.Value → List (Listing j.Value) → Type 0
  Built v ls =
      (sparkl : j.Object) × ((obj : j.Object) × (v
          ≡ with_providers j sparkl obj (snapshots j encode ls)))

  abbrev Holds : List (Listing j.Value) → Map Text j.Value → Text → Type 0
  Holds ls merged id =
      ((ls ≡ []) × (lookup id merged ≡ none))
      ⊎ ((v : j.Value) × ((ls ≢ []) × (lookup id merged ≡ some v) × Built v ls))

  -- One more listing of the model of that listing.
  merge_step :
      (l : Listing j.Value) (ls : List (Listing j.Value)) (merged : Map Text j.Value)
      → IsEntry j l.entry
      → Holds ls merged l.model_id
      → (v : j.Value) × ((merge_model_entry j encode merged l ≡ some (insert l.model_id v merged))
          × Built v (ls ++ l ∷ []))
  unfolding merge_model_entry
  merge_step l ls merged (obj, e, (sparkl, s)) (inl (none_before, absent)) = (
    with_providers j sparkl obj (snapshots j encode (l ∷ [])),
    (rw (absent, merge_model_entry) (rw (e) (rw (s) refl)), (sparkl, (obj, rw none_before refl))),
  )
  merge_step l ls merged entry (inr (v, (some_before, found, (sparkl, (obj, b))))) =
      let ps = snapshots j encode ls in
      let shown = apply_aggregated_load j (j.put (codes "providers") (j.of_array ps) sparkl) ps in
      let obj_shown = j.put (codes "sparkl") (j.of_object shown) obj in
      let is_object : j.as_object v ≡ some obj_shown =
        ap j.as_object b ∙ j.as_object_of_object obj_shown in
      let before : j.as_array (or_insert j (codes "providers") (j.of_array []) shown) ≡ some ps =
        ap (λ o. j.as_array (unwrap_or o (j.of_array []))) (find_providers j sparkl ps ps)
        ∙ j.as_array_of_array ps in
      let split = map-append (provider_snapshot j encode) ls (l ∷ []) in
      (
        with_providers j shown obj_shown (snapshots j encode (ls ++ l ∷ [])),
        (
          rw (found, merge_model_entry)
              (rw (is_object) (rw (sparkl_of-put j shown obj) (rw (before, split) refl))),
          (shown, (obj_shown, refl)),
        ),
      )

  Holds-other :
      (l : Listing j.Value) (seen : List (Listing j.Value)) (merged : Map Text j.Value)
      (v : j.Value) (id : Text)
      → text_eq l.model_id id ≡ false
      → Holds (offered id seen) merged id
      → Holds (offered id (seen ++ l ∷ [])) (insert l.model_id v merged) id
  Holds-other l seen merged v id f h =
      let same_list : offered id (seen ++ l ∷ []) ≡ offered id seen =
        offered-append id seen (l ∷ []) ∙ rw f (append-nil (offered id seen)) in
      let same_entry : lookup id (insert l.model_id v merged) ≡ lookup id merged =
        lookup-insert l.model_id id v merged ∙ rw f refl in
      rw (same_list, same_entry) h

  Holds-same :
      (l : Listing j.Value) (seen : List (Listing j.Value)) (merged : Map Text j.Value)
      (v : j.Value)
      → Built v (offered l.model_id seen ++ l ∷ [])
      → Holds (offered l.model_id (seen ++ l ∷ [])) (insert l.model_id v merged) l.model_id
  Holds-same l seen merged v b =
      let longer : offered l.model_id (seen ++ l ∷ []) ≡ offered l.model_id seen ++ l ∷ [] =
        offered-append l.model_id seen (l ∷ []) ∙ rw (text_eq_refl l.model_id) refl in
      rw (longer) (
        inr (
          v,
          (append_not_nil (offered l.model_id seen) l, lookup-insert_self l.model_id v merged, b),
        ))

  merge-Holds :
      (l : Listing j.Value) (seen : List (Listing j.Value)) (merged : Map Text j.Value)
      → IsEntry j l.entry
      → ((id : Text) → Holds (offered id seen) merged id)
      → (next : Map Text j.Value) × ((merge_model_entry j encode merged l ≡ some next)
          × ((id : Text) → Holds (offered id (seen ++ l ∷ [])) next id))
  merge-Holds l seen merged entry h =
      let (v, (e, b)) = merge_step l (offered l.model_id seen) merged entry (h l.model_id) in
      (
        insert l.model_id v merged,
        (
          e,
          λ id. elim (Bool-cases (text_eq l.model_id id)) [
            | inl t ↦
                subst (λ k. Holds (offered k (seen ++ l ∷ [])) (insert l.model_id v merged) k)
                  (text_eq_sound l.model_id id t) (Holds-same l seen merged v b)
            | inr f ↦ Holds-other l seen merged v id f (h id)
          ],
        ),
      )

  merge_all-Holds :
      (ls seen : List (Listing j.Value)) (merged : Map Text j.Value)
      → AreEntries j ls
      → ((id : Text) → Holds (offered id seen) merged id)
      → (all : Map Text j.Value) × ((merge_all j encode ls merged ≡ some all)
          × ((id : Text) → Holds (offered id (seen ++ ls)) all id))
  unfolding merge_all
  merge_all-Holds [] seen merged w h = (merged, (refl, rw (append-nil seen) h))
  merge_all-Holds (l ∷ ls) seen merged (entry, w) h =
      let (next, (e, h')) = merge-Holds l seen merged entry h in
      let (all, (e', h'')) = merge_all-Holds ls (seen ++ l ∷ []) next w h' in
      (all, (rw (e) e', rw (← append_assoc seen (l ∷ []) ls) h''))

  -- What the union shows of a model of which `ls` are the listings.
  abbrev pub Shows : Map Text j.Value → Text → List (Listing j.Value) → Type 0
  Shows union id ls =
      ((ls ≡ []) × (lookup id union ≡ none))
      ⊎ ((v : j.Value) × ((ls ≢ []) × (lookup id union ≡ some v) × Aggregates j encode v ls))

  Shows-Holds :
      (ls : List (Listing j.Value)) (merged : Map Text j.Value) (id : Text)
      → Holds ls merged id
      → Shows merged id ls
  Shows-Holds ls merged id (inl h) = inl h
  Shows-Holds ls merged id (inr (v, (some_before, found, (sparkl, (obj, b))))) =
      inr (v, (some_before, found, rw b (with_providers-Aggregates j encode sparkl obj ls)))

  pub merge_all-Shows :
      (ls : List (Listing j.Value))
      → AreEntries j ls
      → (all : Map Text j.Value) × ((merge_all j encode ls [] ≡ some all)
          × ((id : Text) → Shows all id (offered id ls)))
  unfolding lookup
  merge_all-Shows ls w =
      let (all, (e, h)) = merge_all-Holds ls [] [] w (λ id. inl (refl, refl)) in
      (all, (e, λ id. Shows-Holds (offered id ls) all id (h id)))
