-- ===== src/Models/Catalog.antt =====
-- src/consumer/models.rs: the state of the catalog and the operations that change it. A `HashMap` is
-- iterated in the order of its list, and no theorem names that order.
use sparkl_router.Common.{
  ℕ, Bool, true, false, ◌&&◌, ◌||◌, Option, none, some, List, [], ◌∷◌, ◌++◌, map, Text, codes, Map,
  lookup, insert, remove, text_key, nat_eq, ltb, ◌==◌, if◌then◌else◌, is_some, sort_by, text_eq,
}
use sparkl_router.Json.{Json, ◌>>=◌, object}
use sparkl_router.Models.Offering.{ProviderOffering, number_at}
use sparkl_router.Models.Merge.{Listing, plain_offering, merge_all}

pub record ModelsCatalog (V : Type 0) : Type 0 where
  pub by_node : Map ℕ (Map Text V)
  pub union : Map Text V
  pub offerings : List ProviderOffering
  pub last_refresh : Option ℕ

abbrev pub new_catalog : {V : Type 0} → ModelsCatalog V
new_catalog = record { by_node = []; union = []; offerings = []; last_refresh = none }

-- The order of strings is that of their bytes.
unfoldable pub text_le : Text → Text → Bool
text_le [] t = true
text_le (c ∷ s) [] = false
text_le (c ∷ s) (d ∷ t) = ltb c d || (c == d && text_le s t)

-- `a.model_id.cmp(&b.model_id).then(a.node_id.cmp(&b.node_id))` is not "greater".
abbrev pub offering_le : ProviderOffering → ProviderOffering → Bool
offering_le a b =
    if text_eq a.model_id b.model_id
    then text_le a.node_id b.node_id
    else text_le a.model_id b.model_id

module _ {V : Type 0} where
  unfoldable pub listings_of : ℕ → Map Text V → List (Listing V)
  listings_of node_id [] = []
  listings_of node_id ((id, entry) ∷ models) =
      record { node_id = node_id; model_id = id; entry = entry } ∷ listings_of node_id models

  -- The two nested loops over `by_node`.
  unfoldable pub listings : Map ℕ (Map Text V) → List (Listing V)
  unfolding listings_of
  listings [] = []
  listings ((node_id, models) ∷ m) = listings_of node_id models ++ listings m

  unfoldable pub contains : ModelsCatalog V → Text → Bool
  contains t model = is_some (lookup model t.union)

  -- `union.keys().cloned().collect()`, sorted
  unfoldable pub list : ModelsCatalog V → List Text
  unfolding sort_by text_le
  list t = sort_by text_le (map (λ e. e.0) t.union)

module _ (j : Json) (encode : List ℕ → Text) where
  -- The panic leaves the old union, and the `by_node` that was changed before.
  unfoldable pub rebuild_union : ℕ → ModelsCatalog j.Value → ModelsCatalog j.Value
  unfolding listings merge_all sort_by text_le
  rebuild_union now t = elim (merge_all j encode (listings t.by_node) []) [
    | none ↦ t
    | some merged ↦ record t {
      union = merged;
      offerings = sort_by offering_le (map (plain_offering j encode) (listings t.by_node));
      last_refresh = some now;
    }
  ]

  unfoldable pub upsert_node :
      ℕ → ℕ → Map Text j.Value → ModelsCatalog j.Value → ModelsCatalog j.Value
  unfolding rebuild_union
  upsert_node now node_id models t =
      rebuild_union now (record t { by_node = insert node_id models t.by_node })

  unfoldable pub remove_node : ℕ → ℕ → ModelsCatalog j.Value → ModelsCatalog j.Value
  unfolding rebuild_union
  remove_node now node_id t = elim (lookup node_id t.by_node) [
    | none ↦ t
    | some models ↦ rebuild_union now (record t { by_node = remove node_id t.by_node })
  ]

module _ (j : Json) where
  abbrev pub find_all : List Text → Map Text j.Value → List j.Value
  find_all [] union = []
  find_all (id ∷ ids) union = elim (lookup id union) [
    | none ↦ find_all ids union
    | some v ↦ v ∷ find_all ids union
  ]

  unfoldable pub list_cached_json : ModelsCatalog j.Value → j.Value
  unfolding list
  list_cached_json t = j.of_object (
      object j (
        (codes "object", j.of_str (codes "list"))
        ∷ (codes "data", j.of_array (find_all (list t) t.union))
        ∷ []))

  unfoldable pub concurrency_for : ModelsCatalog j.Value → ℕ → Text → ℕ
  concurrency_for t node_id model_id =
      elim (lookup node_id t.by_node >>= λ models. lookup model_id models) [
        | none ↦ 0
        | some entry ↦ number_at j entry (codes "concurrency")
      ]
