-- ===== src/Models/Features.antt =====
-- src/consumer/catalog.rs: the feature keys that the router documents.
use sparkl_router.Common.{List, [], ◌∷◌, Text, codes, Map}
use sparkl_router.Json.{Json, object}

abbrev pub feature_key_docs : Map Text Text
feature_key_docs =
    (codes "mtp", codes "MTP / multi-token prediction setup (e.g. draft depth, backend note)")
    ∷ (
      codes "speculative",
      codes "Speculative decoding path (e.g. dflash, eagle, draft model name)",
    )
    ∷ (codes "multimodal", codes "Vision / image input support (e.g. resolution limit, template)")
    ∷ (codes "long_context", codes "Long-context claim (e.g. effective window, yarn note)")
    ∷ []

module _ (j : Json) where
  unfoldable pub described_keys : Map Text Text → List j.Value
  described_keys [] = []
  described_keys ((key, description) ∷ docs) =
      j.of_object
        (object j ((codes "key", j.of_str key) ∷ (codes "description", j.of_str description) ∷ []))
      ∷ described_keys docs

  unfoldable pub list_feature_catalog : j.Value
  unfolding described_keys
  list_feature_catalog = j.of_object (
      object j (
        (codes "object", j.of_str (codes "feature_catalog"))
        ∷ (codes "data", j.of_array (described_keys feature_key_docs))
        ∷ []))
