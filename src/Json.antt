-- ===== src/Json.antt =====
-- The values of `serde_json`, which the router uses and does not implement: what the code calls, and
-- what the documentation says of it. A `Value::Object` holds a `serde_json::Map`.
use sparkl_router.Common.{
  ℕ, ◌<◌, ◌^◌, ◌≡◌, Bool, Option, none, some, List, [], ◌∷◌, Text, Map, text_eq, if◌then◌else◌,
}

pub record Json : Type 1 where
  pub Value : Type 0
  pub Object : Type 0
  -- `Value::as_u64` and its kin
  pub as_u64 : Value → Option ℕ
  pub as_bool : Value → Option Bool
  pub as_str : Value → Option Text
  pub as_array : Value → Option (List Value)
  pub as_object : Value → Option Object
  -- `json!(n)` and its kin
  pub of_u64 : ℕ → Value
  pub of_bool : Bool → Value
  pub of_str : Text → Value
  pub of_array : List Value → Value
  pub of_object : Object → Value
  -- `serde_json::Map`: `new`, `get`, `insert` and `iter`
  pub empty : Object
  pub find : Object → Text → Option Value
  pub put : Text → Value → Object → Object
  pub entries : Object → Map Text Value
  -- `serde_json::from_str` and `serde_json::to_string`
  pub from_str : Text → Option Value
  pub to_string : Value → Text
  pub as_u64_of_u64 : (n : ℕ) → n < 2 ^ 64 → as_u64 (of_u64 n) ≡ some n
  pub as_bool_of_bool : (b : Bool) → as_bool (of_bool b) ≡ some b
  pub as_str_of_str : (s : Text) → as_str (of_str s) ≡ some s
  pub as_array_of_array : (vs : List Value) → as_array (of_array vs) ≡ some vs
  pub as_object_of_object : (o : Object) → as_object (of_object o) ≡ some o
  pub find_empty : (k : Text) → find empty k ≡ none
  pub find_put :
      (k l : Text) (v : Value) (o : Object)
      → find (put k v o) l ≡ (if text_eq k l then some v else find o l)

-- `Option::and_then`, and `do` blocks of options.
infixl 5 ◌>>=◌
abbrev pub ◌>>=◌ {ℓ κ} : {A : Type ℓ} {B : Type κ} → Option A → (A → Option B) → Option B
none >>= f = none
some a >>= f = f a

abbrev pub or_else {ℓ} : {A : Type ℓ} → Option A → Option A → Option A
or_else none o = o
or_else (some a) o = some a

abbrev pub unwrap_or {ℓ} : {A : Type ℓ} → Option A → A → A
unwrap_or none d = d
unwrap_or (some a) d = a

module _ (j : Json) where
  -- `v.get(key)`
  abbrev pub get : j.Value → Text → Option j.Value
  get v key = j.as_object v >>= λ o. j.find o key

  -- `v.pointer("/outer/inner")` for keys that are no numbers
  abbrev pub pointer : j.Value → Text → Text → Option j.Value
  pointer v outer inner = get v outer >>= λ w. get w inner

  -- `json!({…})`; a later entry replaces an earlier one of its key.
  abbrev pub object : Map Text j.Value → j.Object
  object [] = j.empty
  object ((k, v) ∷ m) = j.put k v (object m)
