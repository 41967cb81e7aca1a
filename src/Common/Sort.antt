-- ===== src/Common/Sort.antt =====
-- `sort_by`: a stable sort, here by insertion, with `before a b` for "a does not compare as greater".
use mathlib.Core.Path.{◌≡◌}
use mathlib.Core.Logic.{◌⊎◌, inl, inr}
use mathlib.Core.Bool.{Bool, true, false}
use mathlib.Core.List.{List, [], ◌∷◌, Memᴰ}
use mathlib.Core.List.Memᴰ.{head, tail}
use sparkl_router.Common.Tests.{if◌then◌else◌, Bool-cases}

pub mem-cons {ℓ} : {A : Type ℓ} {a x : A} {l : List A} → Memᴰ a (x ∷ l) → (a ≡ x) ⊎ Memᴰ a l
mem-cons (head e) = inl e
mem-cons (tail m) = inr m

module _ {ℓ} {A : Type ℓ} (before : A → A → Bool) where
  unfoldable pub insert_by : A → List A → List A
  insert_by x [] = x ∷ []
  insert_by x (y ∷ ys) = if before x y then x ∷ y ∷ ys else y ∷ insert_by x ys

  unfoldable pub sort_by : List A → List A
  unfolding insert_by
  sort_by [] = []
  sort_by (x ∷ xs) = insert_by x (sort_by xs)

  -- Neighbours stand in order.
  abbrev pub IsSorted : List A → Type 0
  IsSorted [] = Unit
  IsSorted (x ∷ []) = Unit
  IsSorted (x ∷ y ∷ r) = (before x y ≡ true) × IsSorted (y ∷ r)

  insert_by-mem : {a : A} (x : A) (l : List A) → (a ≡ x) ⊎ Memᴰ a l → Memᴰ a (insert_by x l)
  unfolding insert_by
  insert_by-mem x [] (inl e) = head e
  insert_by-mem x [] (inr m) = tail m
  insert_by-mem x (y ∷ ys) h = elim (Bool-cases (before x y)) [
    | inl t ↦ rw t (elim h [ inl e ↦ head e | inr m ↦ tail m ])
    | inr t ↦ rw t (elim h [
      | inl e ↦ tail (insert_by-mem x ys (inl e))
      | inr (head e) ↦ head e
      | inr (tail m) ↦ tail (insert_by-mem x ys (inr m))
    ])
  ]

  mem-insert_by : {a : A} (x : A) (l : List A) → Memᴰ a (insert_by x l) → (a ≡ x) ⊎ Memᴰ a l
  unfolding insert_by
  mem-insert_by x [] h = mem-cons h
  mem-insert_by x (y ∷ ys) h = elim (Bool-cases (before x y)) [
    | inl t ↦ mem-cons (rw t at h)
    | inr t ↦ elim (mem-cons (rw t at h)) [
      | inl e ↦ inr (head e)
      | inr m ↦ elim (mem-insert_by x ys m) [ inl e ↦ inl e | inr n ↦ inr (tail n) ]
    ]
  ]

  pub mem-sort_by : {a : A} (l : List A) → Memᴰ a (sort_by l) → Memᴰ a l
  unfolding sort_by
  mem-sort_by [] m = m
  mem-sort_by (x ∷ xs) m = elim (mem-insert_by x (sort_by xs) m) [
    | inl e ↦ head e
    | inr n ↦ tail (mem-sort_by xs n)
  ]

  pub sort_by-mem : {a : A} (l : List A) → Memᴰ a l → Memᴰ a (sort_by l)
  unfolding sort_by
  sort_by-mem [] m = m
  sort_by-mem (x ∷ xs) (head e) = insert_by-mem x (sort_by xs) (inl e)
  sort_by-mem (x ∷ xs) (tail m) = insert_by-mem x (sort_by xs) (inr (sort_by-mem xs m))

  module _ (total : (a b : A) → before a b ≡ false → before b a ≡ true) where
    cons-insert_by-IsSorted :
        (y x : A) (l : List A) → before y x ≡ true → IsSorted (y ∷ l) → IsSorted (y ∷ insert_by x l)
    unfolding insert_by
    cons-insert_by-IsSorted y x [] b s = (b, tt)
    cons-insert_by-IsSorted y x (z ∷ r) b (o, s) = elim (Bool-cases (before x z)) [
      | inl t ↦ rw t (b, (t, s))
      | inr t ↦ rw t (o, cons-insert_by-IsSorted z x r (total x z t) s)
    ]

    insert_by-IsSorted : (x : A) (l : List A) → IsSorted l → IsSorted (insert_by x l)
    unfolding insert_by
    insert_by-IsSorted x [] s = tt
    insert_by-IsSorted x (y ∷ ys) s = elim (Bool-cases (before x y)) [
      | inl t ↦ rw t (t, s)
      | inr t ↦ rw t (cons-insert_by-IsSorted y x ys (total x y t) s)
    ]

    pub sort_by-IsSorted : (l : List A) → IsSorted (sort_by l)
    unfolding sort_by
    sort_by-IsSorted [] = tt
    sort_by-IsSorted (x ∷ xs) = insert_by-IsSorted x (sort_by xs) (sort_by-IsSorted xs)
