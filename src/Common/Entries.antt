-- ===== src/Common/Entries.antt =====
-- The entries of a map, as members of its list.
use mathlib.Core.Path.{◌≡◌, ap, sym, ◌∙◌}
use mathlib.Core.Logic.{◌≢◌, inl, inr}
use mathlib.Core.Bool.{false}
use mathlib.Core.Option.{none, some}
use mathlib.Core.List.{[], ◌∷◌, Memᴰ}
use mathlib.Core.List.Memᴰ.{head, tail}
use sparkl_router.Common.Tests.{Bool-cases}
use sparkl_router.Common.Maps.{Eq, Map, lookup, remove}
use sparkl_router.Common.Sort.{mem-cons}

beq_false {ℓ} : {K : Type ℓ} ⦃e : Eq K⦄ (k n : K) → k ≢ n → e.beq k n ≡ false
beq_false ⦃e⦄ k n h = elim (Bool-cases (e.beq k n)) [
  | inl t ↦ absurd (h ((e.beq_iff k n).0 t))
  | inr f ↦ f
]

module _ {ℓ κ} {K : Type ℓ} {V : Type κ} ⦃e : Eq K⦄ where
  pub remove-mem :
      (k n : K) (v : V) (m : Map K V) → k ≢ n → Memᴰ (n, v) m → Memᴰ (n, v) (remove k m)
  unfolding remove
  remove-mem k n v [] h x = x
  remove-mem k n v ((i, w) ∷ m) h (head q) =
      let other : e.beq i k ≡ false = beq_false i k (λ p. h (sym p ∙ sym (ap (λ x. x.0) q))) in
      rw other (head q)
  remove-mem k n v ((i, w) ∷ m) h (tail x) = elim (Bool-cases (e.beq i k)) [
    | inl t ↦ rw t (remove-mem k n v m h x)
    | inr f ↦ rw f (tail (remove-mem k n v m h x))
  ]

  pub mem-remove :
      (k n : K) (v : V) (m : Map K V) → Memᴰ (n, v) (remove k m) → (k ≢ n) × Memᴰ (n, v) m
  unfolding remove
  mem-remove k n v [] x = elim x [ ]
  mem-remove k n v ((i, w) ∷ m) x = elim (Bool-cases (e.beq i k)) [
    | inl t ↦ let r = mem-remove k n v m (rw t at x) in (r.0, tail r.1)
    | inr f ↦ elim (mem-cons (rw f at x)) [
      | inl q ↦ (λ p. let t = (e.beq_iff i k).1 (sym (ap (λ y. y.0) q) ∙ sym p) in cc, head q)
      | inr y ↦ let r = mem-remove k n v m y in (r.0, tail r.1)
    ]
  ]

  pub lookup-none-mem : (k : K) (v : V) (m : Map K V) → lookup k m ≡ none → Memᴰ (k, v) m → ⊥
  unfolding lookup
  lookup-none-mem k v [] h x = elim x [ ]
  lookup-none-mem k v ((i, w) ∷ m) h (head q) =
      let t = (e.beq_iff i k).1 (sym (ap (λ y. y.0) q)) in
      let found : some w ≡ none = rw t at h in cc
  lookup-none-mem k v ((i, w) ∷ m) h (tail x) = elim (Bool-cases (e.beq i k)) [
    | inl t ↦ let found : some w ≡ none = rw t at h in absurd (cc)
    | inr f ↦ lookup-none-mem k v m (rw f at h) x
  ]
