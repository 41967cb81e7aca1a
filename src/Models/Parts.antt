-- ===== src/Models/Parts.antt =====
-- `str::contains` on its bytes.
use sparkl_router.Common.{
  ◌≡◌, ◌↔◌, refl, ap, true, false, some, [], ◌∷◌, ◌++◌, arith, Text, starts_with, strip_prefix,
  contains, inl, inr, Bool-cases, Option-cases,
}

-- The text `part` stands somewhere in `s`.
abbrev pub HasPart : Text → Text → Type 0
HasPart part s = (before : Text) × ((after : Text) × (s ≡ before ++ (part ++ after)))

strip_prefix_sound : (p s t : Text) → strip_prefix p s ≡ some t → s ≡ p ++ t
strip_prefix_sound [] s t h = cc
strip_prefix_sound (c ∷ p) [] t h = absurd (cc)
strip_prefix_sound (c ∷ p) (d ∷ s) t h = ground (arith, strip_prefix_sound p s t)

strip_prefix-append : (p t : Text) → strip_prefix p (p ++ t) ≡ some t
strip_prefix-append [] t = refl
strip_prefix-append (c ∷ p) t = ground (arith, strip_prefix-append p t)

starts_with_sound : (p s : Text) → starts_with p s ≡ true → HasPart p s
starts_with_sound p s h = elim (Option-cases (strip_prefix p s)) [
  | inl e ↦ let wrong : false ≡ true = rw e at h in absurd (cc)
  | inr (t, e) ↦ ([], (t, strip_prefix_sound p s t e))
]

contains_sound : (p s : Text) → contains p s ≡ true → HasPart p s
unfolding contains
contains_sound p [] h = starts_with_sound p [] h
contains_sound p (c ∷ s) h = elim (Bool-cases (starts_with p (c ∷ s))) [
  | inl t ↦ starts_with_sound p (c ∷ s) t
  | inr f ↦ let (a, (b, e)) = contains_sound p s (ground arith) in (c ∷ a, (b, ap (◌∷◌ c) e))
]

contains_here : (p s : Text) → starts_with p s ≡ true → contains p s ≡ true
unfolding contains
contains_here p [] h = h
contains_here p (c ∷ s) h = rw h refl

contains_complete : (p a b : Text) → contains p (a ++ (p ++ b)) ≡ true
unfolding contains
contains_complete p [] b = contains_here p (p ++ b) (rw (strip_prefix-append p b) refl)
contains_complete p (c ∷ a) b = rw (contains_complete p a b) (ground arith)

pub contains_iff : (p s : Text) → (contains p s ≡ true) ↔ HasPart p s
contains_iff p s = (contains_sound p s, λ (a, (b, e)). rw e (contains_complete p a b))
