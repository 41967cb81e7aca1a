-- ===== src/Common/Digits.antt =====
-- The digits of a number are read back, with or without the zeros in front.
use Prim.Native.Nat.{ℕ, zero, suc, ◌+◌, ◌*◌, ◌/◌, ◌%◌, ◌^◌, ◌<◌, ◌≤◌}
use mathlib.Core.Path.{◌≡◌, refl, sym, ap, ◌∙◌}
use mathlib.Core.Logic.{inl, inr}
use mathlib.Core.Bool.{true}
use mathlib.Core.Option.{none, some}
use mathlib.Core.List.{[], ◌∷◌, ◌++◌, append_assoc, append-nil}
use native.Mathlib.Nat.{pow-suc}
use native.Mathlib.Omega.{arith}
use sparkl_router.Common.Tests.{leb, Option-cases, Bool-cases}
use sparkl_router.Common.Lists.{replicate}
use sparkl_router.Common.Texts.{Text}
use sparkl_router.Common.Numerals.{to_digit, digits_from, digit_char, digits_of}

pub to_digit-digit_char : (d : ℕ) → d < 16 → to_digit 16 (digit_char d) ≡ some d
unfolding to_digit
to_digit-digit_char d h = ground arith

-- The digits of `s`, and then those of `t`.
digits_from-append :
    (max acc v : ℕ) (s t : Text)
    → digits_from 16 max acc s ≡ some v
    → digits_from 16 max acc (s ++ t) ≡ digits_from 16 max v t
unfolding digits_from
digits_from-append max acc v [] t h = let e : acc ≡ v = cc in ap (λ a. digits_from 16 max a t) e
digits_from-append max acc v (c ∷ s) t h = elim (Option-cases (to_digit 16 c)) [
  | inl e ↦ let wrong : none ≡ some v = rw (e, digits_from) at h in absurd (cc)
  | inr (d, e) ↦ elim (Bool-cases (leb (acc * 16 + d) max)) [
    | inl b ↦
        let rest : digits_from 16 max (acc * 16 + d) s ≡ some v =
          rw b at (rw (e, digits_from) at h) in
        rw (e, digits_from) (rw b (digits_from-append max (acc * 16 + d) v s t rest))
    | inr b ↦ let wrong : none ≡ some v = rw b at (rw (e, digits_from) at h) in absurd (cc)
  ]
]

pub digits_from-digits_of :
    (n v max : ℕ) → v < 16 ^ n → v ≤ max → digits_from 16 max 0 (digits_of 16 n v) ≡ some v
unfolding digits_from digits_of
digits_from-digits_of zero v max h b = ap some (omega arith)
digits_from-digits_of (suc n) v max h b =
    let smaller : v / 16 < 16 ^ n = omega (arith, pow-suc 16 n) in
    let digit = to_digit-digit_char (v % 16) (omega arith) in
    let whole : (v / 16) * 16 + v % 16 ≡ v = omega arith in
    let fits : leb v max ≡ true = ground arith in
    digits_from-append max 0 (v / 16) (digits_of 16 n (v / 16)) (digit_char (v % 16) ∷ [])
      (digits_from-digits_of n (v / 16) max smaller (omega arith))
    ∙ rw (digit, digits_from) (rw (whole) (rw fits refl))

replicate_snoc : (k c : ℕ) → replicate k c ++ c ∷ [] ≡ c ∷ replicate k c
replicate_snoc zero c = refl
replicate_snoc (suc k) c = ap (◌∷◌ c) (replicate_snoc k c)

digits_of_zero : (k : ℕ) → digits_of 16 k 0 ≡ replicate k 48
unfolding digits_of
digits_of_zero zero = refl
digits_of_zero (suc k) =
    let c : ℕ = 48 in ap (λ s. s ++ c ∷ []) (digits_of_zero k) ∙ replicate_snoc k c

-- A number that is small has zeros in front.
pub digits_of_more :
    (k n v : ℕ) → v < 16 ^ n → digits_of 16 (n + k) v ≡ replicate k 48 ++ digits_of 16 n v
unfolding digits_of
digits_of_more k zero v h =
    let none_left : v ≡ 0 = omega arith in
    let no_more : 0 + k ≡ k = omega arith in
    ap (λ m. digits_of 16 m v) no_more
    ∙ ap (digits_of 16 k) none_left
    ∙ digits_of_zero k
    ∙ sym (append-nil (replicate k 48))
digits_of_more k (suc n) v h =
    let smaller : v / 16 < 16 ^ n = omega (arith, pow-suc 16 n) in
    let longer : suc n + k ≡ suc (n + k) = omega arith in
    ap (λ m. digits_of 16 m v) longer
    ∙ ap (λ s. s ++ digit_char (v % 16) ∷ []) (digits_of_more k n (v / 16) smaller)
    ∙ append_assoc (replicate k 48) (digits_of 16 n (v / 16)) (digit_char (v % 16) ∷ [])
