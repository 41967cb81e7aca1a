-- ===== src/Common/Texts.antt =====
-- Rust strings as the lists of their bytes.
use Prim.Native.Nat.{ℕ, zero, suc}
use Prim.Native.Char.{code}
use Prim.Native.String.{String}
use mathlib.Core.Path.{◌≡◌, refl, ap, subst}
use mathlib.Core.Logic.{◌↔◌}
use mathlib.Core.Bool.{Bool, true, false, ◌&&◌, ◌||◌}
use mathlib.Core.Option.{Option, none, some}
use mathlib.Core.List.{List, [], ◌∷◌, reverse}
use native.Mathlib.Omega.{arith}
use sparkl_router.Common.Tests.{leb, ◌==◌, if◌then◌else◌, is_some}

abbrev pub Text : Type 0
Text = List ℕ

-- The bytes of an ASCII literal.
abbrev pub codes : String → Text
codes String.[] = []
codes (String.◌∷◌ c s) = code c ∷ codes s

abbrev pub text_eq : Text → Text → Bool
text_eq [] [] = true
text_eq [] (d ∷ t) = false
text_eq (c ∷ s) [] = false
text_eq (c ∷ s) (d ∷ t) = (c == d) && text_eq s t

pub text_eq_sound : (s t : Text) → text_eq s t ≡ true → s ≡ t
text_eq_sound [] [] h = refl
text_eq_sound [] (d ∷ t) h = absurd (ground arith)
text_eq_sound (c ∷ s) [] h = absurd (ground arith)
text_eq_sound (c ∷ s) (d ∷ t) h = grind (arith, text_eq_sound s t)

pub text_eq_refl : (s : Text) → text_eq s s ≡ true
text_eq_refl [] = refl
text_eq_refl (c ∷ s) = ground (arith, text_eq_refl s)

pub text_eq_iff : (s t : Text) → (text_eq s t ≡ true) ↔ (s ≡ t)
text_eq_iff s t = (text_eq_sound s t, λ e. subst (λ r. text_eq s r ≡ true) e (text_eq_refl s))

-- `s.strip_prefix(p)`
abbrev pub strip_prefix : Text → Text → Option Text
strip_prefix [] s = some s
strip_prefix (c ∷ p) [] = none
strip_prefix (c ∷ p) (d ∷ s) = if c == d then strip_prefix p s else none

abbrev pub starts_with : Text → Text → Bool
starts_with p s = is_some (strip_prefix p s)

-- `s.contains(p)`
unfoldable pub contains : Text → Text → Bool
contains p [] = starts_with p []
contains p (c ∷ s) = starts_with p (c ∷ s) || contains p s

-- The white space of Unicode, which `trim` removes, in UTF-8: of one, two and three bytes.
abbrev pub is_space : ℕ → Bool
is_space c = (c == 32) || (leb 9 c && leb c 13)

abbrev is_space2 : ℕ → ℕ → Bool
is_space2 a b = (a == 194) && ((b == 133) || (b == 160))

abbrev is_space3 : ℕ → ℕ → ℕ → Bool
is_space3 a b c =
    ((a == 225) && ((b == 154) && (c == 128)))
    || (((a == 226)
          && ((b == 128)
              && ((leb 128 c && leb c 138) || ((c == 168) || ((c == 169) || (c == 175))))))
        || (((a == 226) && ((b == 129) && (c == 159)))
            || ((a == 227) && ((b == 128) && (c == 128)))))

-- A byte that a white space may begin or end with; all others are ASCII.
abbrev pub may_space : ℕ → Bool
may_space c = is_space c || leb 128 c

-- The length of the white space that a text begins with, or of the one that its mirror image ends with.
abbrev space_width : Text → ℕ
space_width [] = 0
space_width (a ∷ []) = if is_space a then 1 else 0
space_width (a ∷ b ∷ []) = if is_space a then 1 else if is_space2 a b then 2 else 0
space_width (a ∷ b ∷ c ∷ s) =
    if is_space a then 1 else if is_space2 a b then 2 else if is_space3 a b c then 3 else 0

abbrev pub space_width_back : Text → ℕ
space_width_back [] = 0
space_width_back (a ∷ []) = if is_space a then 1 else 0
space_width_back (b ∷ a ∷ []) = if is_space b then 1 else if is_space2 a b then 2 else 0
space_width_back (c ∷ b ∷ a ∷ s) =
    if is_space c then 1 else if is_space2 b c then 2 else if is_space3 a b c then 3 else 0

-- The number is that of the bytes that are left of the white space that is being removed.
abbrev pub skip : (Text → ℕ) → ℕ → Text → Text
skip width n [] = []
skip width (suc n) (c ∷ s) = skip width n s
skip width zero (c ∷ s) = elim (width (c ∷ s)) [ zero ↦ c ∷ s | suc n ↦ skip width n s ]

unfoldable pub trim_start : Text → Text
trim_start s = skip space_width 0 s

unfoldable pub trim_end : Text → Text
trim_end s = reverse (skip space_width_back 0 (reverse s))

unfoldable pub trim : Text → Text
unfolding trim_start trim_end
trim s = trim_end (trim_start s)

no_width :
    (s : Text) (c : ℕ)
    → may_space c ≡ false
    → (space_width (c ∷ s) ≡ 0) × (space_width_back (c ∷ s) ≡ 0)
no_width [] c h = (ground arith, ground arith)
no_width (b ∷ []) c h = (ground arith, ground arith)
no_width (b ∷ a ∷ s) c h = (ground arith, ground arith)

pub trim_start-stays : (c : ℕ) (s : Text) → may_space c ≡ false → trim_start (c ∷ s) ≡ c ∷ s
unfolding trim_start
trim_start-stays c s h =
    ap (λ n. elim n as (λ _. Text) [ zero ↦ c ∷ s | suc n ↦ skip space_width n s ])
      (no_width s c h).0

pub skip_back-stays :
    (c : ℕ) (s : Text) → may_space c ≡ false → skip space_width_back 0 (c ∷ s) ≡ c ∷ s
skip_back-stays c s h =
    ap (λ n. elim n as (λ _. Text) [ zero ↦ c ∷ s | suc n ↦ skip space_width_back n s ])
      (no_width s c h).1
