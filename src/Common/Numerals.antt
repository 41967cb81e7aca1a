-- ===== src/Common/Numerals.antt =====
-- Decimal and hexadecimal numbers in texts: `parse::<u64>()`, `from_str_radix(_, 16)` and the formats
-- `{}` and `{:x}` of the standard library.
use Prim.Native.Nat.{ℕ, zero, suc, ◌+◌, ◌-◌, ◌*◌, ◌/◌, ◌%◌}
use mathlib.Core.Bool.{◌&&◌}
use mathlib.Core.Option.{Option, none, some}
use mathlib.Core.List.{[], ◌∷◌, ◌++◌}
use sparkl_router.Common.Tests.{ltb, leb, ◌==◌, if◌then◌else◌}
use sparkl_router.Common.Texts.{Text}

-- `char::to_digit(radix)` for a radix up to 16.
unfoldable pub to_digit : ℕ → ℕ → Option ℕ
to_digit radix c =
    let d : ℕ =
      if leb 48 c && leb c 57
      then c - 48
      else if leb 97 c && leb c 102
      then c - 87
      else if leb 65 c && leb c 70
      then c - 55
      else 16 in
    if ltb d radix then some d else none

-- The digits after those that make up `acc`; a result above `max` is an error.
unfoldable pub digits_from : ℕ → ℕ → ℕ → Text → Option ℕ
digits_from radix max acc [] = some acc
digits_from radix max acc (c ∷ s) = elim (to_digit radix c) [
  | none ↦ none
  | some d ↦ if leb (acc * radix + d) max then digits_from radix max (acc * radix + d) s else none
]

-- `from_str_radix` of an unsigned type: one `+` may stand first, and some digit must follow.
abbrev pub unsigned : ℕ → ℕ → Text → Option ℕ
unsigned radix max [] = none
unsigned radix max (c ∷ s) = digits_from radix max 0 (c ∷ s)

unfoldable pub from_str_radix : ℕ → ℕ → Text → Option ℕ
unfolding digits_from
from_str_radix radix max [] = none
from_str_radix radix max (c ∷ s) =
    if c == 43 then unsigned radix max s else digits_from radix max 0 (c ∷ s)

abbrev pub digit_char : ℕ → ℕ
digit_char d = if ltb d 10 then 48 + d else 87 + d

-- The `n` low digits, the highest first.
unfoldable pub digits_of : ℕ → ℕ → ℕ → Text
digits_of radix zero v = []
digits_of radix (suc n) v = digits_of radix n (v / radix) ++ digit_char (v % radix) ∷ []
