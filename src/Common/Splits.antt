-- ===== src/Common/Splits.antt =====
-- `str::split` at a byte and at a text.
use Prim.Native.Nat.{ℕ, zero, suc, ◌-◌}
use mathlib.Core.List.{List, [], ◌∷◌}
use sparkl_router.Common.Tests.{◌==◌, if◌then◌else◌}
use sparkl_router.Common.Lists.{length}
use sparkl_router.Common.Texts.{Text, starts_with}

abbrev pub push_front : ℕ → List Text → List Text
push_front c [] = (c ∷ []) ∷ []
push_front c (s ∷ parts) = (c ∷ s) ∷ parts

-- `s.split(sep)` for a byte
unfoldable pub split : ℕ → Text → List Text
split sep [] = [] ∷ []
split sep (c ∷ s) = let rest = split sep s in if c == sep then [] ∷ rest else push_front c rest

-- `s.split(sep)` for a text that is not empty; the number counts the bytes of a match still to skip.
unfoldable pub split_text : Text → ℕ → Text → List Text
split_text sep skip [] = [] ∷ []
split_text sep (suc k) (c ∷ s) = split_text sep k s
split_text sep zero (c ∷ s) =
    let hit = starts_with sep (c ∷ s) in
    let rest = split_text sep (if hit then length sep - 1 else 0) s in
    if hit then [] ∷ rest else push_front c rest
