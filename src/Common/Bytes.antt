-- ===== src/Common/Bytes.antt =====
-- Big-endian numbers of a fixed number of bytes.
use Prim.Native.Nat.{ℕ, zero, suc, ◌+◌, ◌*◌, ◌/◌, ◌%◌, ◌^◌, ◌<◌}
use mathlib.Core.Path.{◌≡◌, refl, ◌∙◌}
use mathlib.Core.List.{List, [], ◌∷◌, ◌++◌}
use native.Mathlib.Nat.{pow-suc}
use native.Mathlib.Omega.{arith}
use sparkl_router.Common.Lists.{length, length-append}

-- `from_be_bytes` and `from_be_slice`: the first byte weighs most.
unfoldable pub be_from : ℕ → List ℕ → ℕ
be_from acc [] = acc
be_from acc (b ∷ bs) = be_from (acc * 256 + b) bs

abbrev pub from_be : List ℕ → ℕ
from_be = be_from 0

-- The `n` low bytes of a number, the highest first.
unfoldable pub to_be : ℕ → ℕ → List ℕ
to_be zero v = []
to_be (suc n) v = to_be n (v / 256) ++ (v % 256) ∷ []

pub length-to_be : (n v : ℕ) → length (to_be n v) ≡ n
unfolding to_be
length-to_be zero v = refl
length-to_be (suc n) v =
    omega (arith, length-to_be n (v / 256), length-append (to_be n (v / 256)) ((v % 256) ∷ []))

be_from-append :
    (acc : ℕ) (xs : List ℕ) (b : ℕ) → be_from acc (xs ++ b ∷ []) ≡ be_from acc xs * 256 + b
unfolding be_from
be_from-append acc [] b = refl
be_from-append acc (x ∷ xs) b = be_from-append (acc * 256 + x) xs b

-- A number that fits is read back.
pub from_be-to_be : (n v : ℕ) → v < 256 ^ n → from_be (to_be n v) ≡ v
unfolding to_be be_from
from_be-to_be zero v h = omega arith
from_be-to_be (suc n) v h =
    let smaller : v / 256 < 256 ^ n = omega (arith, pow-suc 256 n) in
    be_from-append 0 (to_be n (v / 256)) (v % 256)
    ∙ omega (arith, from_be-to_be n (v / 256) smaller)
