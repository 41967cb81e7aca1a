-- ===== src/Chain/Session/Words.antt =====
-- Words in a row (src/chain/session.rs): what `word` finds at each index.
use mathlib.Core.List.{append_assoc}
use sparkl_router.Common.{
  ℕ, zero, suc, ◌+◌, ◌*◌, ◌≡◌, refl, ◌∙◌, true, some, List, [], ◌∷◌, ◌++◌, arith, leb, length,
  length-append, take-append, drop-append_more, get_elem?,
}
use sparkl_router.Chain.Session.{word}

abbrev pub join : List (List ℕ) → List ℕ
join [] = []
join (w ∷ ws) = w ++ join ws

abbrev pub AreWords : List (List ℕ) → Type 0
AreWords [] = Unit {0}
AreWords (w ∷ ws) = (length w ≡ 32) × AreWords ws

pub length-join : (ws : List (List ℕ)) → AreWords ws → length (join ws) ≡ 32 * length ws
length-join [] h = omega arith
length-join (w ∷ ws) h = omega (arith, h.0, length-append w (join ws), length-join ws h.1)

pub word-zero : (w xs : List ℕ) → length w ≡ 32 → word (w ++ xs) 0 ≡ some w
unfolding word
word-zero w xs h =
    let fits : leb 32 (length (w ++ xs)) ≡ true = ground (arith, length-append w xs) in
    rw (fits, take-append w xs 32 h) refl

word-suc : (w xs : List ℕ) (i : ℕ) → length w ≡ 32 → word (w ++ xs) (suc i) ≡ word xs i
unfolding word
word-suc w xs i h =
    let same : leb (suc i * 32 + 32) (length (w ++ xs)) ≡ leb (i * 32 + 32) (length xs) =
      ground (arith, length-append w xs) in
    rw (same, drop-append_more w xs (suc i * 32) (i * 32) (omega arith)) refl

pub word_at :
    (ws : List (List ℕ)) (rest : List ℕ) (i : ℕ) (w : List ℕ)
    → AreWords ws
    → get_elem? ws i ≡ some w
    → word (join ws ++ rest) i ≡ some w
word_at [] rest i w h e = absurd (ground arith)
word_at (v ∷ ws) rest zero w h e = rw append_assoc (word-zero v (join ws ++ rest) h.0 ∙ e)
word_at (v ∷ ws) rest (suc i) w h e =
    rw append_assoc (word-suc v (join ws ++ rest) i h.0 ∙ word_at ws rest i w h.1 e)
