-- ===== src/Consumer/Activate/SessionId.antt =====
-- src/consumer/activate.rs: a session id is read back from the text that the router makes of it.
use sparkl_router.Common.{
  ℕ, zero, suc, ◌-◌, ◌/◌, ◌%◌, ◌^◌, ◌<◌, ◌≤◌, ◌≡◌, ◌≢◌, refl, sym, ap, ◌∙◌, inl, inr, true, false,
  Option, some, List, [], ◌∷◌, ◌++◌, arith, Text, codes, leb, ◌==◌, length, length-append,
  replicate, Bool-cases, ==_iff, trim, may_space, from_str_radix, digits_from, digit_char,
  digits_of, digits_from-digits_of, digits_of_more, to_digit,
}
use sparkl_router.Models.NodeId.{HasNoSpace, trim-id}
use sparkl_router.Consumer.Activate.{without_zeros, parse_hex_id, parse_session_id, session_id_hex}

-- Neither space nor sign.
abbrev AreDigits : Text → Type 0
AreDigits [] = Unit
AreDigits (c ∷ s) = ((may_space c ≡ false) × ((c == 43) ≡ false)) × AreDigits s

AreDigits-append : (s t : Text) → AreDigits s → AreDigits t → AreDigits (s ++ t)
AreDigits-append [] t a b = b
AreDigits-append (c ∷ s) t (h, a) b = (h, AreDigits-append s t a b)

digits_of-AreDigits : (n v : ℕ) → AreDigits (digits_of 16 n v)
unfolding digits_of
digits_of-AreDigits zero v = tt
digits_of-AreDigits (suc n) v =
    AreDigits-append (digits_of 16 n (v / 16)) (digit_char (v % 16) ∷ [])
      (digits_of-AreDigits n (v / 16)) ((ground arith, ground arith), tt)

no_space : (s : Text) → AreDigits s → HasNoSpace s
no_space [] a = tt
no_space (c ∷ s) ((h, g), a) = (h, no_space s a)

length-digits_of : (n v : ℕ) → length (digits_of 16 n v) ≡ n
unfolding digits_of
length-digits_of zero v = refl
length-digits_of (suc n) v = omega (
  arith,
  length-digits_of n (v / 16),
  length-append (digits_of 16 n (v / 16)) (digit_char (v % 16) ∷ []),
)

digits_from-zero : (max : ℕ) (s : Text) → digits_from 16 max 0 (48 ∷ s) ≡ digits_from 16 max 0 s
unfolding digits_from to_digit
digits_from-zero max s = ground arith

-- Zeros in front do not count.
digits_from-without_zeros :
    (max : ℕ) (s : Text) → digits_from 16 max 0 (without_zeros s) ≡ digits_from 16 max 0 s
unfolding without_zeros
digits_from-without_zeros max [] = refl
digits_from-without_zeros max (c ∷ s) = elim (Bool-cases (c == 48)) [
  | inl t ↦
      let zero_digit : c ≡ 48 = (==_iff c 48).0 t in
      rw zero_digit (digits_from-without_zeros max s ∙ sym (digits_from-zero max s))
  | inr f ↦ rw f refl
]

length-without_zeros : (s : Text) → length (without_zeros s) ≤ length s
unfolding without_zeros
length-without_zeros [] = omega arith
length-without_zeros (c ∷ s) = ground (arith, length-without_zeros s)

without_zeros-AreDigits : (s : Text) → AreDigits s → AreDigits (without_zeros s)
unfolding without_zeros
without_zeros-AreDigits [] a = tt
without_zeros-AreDigits (c ∷ s) (h, a) = elim (Bool-cases (c == 48)) [
  | inl t ↦ rw t (without_zeros-AreDigits s a)
  | inr f ↦ rw f (h, a)
]

without_zeros-replicate : (k : ℕ) (s : Text) → without_zeros (replicate k 48 ++ s) ≡ without_zeros s
unfolding without_zeros
without_zeros-replicate zero s = refl
without_zeros-replicate (suc k) s = without_zeros-replicate k s

-- Digits alone are read as they stand.
from_str_radix-digits :
    (max v : ℕ) (s : Text)
    → AreDigits s
    → length s ≢ 0
    → digits_from 16 max 0 s ≡ some v
    → from_str_radix 16 max s ≡ some v
unfolding from_str_radix
from_str_radix-digits max v [] a ne h = absurd (ne refl)
from_str_radix-digits max v (c ∷ s) ((x, y), a) ne h = rw y h

empty_value :
    (s : Text) (v : ℕ)
    → (length s == 0) ≡ true
    → digits_from 16 (2 ^ 64 - 1) 0 s ≡ some v
    → some 0 ≡ some v
unfolding digits_from
empty_value [] v t h = h
empty_value (c ∷ s) v t h = absurd (ground arith)

parse_hex_id-digits :
    (decode : Text → Option (List ℕ)) (s : Text) (v : ℕ)
    → AreDigits s
    → length (without_zeros s) ≤ 16
    → digits_from 16 (2 ^ 64 - 1) 0 s ≡ some v
    → parse_hex_id decode s ≡ some v
unfolding parse_hex_id
parse_hex_id-digits decode s v a few h =
    let value = digits_from-without_zeros (2 ^ 64 - 1) s ∙ h in
    elim (Bool-cases (length (without_zeros s) == 0)) [
      | inl t ↦ rw t (empty_value (without_zeros s) v t value)
      | inr f ↦
          let fits : leb (length (without_zeros s)) 16 ≡ true = ground arith in
          rw (f, fits)
            (from_str_radix-digits (2 ^ 64 - 1) v (without_zeros s) (without_zeros-AreDigits s a)
              (ground arith) value)
    ]

parse_prefixed :
    (decode : Text → Option (List ℕ)) (s : Text)
    → HasNoSpace s
    → parse_session_id decode (codes "0x" ++ s) ≡ parse_hex_id decode s
unfolding parse_session_id
parse_prefixed decode s a =
    let whole : trim (codes "0x" ++ s) ≡ codes "0x" ++ s =
      trim-id (codes "0x" ++ s) (refl, (refl, a)) in
    rw (whole, parse_session_id) refl

-- The text that the router makes of a session id, which it sends to the node and to the consumer, is
-- read back as that id, for every `u64`, whatever `hex::decode` does.
pub parse_session_id-session_id_hex :
    (decode : Text → Option (List ℕ)) (id : ℕ)
    → id < 2 ^ 64
    → parse_session_id decode (session_id_hex id) ≡ some id
unfolding session_id_hex
parse_session_id-session_id_hex decode id small =
    let digits = digits_of 16 64 id in
    let short : without_zeros digits ≡ without_zeros (digits_of 16 16 id) =
      ap without_zeros (digits_of_more 48 16 id small)
      ∙ without_zeros-replicate 48 (digits_of 16 16 id) in
    let few : length (without_zeros digits) ≤ 16 =
      omega (
        arith,
        ap length short,
        length-without_zeros (digits_of 16 16 id),
        length-digits_of 16 id,
      ) in
    parse_prefixed decode digits (no_space digits (digits_of-AreDigits 64 id))
    ∙ parse_hex_id-digits decode digits id (digits_of-AreDigits 64 id) few
        (digits_from-digits_of 64 id (2 ^ 64 - 1) (omega arith) (omega arith))
